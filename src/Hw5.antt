-- ===== src/Hw5.antt =====
-- Hw5/src/main.c: threads that multiply matrices, meet, and transform the product.
pub mod Rendezvous
pub mod Product
pub mod Partition
