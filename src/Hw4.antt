-- ===== src/Hw4.antt =====
-- Hw4/src/main.c: a supplier and consumers over two semaphores.
pub mod Supply
