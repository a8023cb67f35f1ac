-- ===== src/Midterm.antt =====
-- The programs of Midterm/src: clients that send a matrix to a server, which asks its pool of
-- workers whether the matrix can be inverted.
pub mod Matrix
pub mod Reading
pub mod Server
pub mod Backup
pub mod Client
pub mod Together
