-- ===== src/Hw1.antt =====
-- The program of Hw1/src: rules of replacement that are applied to the lines of a file.
pub mod Replace
pub mod Rules
pub mod File
