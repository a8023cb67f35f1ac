-- ===== src/Hw2.antt =====
-- The programs of Hw2/src: a parent that looks for the two matrices of its children that are closest.
pub mod Closest
pub mod Results
