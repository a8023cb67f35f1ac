-- ===== src/Hw3.antt =====
-- The programs of Hw3/src: a wholesaler delivers two of four ingredients, pushers find out which
-- chef lacks exactly these, and the chef takes them. `unnamed` and `named` differ in how the
-- processes find their semaphores.
pub mod Kitchen
