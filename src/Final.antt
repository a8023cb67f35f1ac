-- ===== src/Final.antt =====
-- The programs of Final/src: a server that spreads requests over servants, each of which holds the
-- transactions of some cities.
pub mod Queue
pub mod Structs
pub mod Words
pub mod Client
pub mod Search
pub mod Servant
pub mod Pool
pub mod Server
