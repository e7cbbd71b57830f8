-- ===== src/Store.antt =====
-- What the program keeps outside its own memory: the Postgres tables, and Redis behind interfaces.
pub mod Tables
pub mod Broker
pub mod Buckets
pub mod Hashes
pub mod World
pub mod Triple
pub mod DbTriple
pub mod Holds
pub mod Rows
