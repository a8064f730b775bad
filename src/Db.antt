-- ===== src/Db.antt =====
-- erigon: the tables of an Erigon database, and typed reads and writes of them.
pub mod Env
pub mod MemDb
pub mod Access
pub mod Tables
pub mod Reads
pub mod Writes
pub mod Spec
pub mod History
