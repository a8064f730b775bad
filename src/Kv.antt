-- ===== src/Kv.antt =====
-- kv: typed access to an mdbx database.
pub mod Traits
pub mod Values
pub mod Env
pub mod Tx
pub mod Cursor
pub mod Walk
