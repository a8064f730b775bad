-- ===== src/Models.antt =====
-- erigon/models: the keys and values of the tables.
pub mod Keys
pub mod Senders
pub mod Account
pub mod Transaction
pub mod Block
pub mod Log
