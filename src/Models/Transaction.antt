-- ===== src/Models/Transaction.antt =====
-- erigon/models/transaction.rs.
pub mod Action
pub mod ChainId
pub mod Defs
pub mod Codec
pub mod Signing
pub mod Ethers
