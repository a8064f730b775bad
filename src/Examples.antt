-- ===== src/Examples.antt =====
-- The theorems at concrete inputs, with the stand-ins for the crates.
mod Lookups
mod Keys
mod Models
mod Store
mod Encodings
mod Transactions
mod Past
mod PastAccounts
mod Spec
mod Chain
mod Ethers
mod Failure
mod Headers
mod Session
mod BlockTxs
mod Signing
