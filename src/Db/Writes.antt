-- ===== src/Db/Writes.antt =====
-- erigon/mod.rs: the typed writes.
pub mod Laws
pub mod Blocks
pub mod Accounts
use erigon_db.Prelude.{ℕ, Option}
use erigon_db.Outcome.{Profile}
use erigon_db.Crates.{
  MdbxCrate, BufCrate, UintCrate, FixedHashCrate, ArrayVecCrate, RlpCrate, H256, Address,
}
use erigon_db.Kv.Tx.{Action}
use erigon_db.Models.Keys.{BlockNumber, Incarnation, HeaderKey}
use erigon_db.Models.Account.{Account}
use erigon_db.Models.Block.{BlockHeader, BodyForStorage}
use erigon_db.Db.Access.{write}
use erigon_db.Db.Tables

module _ ⦃m : MdbxCrate⦄ ⦃f : FixedHashCrate⦄ where
  unfoldable pub write_head_header_hash : H256 → Action (Unit {0})
  write_head_header_hash v = write Tables.last_header tt v

  unfoldable pub write_head_block_hash : H256 → Action (Unit {0})
  write_head_block_hash v = write Tables.last_block tt v

  unfoldable pub write_incarnation : Address → Incarnation → Action (Unit {0})
  write_incarnation k v = write Tables.incarnation_map k v

  unfoldable pub write_account :
      ⦃b : BufCrate⦄ ⦃u : UintCrate⦄ → Address → Account → Action (Unit {0})
  write_account k v = write Tables.plain_state k v

  unfoldable pub write_transaction_block_number :
      ⦃u : UintCrate⦄ ⦃v : ArrayVecCrate⦄ → H256 → ℕ → Action (Unit {0})
  write_transaction_block_number k v = write Tables.block_transaction_lookup k v

  unfoldable pub write_header_number : H256 → BlockNumber → Action (Unit {0})
  write_header_number k v = write Tables.header_number k v

  unfoldable pub write_header :
      ⦃v : ArrayVecCrate⦄ ⦃r : RlpCrate⦄ ⦃p : Profile⦄ → HeaderKey → BlockHeader → Action (Unit {0})
  write_header k v = write Tables.header k v

  unfoldable pub write_body_for_storage :
      ⦃v : ArrayVecCrate⦄ ⦃r : RlpCrate⦄ ⦃i : Tables.BodyItem⦄
      → HeaderKey
      → BodyForStorage
      → Action (Unit {0})
  write_body_for_storage k v = write Tables.block_body k v
