-- ===== src/Models/Log.antt =====
-- erigon/models/log.rs: the CBOR values of the tables of receipts and logs.
use erigon_db.Prelude.{ℕ, Option, List}
use erigon_db.Crates.{CborItem, H256, Address}
use erigon_db.Kv.Traits.{TableObject}
use erigon_db.Macros.{cbor_wrapper}

pub record CborLog : Type 0 where
  pub address : Address
  pub topics : List H256
  pub input : List ℕ

pub record CborReceipt : Type 0 where
  pub tx_type : ℕ
  pub post_state : Option H256
  pub status : ℕ
  pub cumulative_gas_used : ℕ

-- Their serde codecs, which `derive(Serialize, Deserialize)` generates.
pub record LogItems : Type 0 where
  pub receipts : CborItem (Option (List CborReceipt))
  pub logs : CborItem (Option (List CborLog))

module _ ⦃i : LogItems⦄ where
  unfoldable pub cbor_receipts : TableObject (Option (List CborReceipt))
  cbor_receipts = cbor_wrapper i.receipts

  unfoldable pub cbor_logs : TableObject (Option (List CborLog))
  cbor_logs = cbor_wrapper i.logs
