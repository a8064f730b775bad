-- ===== src/Db/Tables.antt =====
-- erigon/tables.rs: the tables with their keys and values.
use erigon_db.Prelude.{ℕ, List, String, Bool, true, false}
use erigon_db.Outcome.{Result, Profile}
use erigon_db.Crates.{
  BufCrate, UintCrate, FixedHashCrate, ArrayVecCrate, RoaringCrate, RlpCrate, RlpItem,
}
use erigon_db.Kv.Traits.{TableObject}
use erigon_db.Kv.Tx.{Table}
use erigon_db.Kv.Values.{
  h256_type, u256_type, address_type, bytes_object, roaring_object, slot_object,
}
use erigon_db.Macros.{bytes_wrapper}
use erigon_db.Models.Keys
use erigon_db.Models.Keys.{u64_key}
use erigon_db.Models.Log.{LogItems, cbor_receipts, cbor_logs}
use erigon_db.Models.Senders.{senders_object}
use erigon_db.Models.Account.{account_type, account_cs_val}
use erigon_db.Models.Transaction.Codec.{TxItems, transaction_object}
use erigon_db.Models.Block.{BodyForStorage, rlp_table_value, block_header_item}
use erigon_db.Models.Block.Difficulty.{total_difficulty_object}

-- `NoFlags` and `DupSortFlags`.
abbrev pub no_flags : Bool
no_flags = false

abbrev pub dup_sort_flags : Bool
dup_sort_flags = true

-- `table!`, its form with a seek key, and `dupsort_table!`.
abbrev pub table : String → {K V : Type 0} → (K → Result (List ℕ)) → TableObject V → Table
table name {K} {V} encode object = record {
  Key = K;
  Value = V;
  SeekKey = K;
  name = name;
  dup_sort = no_flags;
  encode_key = encode;
  encode_seek = encode;
  object = object;
}

abbrev pub seek_table :
    String
    → {K V S : Type 0} → (K → Result (List ℕ))
    → TableObject V
    → (S → Result (List ℕ))
    → Table
seek_table name {K} {V} {S} encode object encode_seek = record {
  Key = K;
  Value = V;
  SeekKey = S;
  name = name;
  dup_sort = no_flags;
  encode_key = encode;
  encode_seek = encode_seek;
  object = object;
}

abbrev pub dupsort_table : String → {K V : Type 0} → (K → Result (List ℕ)) → TableObject V → Table
dupsort_table name {K} {V} encode object = record {
  Key = K;
  Value = V;
  SeekKey = K;
  name = name;
  dup_sort = dup_sort_flags;
  encode_key = encode;
  encode_seek = encode;
  object = object;
}

-- The codec of stored bodies, which `derive(RlpEncodable, RlpDecodable)` generates.
pub record BodyItem : Type 0 where
  pub item : RlpItem BodyForStorage

module _ ⦃f : FixedHashCrate⦄ where
  abbrev pub last_header : Table
  last_header = table "LastHeader" Keys.last_header_key h256_type.object

  abbrev pub last_block : Table
  last_block = table "LastBlock" Keys.last_block_key h256_type.object

  abbrev pub incarnation_map : Table
  incarnation_map = table "IncarnationMap" address_type.encode u64_key.object

  abbrev pub header_number : Table
  header_number = table "HeaderNumber" h256_type.encode u64_key.object

  abbrev pub canonical_header : Table
  canonical_header = table "CanonicalHeader" u64_key.encode h256_type.object

  abbrev pub code : Table
  code = table "Code" h256_type.encode bytes_wrapper

  abbrev pub tevm_code : Table
  tevm_code = table "TEVMCode" h256_type.encode bytes_object

abbrev pub db_info : Table
db_info = table "DbInfo" bytes_object.encode bytes_object

-- `type Todo = Bytes`
abbrev pub todo : TableObject (List ℕ)
todo = bytes_object

abbrev pub trie_account : Table
trie_account = table "TrieAccount" todo.encode todo

abbrev pub trie_storage : Table
trie_storage = table "TrieStorage" todo.encode todo

abbrev pub log_topic_index : Table
log_topic_index = table "LogTopicIndex" todo.encode todo

abbrev pub log_address_index : Table
log_address_index = table "LogAddressIndex" todo.encode todo

abbrev pub call_trace_set : Table
call_trace_set = dupsort_table "CallTraceSet" todo.encode todo

module _ ⦃i : LogItems⦄ where
  abbrev pub receipt : Table
  receipt = table "Receipt" u64_key.encode cbor_receipts

  abbrev pub transaction_log : ⦃f : FixedHashCrate⦄ ⦃v : ArrayVecCrate⦄ → Table
  transaction_log = table "TransactionLog" Keys.logs_key.encode cbor_logs

module _ ⦃f : FixedHashCrate⦄ ⦃v : ArrayVecCrate⦄ where
  abbrev pub tx_sender : Table
  tx_sender = table "TxSender" Keys.header_key.encode senders_object

  abbrev pub plain_code_hash : Table
  plain_code_hash = table "PlainCodeHash" Keys.plain_code_key.encode h256_type.object

  abbrev pub hashed_code_hash : Table
  hashed_code_hash = table "HashedCodeHash" Keys.contract_code_key.encode h256_type.object

  abbrev pub account_history : ⦃r : RoaringCrate⦄ → Table
  account_history = table "AccountHistory" Keys.account_hist_key.encode roaring_object

  abbrev pub storage_history : ⦃r : RoaringCrate⦄ → Table
  storage_history = table "StorageHistory" Keys.storage_hist_key.encode roaring_object

module _ ⦃f : FixedHashCrate⦄ ⦃v : ArrayVecCrate⦄ ⦃u : UintCrate⦄ where
  abbrev pub block_transaction_lookup : Table
  block_transaction_lookup = table "BlockTransactionLookup" h256_type.encode u256_type.object

  abbrev pub storage_change_set : Table
  storage_change_set =
      dupsort_table "StorageChangeSet" Keys.storage_cs_key.encode Keys.storage_cs_val.object

  -- `rename = PlainState`
  abbrev pub storage : Table
  storage = dupsort_table "PlainState" Keys.storage_key.encode slot_object

  abbrev pub hashed_storage : Table
  hashed_storage = table "HashedStorage" Keys.hash_storage_key.encode u256_type.object

  abbrev pub issuance : Table
  issuance = table "Issuance" u64_key.encode u256_type.object

  -- `rename = Issuance`
  abbrev pub burnt : Table
  burnt = table "Issuance" Keys.encode_burnt_key u256_type.object

  abbrev pub account_change_set : ⦃b : BufCrate⦄ → Table
  account_change_set = dupsort_table "AccountChangeSet" u64_key.encode account_cs_val.object

module _ ⦃f : FixedHashCrate⦄ ⦃u : UintCrate⦄ ⦃b : BufCrate⦄ where
  abbrev pub plain_state : Table
  plain_state = table "PlainState" address_type.encode account_type.object

  abbrev pub hashed_account : Table
  hashed_account = table "HashedAccount" h256_type.encode account_type.object

module _ ⦃f : FixedHashCrate⦄ ⦃v : ArrayVecCrate⦄ ⦃r : RlpCrate⦄ where
  abbrev pub header : ⦃p : Profile⦄ → Table
  header =
      seek_table "Header" Keys.header_key.encode (rlp_table_value block_header_item) u64_key.encode

  abbrev pub block_body : ⦃i : BodyItem⦄ → Table
  block_body ⦃i⦄ =
      seek_table "BlockBody" Keys.header_key.encode (rlp_table_value i.item) u64_key.encode

  abbrev pub headers_total_difficulty : Table
  headers_total_difficulty =
      table "HeadersTotalDifficulty" Keys.header_key.encode total_difficulty_object

module _ ⦃b : BufCrate⦄ ⦃r : RlpCrate⦄ ⦃t : TxItems⦄ where
  abbrev pub block_transaction : Table
  block_transaction = table "BlockTransaction" u64_key.encode transaction_object

  abbrev pub non_canonical_transaction : Table
  non_canonical_transaction = table "NonCanonicalTransaction" u64_key.encode transaction_object
