-- ===== src/Models/Keys.antt =====
-- erigon/models/mod.rs and log.rs: the table keys.
pub mod RoundTrip
pub mod Order
use erigon_db.Prelude.{ℕ, ◌+◌, List, [], ◌∷◌, ◌++◌, replicate}
use erigon_db.Outcome.{Result, ok, ◌>>=◌}
use erigon_db.Crates.{FixedHashCrate, UintCrate, ArrayVecCrate, KeccakCrate, H256, Address}
use erigon_db.Kv.Traits.{TableType}
use erigon_db.Kv.Values.{h256_type, u256_type, address_type, uint_type, extend}
use erigon_db.Macros.{tuple_key2, tuple_key3}

-- `u64_wrapper!` types: newtypes of u64.
abbrev pub BlockNumber : Type 0
BlockNumber = ℕ

abbrev pub Incarnation : Type 0
Incarnation = ℕ

abbrev pub TxIndex : Type 0
TxIndex = ℕ

-- `u64_table_key!`
unfoldable pub u64_key : TableType ℕ
unfolding uint_type
u64_key = uint_type 8

-- `constant_key!`: the key is the text of its name.
abbrev pub constant_key : List ℕ → Unit {0} → Result (List ℕ)
constant_key name u = ok name

abbrev pub last_header_key : Unit {0} → Result (List ℕ)
last_header_key =
    constant_key (b'L' ∷ b'a' ∷ b's' ∷ b't' ∷ b'H' ∷ b'e' ∷ b'a' ∷ b'd' ∷ b'e' ∷ b'r' ∷ [])

abbrev pub last_block_key : Unit {0} → Result (List ℕ)
last_block_key = constant_key (b'L' ∷ b'a' ∷ b's' ∷ b't' ∷ b'B' ∷ b'l' ∷ b'o' ∷ b'c' ∷ b'k' ∷ [])

abbrev pub HeaderKey : Type 0
HeaderKey = BlockNumber × H256

abbrev pub AccountHistKey : Type 0
AccountHistKey = Address × BlockNumber

abbrev pub StorageKey : Type 0
StorageKey = Address × Incarnation

-- The value of a changed slot: slot and value.
abbrev pub StorageCsVal : Type 0
StorageCsVal = H256 × ℕ

abbrev pub StorageCsKey : Type 0
StorageCsKey = record { 0 : BlockNumber; 1 : StorageKey }

abbrev pub StorageHistKey : Type 0
StorageHistKey = Address × H256 × BlockNumber

abbrev pub PlainCodeKey : Type 0
PlainCodeKey = Address × Incarnation

abbrev pub ContractCodeKey : Type 0
ContractCodeKey = H256 × Incarnation

abbrev pub HashStorageKey : Type 0
HashStorageKey = H256 × Incarnation × H256

-- Block number and index of a log (u32).
abbrev pub LogsKey : Type 0
LogsKey = BlockNumber × ℕ

module _ ⦃f : FixedHashCrate⦄ ⦃v : ArrayVecCrate⦄ where
  unfoldable pub header_key : TableType HeaderKey
  header_key = tuple_key2 u64_key h256_type

  unfoldable pub account_hist_key : TableType AccountHistKey
  account_hist_key = tuple_key2 address_type u64_key

  unfoldable pub storage_key : TableType StorageKey
  storage_key = tuple_key2 address_type u64_key

  unfoldable pub storage_cs_key : TableType StorageCsKey
  storage_cs_key = tuple_key2 u64_key storage_key

  unfoldable pub storage_hist_key : TableType StorageHistKey
  storage_hist_key = tuple_key3 address_type h256_type u64_key

  unfoldable pub plain_code_key : TableType PlainCodeKey
  plain_code_key = tuple_key2 address_type u64_key

  unfoldable pub contract_code_key : TableType ContractCodeKey
  contract_code_key = tuple_key2 h256_type u64_key

  unfoldable pub hash_storage_key : TableType HashStorageKey
  hash_storage_key = tuple_key3 h256_type u64_key h256_type

  unfoldable pub logs_key : TableType LogsKey
  logs_key = tuple_key2 u64_key (uint_type 4)

unfoldable pub storage_cs_val :
    ⦃u : UintCrate⦄ ⦃f : FixedHashCrate⦄ ⦃v : ArrayVecCrate⦄ → TableType StorageCsVal
storage_cs_val = tuple_key2 h256_type u256_type

-- `impl From<(B, A, I)> for StorageCsKey`
abbrev pub to_storage_cs_key : BlockNumber × Address × Incarnation → StorageCsKey
to_storage_cs_key (b, a, i) = (b, (a, i))

-- `BurntKey`: the text "burnt" before the block number.
unfoldable pub encode_burnt_key : ⦃v : ArrayVecCrate⦄ → BlockNumber → Result (List ℕ)
encode_burnt_key n = do
  out ← extend (8 + 5) [] (b'b' ∷ b'u' ∷ b'r' ∷ b'n' ∷ b't' ∷ [])
  e ← u64_key.encode n
  extend (8 + 5) out e

module _ ⦃k : KeccakCrate⦄ where
  -- erigon/utils/mod.rs
  unfoldable pub keccak256 : List ℕ → List ℕ
  keccak256 bytes = k.finalize (k.update k.v256 bytes) (replicate 32 0)

  unfoldable pub make_contract_code_key : Address → Incarnation → ContractCodeKey
  make_contract_code_key who inc = (keccak256 who, inc)

  unfoldable pub make_hash_storage_key : Address → Incarnation → H256 → HashStorageKey
  make_hash_storage_key who inc key = (keccak256 who, inc, keccak256 key)
