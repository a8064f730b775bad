-- ===== src/Models/Transaction/Defs/Hash.antt =====
-- The signing hash of a transaction.
use erigon_db.Prelude.{arith, ℕ, ◌+◌, ◌*◌, ◌<◌, ◌≡◌, Option, none, some, List, ◌∷◌}
use erigon_db.Outcome.{Result, ok, ◌>>=◌}
use erigon_db.Crates.{UintCrate, KeccakCrate, H256, u256_mod}
use erigon_db.Models.Keys.{keccak256}
use erigon_db.Models.Transaction.ChainId.{derive_chain_id, derive_packed}
use erigon_db.Models.Transaction.Defs.{
  LegacyTx, AccessListTx, DynamicFeeTx, Transaction, legacy, access_list, dynamic_fee,
  access_list_type, dynamic_fee_type, LegacyAsHash, AccessListAsHash, DynamicFeeAsHash,
  HashEncoders,
}

abbrev pub unsigned_legacy : LegacyTx → LegacyAsHash
unsigned_legacy tx = record {
  nonce = tx.nonce;
  gas_price = tx.gas_price;
  gas = tx.gas;
  to = tx.to;
  value = tx.value;
  input = tx.input;
}

abbrev pub unsigned_access_list : AccessListTx → AccessListAsHash
unsigned_access_list tx = record {
  chain_id = tx.chain_id;
  nonce = tx.nonce;
  gas_price = tx.gas_price;
  gas = tx.gas;
  to = tx.to;
  value = tx.value;
  input = tx.input;
  access_list = tx.access_list;
}

abbrev pub unsigned_dynamic_fee : DynamicFeeTx → DynamicFeeAsHash
unsigned_dynamic_fee tx = record {
  chain_id = tx.chain_id;
  nonce = tx.nonce;
  tip = tx.tip;
  fee_cap = tx.fee_cap;
  gas = tx.gas;
  to = tx.to;
  value = tx.value;
  input = tx.input;
  access_list = tx.access_list;
}

module _ ⦃u : UintCrate⦄ ⦃k : KeccakCrate⦄ ⦃e : HashEncoders⦄ where
  -- With a chain id the hashed list has that and two zeros at its end.
  unfoldable pub legacy_preimage : LegacyTx → Option ℕ → List ℕ
  legacy_preimage tx none = e.encode_legacy (unsigned_legacy tx)
  legacy_preimage tx (some chain_id) =
      e.encode_with_chain_id
        (record { unsigned = unsigned_legacy tx; chain_id = chain_id; pad1 = 0; pad2 = 0 })

  unfoldable pub hash_legacy : LegacyTx → Result H256
  unfolding legacy_preimage
  hash_legacy tx = do chain_id ← derive_chain_id tx.v; ok (keccak256 (legacy_preimage tx chain_id))

  unfoldable pub hash_access_list : AccessListTx → H256
  hash_access_list tx =
      keccak256 (access_list_type ∷ e.encode_access_list (unsigned_access_list tx))

  unfoldable pub hash_dynamic_fee : DynamicFeeTx → H256
  hash_dynamic_fee tx =
      keccak256 (dynamic_fee_type ∷ e.encode_dynamic_fee (unsigned_dynamic_fee tx))

  unfoldable pub hash : Transaction → Result H256
  unfolding hash_legacy hash_access_list hash_dynamic_fee
  hash (legacy tx) = hash_legacy tx
  hash (access_list tx) = ok (hash_access_list tx)
  hash (dynamic_fee tx) = ok (hash_dynamic_fee tx)

  -- Two signatures of one transaction for one chain hash alike: the parity in `v`, `r` and `s` do not
  -- enter the hash, and it is no panic.
  pub hash_legacy_unsigned :
      (tx : LegacyTx) (c y y' r s r' s' : ℕ)
      → y < 2
      → y' < 2
      → c * 2 + 36 < u256_mod
      → (hash (legacy (record tx { v = c * 2 + 35 + y; r = r; s = s }))
          ≡ ok (keccak256 (legacy_preimage tx (some c))))
        × (hash (legacy (record tx { v = c * 2 + 35 + y'; r = r'; s = s' }))
            ≡ hash (legacy (record tx { v = c * 2 + 35 + y; r = r; s = s })))
  unfolding hash
  hash_legacy_unsigned tx c y y' r s r' s' hy hy' h =
      let p : derive_chain_id (c * 2 + 35 + y) ≡ ok (some c) =
        (derive_packed c y hy (omega arith)).0 in
      let q : derive_chain_id (c * 2 + 35 + y') ≡ ok (some c) =
        (derive_packed c y' hy' (omega arith)).0 in
      (rw p, rw (p, q))
