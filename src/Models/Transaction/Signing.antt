-- ===== src/Models/Transaction/Signing.antt =====
-- What the signing hash of a transaction covers, and the fields of the structs that are hashed.
pub mod RoundTrip
pub mod Binds
use erigon_db.Prelude.{ℕ, ◌≡◌, refl, Option, none, some, List, ◌∷◌, ◌++◌}
use erigon_db.Outcome.{Result, Outcome, ok, err, panic, ◌>>=◌, map_ok}
use erigon_db.Crates.{UintCrate, KeccakCrate, BufCrate, FixedHashCrate, RlpCrate, RlpItem, H256}
use erigon_db.Crates.Derive.{pair, convert, VecCodec, DerivesEncoder}
use erigon_db.Models.Keys.{keccak256}
use erigon_db.Models.Transaction.Action.{TxAction, action_item}
use erigon_db.Models.Transaction.ChainId.{derive_chain_id}
use erigon_db.Models.Transaction.Defs.{
  AccessList, LegacyTx, AccessListTx, DynamicFeeTx, Transaction, legacy, access_list, dynamic_fee,
  access_list_type, dynamic_fee_type, LegacyAsHash, LegacyAsHashWithChainId, AccessListAsHash,
  DynamicFeeAsHash, HashEncoders,
}
use erigon_db.Models.Transaction.Defs.Hash.{
  unsigned_legacy, unsigned_access_list, unsigned_dynamic_fee, legacy_preimage, hash_legacy,
  hash_access_list, hash_dynamic_fee, hash,
}
use erigon_db.Models.Transaction.Codec.{TxItems}

-- The part of a transaction that is signed.
pub data Content : Type 0 where
  legacy_content : LegacyAsHash → Option ℕ → Content
  access_list_content : AccessListAsHash → Content
  dynamic_fee_content : DynamicFeeAsHash → Content

unfoldable pub content : ⦃u : UintCrate⦄ → Transaction → Result Content
content (legacy tx) = do
  chain_id ← derive_chain_id tx.v
  ok (legacy_content (unsigned_legacy tx) chain_id)
content (access_list tx) = ok (access_list_content (unsigned_access_list tx))
content (dynamic_fee tx) = ok (dynamic_fee_content (unsigned_dynamic_fee tx))

-- The struct that is hashed with a chain id.
abbrev pub with_chain_id : LegacyAsHash → ℕ → LegacyAsHashWithChainId
with_chain_id unsigned chain_id = record {
  unsigned = unsigned;
  chain_id = chain_id;
  pad1 = 0;
  pad2 = 0;
}

module _ ⦃e : HashEncoders⦄ where
  -- The bytes that are hashed.
  unfoldable pub sign_bytes : Content → List ℕ
  sign_bytes (legacy_content unsigned none) = e.encode_legacy unsigned
  sign_bytes (legacy_content unsigned (some chain_id)) =
      e.encode_with_chain_id (with_chain_id unsigned chain_id)
  sign_bytes (access_list_content unsigned) = access_list_type ∷ e.encode_access_list unsigned
  sign_bytes (dynamic_fee_content unsigned) = dynamic_fee_type ∷ e.encode_dynamic_fee unsigned

  pub hash-content :
      ⦃u : UintCrate⦄ ⦃k : KeccakCrate⦄ (tx : Transaction)
      → hash tx ≡ map_ok (λ x. keccak256 (sign_bytes x)) (content tx)
  unfolding content hash hash_legacy hash_access_list hash_dynamic_fee legacy_preimage sign_bytes
  hash-content (legacy tx) = go (derive_chain_id tx.v) refl
    where
      go :
          (o : Result (Option ℕ))
          → derive_chain_id tx.v ≡ o
          → (do chain_id ← o; ok (keccak256 (legacy_preimage tx chain_id)))
            ≡ map_ok
                (λ x. keccak256 (sign_bytes x))
                (do chain_id ← o; ok (legacy_content (unsigned_legacy tx) chain_id))
      go (ok none) h = refl
      go (ok (some n)) h = refl
      go (err x) h = refl
      go panic h = refl
  hash-content (access_list tx) = refl
  hash-content (dynamic_fee tx) = refl

module _ ⦃r : RlpCrate⦄ ⦃b : BufCrate⦄ ⦃f : FixedHashCrate⦄ where
  unfoldable pub legacy_hash_fields : RlpItem LegacyAsHash
  legacy_hash_fields =
      convert
        (λ p. record {
          nonce = p.0;
          gas_price = p.1.0;
          gas = p.1.1.0;
          to = p.1.1.1.0;
          value = p.1.1.1.1.0;
          input = p.1.1.1.1.1;
        })
        (λ a. (a.nonce, (a.gas_price, (a.gas, (a.to, (a.value, a.input))))))
        (pair r.u64 (pair r.u256 (pair r.u64 (pair action_item (pair r.u256 r.bytes)))))

  unfoldable pub chain_id_hash_fields : RlpItem LegacyAsHashWithChainId
  unfolding legacy_hash_fields
  chain_id_hash_fields =
      convert (λ p. record { unsigned = p.0; chain_id = p.1.0; pad1 = p.1.1.0; pad2 = p.1.1.1 })
        (λ a. (a.unsigned, (a.chain_id, (a.pad1, a.pad2))))
        (pair legacy_hash_fields (pair r.u256 (pair r.u8 r.u8)))

  unfoldable pub access_list_hash_fields : RlpItem AccessList → RlpItem AccessListAsHash
  access_list_hash_fields accesses =
      convert
        (λ p. record {
          chain_id = p.0;
          nonce = p.1.0;
          gas_price = p.1.1.0;
          gas = p.1.1.1.0;
          to = p.1.1.1.1.0;
          value = p.1.1.1.1.1.0;
          input = p.1.1.1.1.1.1.0;
          access_list = p.1.1.1.1.1.1.1;
        })
        (λ a. (
          a.chain_id,
          (a.nonce, (a.gas_price, (a.gas, (a.to, (a.value, (a.input, a.access_list)))))),
        ))
        (pair r.u256 (
          pair r.u64
            (pair r.u256 (pair r.u64 (pair action_item (pair r.u256 (pair r.bytes accesses)))))))

  unfoldable pub dynamic_fee_hash_fields : RlpItem AccessList → RlpItem DynamicFeeAsHash
  dynamic_fee_hash_fields accesses =
      convert
        (λ p. record {
          chain_id = p.0;
          nonce = p.1.0;
          tip = p.1.1.0;
          fee_cap = p.1.1.1.0;
          gas = p.1.1.1.1.0;
          to = p.1.1.1.1.1.0;
          value = p.1.1.1.1.1.1.0;
          input = p.1.1.1.1.1.1.1.0;
          access_list = p.1.1.1.1.1.1.1.1;
        })
        (λ a. (
          a.chain_id,
          (a.nonce, (a.tip, (a.fee_cap, (a.gas, (a.to, (a.value, (a.input, a.access_list))))))),
        ))
        (pair r.u256 (
          pair r.u64 (
            pair r.u256
              (pair r.u256 (pair r.u64 (pair action_item (pair r.u256 (pair r.bytes accesses))))))))

  -- What the derive macro promises of the encoders.
  pub record HashLaws ⦃c : VecCodec⦄ ⦃t : TxItems⦄ ⦃e : HashEncoders⦄ : Type 0 where
    pub legacy : DerivesEncoder e.encode_legacy legacy_hash_fields
    pub with_chain_id : DerivesEncoder e.encode_with_chain_id chain_id_hash_fields
    pub access_list :
        DerivesEncoder e.encode_access_list (access_list_hash_fields (c.vec t.tuple_item))
    pub dynamic_fee :
        DerivesEncoder e.encode_dynamic_fee (dynamic_fee_hash_fields (c.vec t.tuple_item))
