-- ===== src/Models/Transaction/Codec/Mismatch.antt =====
-- What `encode` writes for a transaction, and that it is not read back.
use erigon_db.Prelude.{ℕ, ◌^◌, ◌<◌, ◌≡◌, refl, ◌∙◌, true, List, ◌++◌, length, arith, length-append}
use erigon_db.Outcome.{DecodeError, err}
use erigon_db.Crates.{BufCrate, FixedHashCrate, RlpCrate, RlpItem}
use erigon_db.Crates.Derive.{VecCodec, Derives}
use erigon_db.Crates.Strings.{StringLaws, Fails, Derives-Fails}
use erigon_db.Models.Transaction.Action.Laws.{action_item-IsRlp}
use erigon_db.Models.Transaction.Defs.{LegacyTx, Transaction, legacy, access_list, dynamic_fee}
use erigon_db.Models.Transaction.Codec.{TxItems, decode_transaction, encode_transaction}
use erigon_db.Models.Transaction.Codec.Fields.{
  legacy_fields_with, legacy_fields, access_list_fields, dynamic_fee_fields, IsLegacyTx,
  IsAccessListTx, IsDynamicFeeTx, IsAccesses, DerivesTxs,
}
use erigon_db.Models.Transaction.Codec.Derived.{
  access_list_fields-IsRlp, dynamic_fee_fields-IsRlp, access_vec-IsRlp, tuple_item-IsRlp,
  tuple_first,
}
use erigon_db.Models.Transaction.Codec.Stored.{decode_list_of}
use erigon_db.Models.Transaction.Codec.Refused.{
  legacy-Fails, access_list-Fails, dynamic_fee-Fails, vec-Fails,
}
use erigon_db.Models.Block.Difficulty.{u256_wrapper_item}

module _ ⦃r : RlpCrate⦄ ⦃b : BufCrate⦄ ⦃f : FixedHashCrate⦄ where
  length-legacy_fields :
      (tx : LegacyTx)
      → IsLegacyTx tx
      → legacy_fields.rlp_length tx ≡ length (legacy_fields.encode tx)
  unfolding legacy_fields legacy_fields_with u256_wrapper_item
  length-legacy_fields tx v = simp length-append (
      omega (
        arith,
        r.u64-IsRlp.rlp_length_lem tx.nonce v.nonce,
        r.u256-IsRlp.rlp_length_lem tx.gas_price v.gas_price,
        r.u64-IsRlp.rlp_length_lem tx.gas v.gas,
        action_item-IsRlp.rlp_length_lem tx.to v.to,
        r.u256-IsRlp.rlp_length_lem tx.value v.value,
        r.bytes-IsRlp.rlp_length_lem tx.input v.input,
        r.length-encode_header (record { list = true; payload_length = r.u256.rlp_length tx.v }),
        r.u256-IsRlp.rlp_length_lem tx.v v.v,
        r.u256-IsRlp.rlp_length_lem tx.r v.r,
        r.u256-IsRlp.rlp_length_lem tx.s v.s,
      ))

module _ ⦃r : RlpCrate⦄ ⦃b : BufCrate⦄ ⦃f : FixedHashCrate⦄ ⦃c : VecCodec⦄ ⦃t : TxItems⦄ where
  -- The ranges of the fields, in a list of less than 2 ^ 64 bytes.
  abbrev pub IsEncodable : Transaction → Type 0
  IsEncodable (legacy tx) = IsLegacyTx tx × legacy_fields.rlp_length tx < 2 ^ 64
  IsEncodable (access_list tx) =
      IsAccessListTx IsAccesses tx
      × (access_list_fields (c.vec t.tuple_item)).rlp_length tx < 2 ^ 64
  IsEncodable (dynamic_fee tx) =
      IsDynamicFeeTx IsAccesses tx
      × (dynamic_fee_fields (c.vec t.tuple_item)).rlp_length tx < 2 ^ 64

  module _ (laws : DerivesTxs) where
    refused :
        {A : Type 0} {item fields : RlpItem A}
        → Derives item fields
        → (a : A) (rest : List ℕ) → fields.rlp_length a ≡ length (fields.encode a)
        → fields.rlp_length a < 2 ^ 64
        → Fails legacy_fields (fields.encode a)
        → (e : DecodeError) × (decode_transaction (item.encode a ++ rest) ≡ err e)
    refused {fields = fields} d a rest n small failed =
        let g = Derives-Fails laws.legacy (fields.encode a) (rw (← n) small) failed in
        (
          g.error,
          rw (d.encode_lem a, n) (decode_list_of (fields.encode a) rest ∙ (rw (g.fails rest) refl)),
        )

    -- No transaction in range decodes from what `encode` writes, whatever follows: the decoder reads a
    -- list as a legacy transaction, in which `encode` writes `v` as a list too, and in which the access
    -- list of a typed transaction stands where the decoder reads a number.
    pub encoding_not_read_back :
        ⦃w : StringLaws⦄ (tx : Transaction) (rest : List ℕ)
        → IsEncodable tx
        → (e : DecodeError) × (decode_transaction (encode_transaction tx ++ rest) ≡ err e)
    unfolding encode_transaction
    encoding_not_read_back (legacy tx) rest v =
        refused laws.legacy tx rest (length-legacy_fields tx v.0) v.1 (legacy-Fails tx v.0)
    encoding_not_read_back (access_list tx) rest v =
        refused laws.access_list tx rest
          ((access_list_fields-IsRlp (access_vec-IsRlp laws)).rlp_length_lem tx v.0) v.1
          (access_list-Fails (c.vec t.tuple_item)
            (vec-Fails (tuple_item-IsRlp laws) (tuple_first laws)) tx v.0)
    encoding_not_read_back (dynamic_fee tx) rest v =
        refused laws.dynamic_fee tx rest
          ((dynamic_fee_fields-IsRlp (access_vec-IsRlp laws)).rlp_length_lem tx v.0) v.1
          (dynamic_fee-Fails (c.vec t.tuple_item)
            (vec-Fails (tuple_item-IsRlp laws) (tuple_first laws)) tx v.0)
