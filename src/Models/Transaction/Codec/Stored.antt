-- ===== src/Models/Transaction/Codec/Stored.antt =====
-- Transactions in the form in which Erigon stores them, and in the form that `encode` writes.
use erigon_db.Prelude.{ℕ, ◌+◌, ◌^◌, ◌<◌, ◌≡◌, refl, ◌∙◌, true, List, ◌++◌, length, arith}
use erigon_db.Outcome.{ok, map_ok}
use erigon_db.Crates.{BufCrate, FixedHashCrate, RlpCrate}
use erigon_db.Crates.Derive.{VecCodec, Derives-IsRlp, Derives-first, list_of}
use erigon_db.Models.Transaction.Defs.{
  LegacyTx, Transaction, legacy, access_list, dynamic_fee, access_list_type, dynamic_fee_type,
}
use erigon_db.Models.Transaction.Codec.{TxItems, decode_transaction}
use erigon_db.Models.Transaction.Codec.Laws.{
  envelope, decode_list, access_list_round_trip, dynamic_fee_round_trip,
}
use erigon_db.Models.Transaction.Codec.Fields.{
  legacy_fields_with, legacy_fields, access_list_fields, dynamic_fee_fields, IsLegacyTx,
  IsAccessListTx, IsDynamicFeeTx, DerivesTxs, IsAccesses,
}
use erigon_db.Models.Transaction.Codec.Derived.{
  legacy_fields_with-IsRlp, access_list_fields-IsRlp, dynamic_fee_fields-IsRlp, access_vec-IsRlp,
}
use erigon_db.Models.Block.Difficulty.{u256_wrapper_item}

module _ ⦃r : RlpCrate⦄ ⦃b : BufCrate⦄ ⦃f : FixedHashCrate⦄ ⦃c : VecCodec⦄ ⦃t : TxItems⦄ where
  -- A legacy transaction is the list of its nine fields, `v` a number; the others are in an envelope.
  abbrev pub stored : Transaction → List ℕ
  stored (legacy tx) = list_of ((legacy_fields_with r.u256).encode tx)
  stored (access_list tx) = envelope access_list_type (t.access_list_item.encode tx)
  stored (dynamic_fee tx) = envelope dynamic_fee_type (t.dynamic_fee_item.encode tx)

  abbrev pub IsTransaction : Transaction → Type 0
  IsTransaction (legacy tx) =
      IsLegacyTx tx × length ((legacy_fields_with r.u256).encode tx) < 2 ^ 64
  IsTransaction (access_list tx) =
      IsAccessListTx IsAccesses tx
      × (access_list_fields (c.vec t.tuple_item)).rlp_length tx < 2 ^ 64
      × 1 + length (t.access_list_item.encode tx) < 2 ^ 64
  IsTransaction (dynamic_fee tx) =
      IsDynamicFeeTx IsAccesses tx
      × (dynamic_fee_fields (c.vec t.tuple_item)).rlp_length tx < 2 ^ 64
      × 1 + length (t.dynamic_fee_item.encode tx) < 2 ^ 64

  pub decode_list_of :
      (payload rest : List ℕ)
      → decode_transaction (list_of payload ++ rest)
        ≡ map_ok (λ p. (legacy p.0, p.1)) (t.legacy_item.decode (list_of payload ++ rest))
  decode_list_of payload rest =
      let (x, bs, e, list) =
        r.encode_header_first (record { list = true; payload_length = length payload }) in
      rw e (decode_list x (bs ++ payload ++ rest) list)

  module _ (laws : DerivesTxs) where
    read_legacy :
        (tx : LegacyTx) (rest : List ℕ)
        → IsTransaction (legacy tx)
        → t.legacy_item.decode (stored (legacy tx) ++ rest) ≡ ok (tx, rest)
    read_legacy tx rest v =
        laws.legacy.decode_lem ((legacy_fields_with r.u256).encode tx) rest tx v.1 (λ more.
          unfold legacy_fields legacy_fields_with u256_wrapper_item in
          (legacy_fields_with-IsRlp r.u256-IsRlp).decode-encode tx more v.0)

    -- A transaction in range, of any of the three kinds, decodes from the form in which Erigon stores
    -- it, whatever follows, if the derived codecs write and read the fields in their order.
    pub stored_round_trip :
        (tx : Transaction) (rest : List ℕ)
        → IsTransaction tx
        → decode_transaction (stored tx ++ rest) ≡ ok (tx, rest)
    stored_round_trip (legacy tx) rest v =
        decode_list_of ((legacy_fields_with r.u256).encode tx) rest
        ∙ (rw (read_legacy tx rest v) refl)
    stored_round_trip (access_list tx) rest v =
        let (x, bs, e, list) = Derives-first laws.access_list tx in
        access_list_round_trip
          (Derives-IsRlp laws.access_list (access_list_fields-IsRlp (access_vec-IsRlp laws))) tx
          rest (v.0, v.1) (rw e (omega arith)) v.2
    stored_round_trip (dynamic_fee tx) rest v =
        let (x, bs, e, list) = Derives-first laws.dynamic_fee tx in
        dynamic_fee_round_trip
          (Derives-IsRlp laws.dynamic_fee (dynamic_fee_fields-IsRlp (access_vec-IsRlp laws))) tx
          rest (v.0, v.1) (rw e (omega arith)) v.2
