-- ===== src/Models/Transaction/Codec/Laws.antt =====
-- Which transactions decode from what.
use erigon_db.Prelude.{
  ℕ, ◌+◌, ◌<◌, ◌^◌, inr, ◌≤◌, ◌≡◌, ◌≢◌, refl, ◌∙◌, append-nil, le→leb, true, false, List, [], ◌∷◌,
  ◌++◌, length, leb, arith, length-append, append_assoc,
}
use erigon_db.Outcome.{custom, ok, err, panic, map_ok}
use erigon_db.Crates.{BufCrate, RlpCrate, IsRlp, Header}
use erigon_db.Models.Transaction.Defs.{
  LegacyTx, AccessListTx, DynamicFeeTx, legacy, access_list, dynamic_fee, access_list_type,
  dynamic_fee_type,
}
use erigon_db.Models.Transaction.Codec.{TxItems, decode_transaction, decode_typed, decode_envelope}

-- The EIP 2718 form in which Erigon stores typed transactions: a string of the type and the payload.
abbrev pub envelope : ⦃r : RlpCrate⦄ → ℕ → List ℕ → List ℕ
envelope ⦃r⦄ ty payload =
    r.encode_header (record { list = false; payload_length = 1 + length payload }) ++ (ty ∷ payload)

module _ ⦃b : BufCrate⦄ ⦃r : RlpCrate⦄ ⦃t : TxItems⦄ where
  -- A slice whose first byte is below 0xc0 is read as an envelope, any other as a legacy transaction.
  pub decode_list :
      (first : ℕ) (bs : List ℕ)
      → leb 0xc0 first ≡ true
      → decode_transaction (first ∷ bs)
        ≡ map_ok (λ p. (legacy p.0, p.1)) (t.legacy_item.decode (first ∷ bs))
  unfolding decode_transaction
  decode_list first bs h = rw h

  decode_in_envelope :
      (ty : ℕ) (payload rest : List ℕ)
      → 0 < length payload
      → 1 + length payload < 2 ^ 64
      → decode_transaction (envelope ty payload ++ rest) ≡ decode_typed ty (payload ++ rest)
  unfolding decode_transaction decode_envelope
  decode_in_envelope ty payload rest some_bytes small =
      let header : Header = record { list = false; payload_length = 1 + length payload } in
      let (x, bs, e, string) = r.encode_header_first header in
      let d : r.decode_header (x ∷ bs ++ (ty ∷ payload ++ rest))
          ≡ ok (header, ty ∷ payload ++ rest) =
        rw e at (
          r.decode-encode_header header (ty ∷ payload ++ rest) room small
            (inr (λ one. omega arith))) in
      rw (
        append_assoc (r.encode_header header) (ty ∷ payload) rest,
        e,
        string,
        d,
        b.get_u8-cons ty (payload ++ rest),
      )
    where
      room : 1 + length payload ≤ length (ty ∷ payload ++ rest)
      room = rw length-append (omega arith)

  -- A list, whose first byte is at least 0xc0, decodes to the legacy transaction that the derived
  -- decoder of `LegacyTx` reads from it.
  pub list_is_legacy :
      (first : ℕ) (bs rest : List ℕ) (tx : LegacyTx)
      → 0xc0 ≤ first
      → t.legacy_item.decode (first ∷ bs) ≡ ok (tx, rest)
      → decode_transaction (first ∷ bs) ≡ ok (legacy tx, rest)
  list_is_legacy first bs rest tx h d = rw (decode_list first bs (le→leb 0xc0 first h), d)

  -- If the codec of access list transactions round trips, such a transaction decodes from the envelope
  -- of its type and its encoding, whatever follows, where the encoding is not empty and is short enough
  -- for a length of 64 bits.
  pub access_list_round_trip :
      {V : AccessListTx → Type 0}
      → IsRlp t.access_list_item V
      → (tx : AccessListTx) (rest : List ℕ) → V tx
      → 0 < length (t.access_list_item.encode tx)
      → 1 + length (t.access_list_item.encode tx) < 2 ^ 64
      → decode_transaction (envelope access_list_type (t.access_list_item.encode tx) ++ rest)
        ≡ ok (access_list tx, rest)
  access_list_round_trip rlp_law tx rest v some_bytes small =
      decode_in_envelope access_list_type (t.access_list_item.encode tx) rest some_bytes small
      ∙ (unfold decode_typed in rw (rlp_law.decode-encode tx rest v))

  -- If the codec of dynamic fee transactions round trips, such a transaction decodes from the envelope
  -- of its type and its encoding, whatever follows, where the encoding is not empty and is short enough
  -- for a length of 64 bits.
  pub dynamic_fee_round_trip :
      {V : DynamicFeeTx → Type 0}
      → IsRlp t.dynamic_fee_item V
      → (tx : DynamicFeeTx) (rest : List ℕ) → V tx
      → 0 < length (t.dynamic_fee_item.encode tx)
      → 1 + length (t.dynamic_fee_item.encode tx) < 2 ^ 64
      → decode_transaction (envelope dynamic_fee_type (t.dynamic_fee_item.encode tx) ++ rest)
        ≡ ok (dynamic_fee tx, rest)
  dynamic_fee_round_trip rlp_law tx rest v some_bytes small =
      decode_in_envelope dynamic_fee_type (t.dynamic_fee_item.encode tx) rest some_bytes small
      ∙ (unfold decode_typed in rw (rlp_law.decode-encode tx rest v))

  -- An envelope of another type is refused.
  pub unknown_type :
      (ty : ℕ) (payload rest : List ℕ)
      → ty ≢ 1
      → ty ≢ 2
      → 0 < length payload
      → 1 + length payload < 2 ^ 64
      → decode_transaction (envelope ty payload ++ rest) ≡ err (custom "Unknown transaction type")
  unknown_type ty payload rest h1 h2 some_bytes small =
      decode_in_envelope ty payload rest some_bytes small ∙ (unfold decode_typed in ground arith)

  -- No bytes at all, and an envelope with nothing in it, are panics.
  pub decode_transaction_panics :
      (decode_transaction [] ≡ panic)
      × (decode_transaction (r.encode_header (record { list = false; payload_length = 0 })) ≡ panic)
  unfolding decode_transaction decode_envelope
  decode_transaction_panics = (refl, nothing_inside)
    where
      nothing_inside :
          decode_transaction (r.encode_header (record { list = false; payload_length = 0 })) ≡ panic
      nothing_inside =
          let header : Header = record { list = false; payload_length = 0 } in
          let (x, bs, e, string) = r.encode_header_first header in
          let d : r.decode_header (r.encode_header header) ≡ ok (header, []) = rw append-nil at (
            r.decode-encode_header header [] (omega arith) (omega arith)
              (inr (λ one. omega arith))) in
          let d' : r.decode_header (x ∷ bs) ≡ ok (header, []) = rw e at d in
          rw (e, string, d', b.get_u8-nil)
