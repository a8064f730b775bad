-- ===== src/Models/Block/RoundTrip.antt =====
-- A block header decodes from its encoding.
use erigon_db.Prelude.{
  ℕ, ◌+◌, ◌≤◌, ◌<◌, ◌≡◌, refl, inl, ap, ◌∙◌, Option, none, some, List, ◌++◌, length, arith,
  length-append, append_assoc, ltb, lt→ltb, ltb-eq-false, le→leb, true, false, ◌^◌,
}
use erigon_db.Outcome.{DecodeError, unexpected_string, ok, err, Profile, sub_usize}
use erigon_db.Crates.{RlpCrate}
use erigon_db.Models.Block.{
  BlockHeader, rlp_header, encode_fee, encode_fields, encode_block_header, decode_fee,
  decode_fields, decode_block_header,
}
use erigon_db.Models.Block.Length.{IsBlockHeader, IsFee, payload_length_lem}

module _ ⦃r : RlpCrate⦄ where
  -- The base fee is read exactly if it was written.
  decode_fee-encode_fee :
      (o : Option ℕ) (more : List ℕ)
      → IsFee o
      → decode_fee (length more) (encode_fee o ++ more) ≡ ok (o, more)
  unfolding decode_fee
  decode_fee-encode_fee none more v = rw (ltb-eq-false (length more) (length more) (omega arith))
  decode_fee-encode_fee (some n) more v = rw (longer, r.u256-IsRlp.decode-encode n more v)
    where
      longer : ltb (length more) (length (r.u256.encode n ++ more)) ≡ true
      longer = lt→ltb _ _ (rw length-append (omega (arith, r.length-u256_pos n)))

  decode_fields-encode_fields :
      (h : BlockHeader) (more : List ℕ)
      → IsBlockHeader h
      → decode_fields (length more) (encode_fields h ++ more) ≡ ok (record h { seal = none }, more)
  unfolding decode_fields encode_fields
  decode_fields-encode_fields h more v = simp append_assoc (
      rw (
        r.h256-IsRlp.decode-encode h.parent_hash _ v.parent_hash,
        r.h256-IsRlp.decode-encode h.uncle_hash _ v.uncle_hash,
        r.address-IsRlp.decode-encode h.coinbase _ v.coinbase,
        r.h256-IsRlp.decode-encode h.root _ v.root,
        r.h256-IsRlp.decode-encode h.tx_hash _ v.tx_hash,
        r.h256-IsRlp.decode-encode h.receipts_hash _ v.receipts_hash,
        r.bloom-IsRlp.decode-encode h.bloom _ v.bloom,
        r.u256-IsRlp.decode-encode h.difficulty _ v.difficulty,
        r.u256-IsRlp.decode-encode h.number _ v.number,
        r.u64-IsRlp.decode-encode h.gas_limit _ v.gas_limit,
        r.u64-IsRlp.decode-encode h.gas_used _ v.gas_used,
        r.u64-IsRlp.decode-encode h.time _ v.time,
        r.bytes-IsRlp.decode-encode h.extra _ v.extra,
        r.h256-IsRlp.decode-encode h.mix_digest _ v.mix_digest,
        r.h64-IsRlp.decode-encode h.nonce _ v.nonce,
        decode_fee-encode_fee h.base_fee more v.base_fee,
      ))

module _ ⦃r : RlpCrate⦄ ⦃p : Profile⦄ where
  -- A header in range with fields of less than 2 ^ 64 bytes decodes from its encoding, whatever follows, with or
  -- without a base fee, and without its seal, which is not stored.
  pub block_header_round_trip :
      (h : BlockHeader) (more : List ℕ)
      → IsBlockHeader h
      → (rlp_header h).payload_length < 2 ^ 64
      → decode_block_header (encode_block_header h ++ more) ≡ ok (record h { seal = none }, more)
  unfolding decode_block_header encode_block_header
  block_header_round_trip h more v small =
      rw
        (
          append_assoc (r.encode_header (rlp_header h)) (encode_fields h) more,
          r.decode-encode_header (rlp_header h) (encode_fields h ++ more) room small (inl is_list),
          is_list,
          left_behind,
        )
        (decode_fields-encode_fields h more v)
    where
      n : length (encode_fields h ++ more) ≡ (rlp_header h).payload_length + length more
      n = length-append (encode_fields h) more ∙ omega (arith, payload_length_lem h v)

      room : (rlp_header h).payload_length ≤ length (encode_fields h ++ more)
      room = omega (arith, n)

      is_list : (rlp_header h).list ≡ true
      is_list = unfold rlp_header in refl

      left_behind :
          sub_usize {E = DecodeError}
            (length (encode_fields h ++ more))
            (rlp_header h).payload_length
          ≡ ok (length more)
      left_behind = unfold sub_usize in rw (le→leb _ _ room) (ap ok (omega (arith, n)))

  -- A header that is a string, not a list, is refused.
  pub decode_block_header_string :
      (buf rest : List ℕ) (n : ℕ)
      → r.decode_header buf ≡ ok (record { list = false; payload_length = n }, rest)
      → decode_block_header buf ≡ err unexpected_string
  unfolding decode_block_header
  decode_block_header_string buf rest n e = rw e
