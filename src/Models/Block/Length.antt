-- ===== src/Models/Block/Length.antt =====
-- The length in the list header is that of the fields.
use erigon_db.Prelude.{
  ℕ, ◌^◌, ◌<◌, ◌≡◌, refl, sym, Option, none, some, length, arith, length-append,
}
use erigon_db.Crates.{RlpCrate, IsH256, IsAddress}
use erigon_db.Models.Block.{
  BlockHeader, rlp_header, fee_length, encode_fee, encode_fields, encode_block_header,
  block_header_length,
}

abbrev pub IsFee : Option ℕ → Type 0
IsFee none = Unit {0}
IsFee (some n) = n < 256 ^ 32

pub record IsBlockHeader (h : BlockHeader) : Type 0 where
  pub parent_hash : IsH256 h.parent_hash
  pub uncle_hash : IsH256 h.uncle_hash
  pub coinbase : IsAddress h.coinbase
  pub root : IsH256 h.root
  pub tx_hash : IsH256 h.tx_hash
  pub receipts_hash : IsH256 h.receipts_hash
  pub bloom : length h.bloom ≡ 256
  pub difficulty : h.difficulty < 256 ^ 32
  pub number : h.number < 256 ^ 32
  pub gas_limit : h.gas_limit < 256 ^ 8
  pub gas_used : h.gas_used < 256 ^ 8
  pub time : h.time < 256 ^ 8
  pub extra : length h.extra < 2 ^ 32
  pub mix_digest : IsH256 h.mix_digest
  pub nonce : length h.nonce ≡ 8
  pub base_fee : IsFee h.base_fee

module _ ⦃r : RlpCrate⦄ where
  length-encode_fee : (o : Option ℕ) → IsFee o → length (encode_fee o) ≡ fee_length o
  length-encode_fee none v = refl
  length-encode_fee (some n) v = sym (r.u256-IsRlp.rlp_length_lem n v)

  -- The payload length that `rlp_header` adds up is the length of what `encode` writes behind it.
  pub payload_length_lem :
      (h : BlockHeader) → IsBlockHeader h → length (encode_fields h) ≡ (rlp_header h).payload_length
  unfolding encode_fields rlp_header
  payload_length_lem h v = simp length-append (
      omega (
        arith,
        r.length-h256 h.parent_hash v.parent_hash,
        r.length-h256 h.uncle_hash v.uncle_hash,
        r.length-address h.coinbase v.coinbase,
        r.length-h256 h.root v.root,
        r.length-h256 h.tx_hash v.tx_hash,
        r.length-h256 h.receipts_hash v.receipts_hash,
        r.length-bloom h.bloom v.bloom,
        r.u256-IsRlp.rlp_length_lem h.difficulty v.difficulty,
        r.u256-IsRlp.rlp_length_lem h.number v.number,
        r.u64-IsRlp.rlp_length_lem h.gas_limit v.gas_limit,
        r.u64-IsRlp.rlp_length_lem h.gas_used v.gas_used,
        r.u64-IsRlp.rlp_length_lem h.time v.time,
        r.bytes-IsRlp.rlp_length_lem h.extra v.extra,
        r.length-h256 h.mix_digest v.mix_digest,
        r.length-h64 h.nonce v.nonce,
        length-encode_fee h.base_fee v.base_fee,
      ))

  -- The `length` of a header in range is the length of its encoding.
  pub block_header_length_lem :
      (h : BlockHeader) → IsBlockHeader h → block_header_length h ≡ length (encode_block_header h)
  unfolding block_header_length encode_block_header
  block_header_length_lem h v =
      rw length-append
        (omega (arith, r.length-encode_header (rlp_header h), payload_length_lem h v))
