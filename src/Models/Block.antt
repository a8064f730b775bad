-- ===== src/Models/Block.antt =====
-- erigon/models/block.rs: headers and stored bodies.
pub mod Length
pub mod RoundTrip
pub mod Difficulty
pub mod Body
use erigon_db.Prelude.{
  ℕ, ◌+◌, Option, none, some, List, [], ◌++◌, true, false, length, ltb, not, if◌then◌else◌,
}
use erigon_db.Outcome.{
  DecodeError, unexpected_string, rlp, Outcome, ok, err, ◌>>=◌, map_ok, map_err, Profile, sub_usize,
}
use erigon_db.Crates.{RlpCrate, RlpItem, Header, H256, Address}
use erigon_db.Utils.{keccak_length, address_length, bloom_byte_length}
use erigon_db.Kv.Traits.{TableObject}

pub record BlockHeader : Type 0 where
  pub parent_hash : H256
  pub uncle_hash : H256
  pub coinbase : Address
  pub root : H256
  pub tx_hash : H256
  pub receipts_hash : H256
  pub bloom : List ℕ
  pub difficulty : ℕ
  pub number : ℕ
  pub gas_limit : ℕ
  pub gas_used : ℕ
  pub time : ℕ
  pub extra : List ℕ
  pub mix_digest : H256
  pub nonce : List ℕ
  pub base_fee : Option ℕ
  pub seal : Option (List ℕ)

pub record BodyForStorage : Type 0 where
  pub base_tx_id : ℕ
  pub tx_amount : ℕ
  pub uncles : List BlockHeader

-- `rlp_table_value!`: bytes behind the item are ignored.
unfoldable pub rlp_table_value : {A : Type 0} → RlpItem A → TableObject A
rlp_table_value item = record {
  encode = λ a. ok (item.encode a);
  decode = λ b. map_ok (λ p. p.0) (map_err rlp (item.decode b));
}

module _ ⦃r : RlpCrate⦄ where
  abbrev pub fee_length : Option ℕ → ℕ
  fee_length none = 0
  fee_length (some base_fee) = r.u256.rlp_length base_fee

  -- The header of the list: the sum of the lengths of the fields.
  unfoldable pub rlp_header : BlockHeader → Header
  rlp_header h = record {
    list = true;
    payload_length =
        0
        + (keccak_length + 1)
        + (keccak_length + 1)
        + (address_length + 1)
        + (keccak_length + 1)
        + (keccak_length + 1)
        + (keccak_length + 1)
        + (bloom_byte_length + r.length_of_length bloom_byte_length)
        + r.u256.rlp_length h.difficulty
        + r.u256.rlp_length h.number
        + r.u64.rlp_length h.gas_limit
        + r.u64.rlp_length h.gas_used
        + r.u64.rlp_length h.time
        + r.bytes.rlp_length h.extra
        + (keccak_length + 1)
        + (8 + 1)
        + fee_length h.base_fee;
  }

  abbrev pub encode_fee : Option ℕ → List ℕ
  encode_fee none = []
  encode_fee (some base_fee) = r.u256.encode base_fee

  -- What `encode` writes behind the header of the list.
  unfoldable pub encode_fields : BlockHeader → List ℕ
  encode_fields h =
      r.h256.encode h.parent_hash
      ++ (r.h256.encode h.uncle_hash
          ++ (r.address.encode h.coinbase
              ++ (r.h256.encode h.root
                  ++ (r.h256.encode h.tx_hash
                      ++ (r.h256.encode h.receipts_hash
                          ++ (r.bloom.encode h.bloom
                              ++ (r.u256.encode h.difficulty
                                  ++ (r.u256.encode h.number
                                      ++ (r.u64.encode h.gas_limit
                                          ++ (r.u64.encode h.gas_used
                                              ++ (r.u64.encode h.time
                                                  ++ (r.bytes.encode h.extra
                                                      ++ (r.h256.encode h.mix_digest
                                                          ++ (r.h64.encode h.nonce
                                                            ++ encode_fee h.base_fee))))))))))))))

  unfoldable pub encode_block_header : BlockHeader → List ℕ
  encode_block_header h = r.encode_header (rlp_header h) ++ encode_fields h

  unfoldable pub block_header_length : BlockHeader → ℕ
  block_header_length h =
      let rlp_head = rlp_header h in
      r.length_of_length rlp_head.payload_length + rlp_head.payload_length

  -- The base fee is there if the list goes on.
  unfoldable pub decode_fee : ℕ → List ℕ → Outcome DecodeError (Option ℕ × List ℕ)
  decode_fee rest buf =
      if ltb rest (length buf)
      then map_ok (λ p. (some p.0, p.1)) (r.u256.decode buf)
      else ok (none, buf)

  -- The fields, of which `rest` bytes of the slice are left behind.
  unfoldable pub decode_fields : ℕ → List ℕ → Outcome DecodeError (BlockHeader × List ℕ)
  unfolding decode_fee
  decode_fields rest buf = do
    (parent_hash, buf) ← r.h256.decode buf
    (uncle_hash, buf) ← r.h256.decode buf
    (coinbase, buf) ← r.address.decode buf
    (root, buf) ← r.h256.decode buf
    (tx_hash, buf) ← r.h256.decode buf
    (receipts_hash, buf) ← r.h256.decode buf
    (bloom, buf) ← r.bloom.decode buf
    (difficulty, buf) ← r.u256.decode buf
    (number, buf) ← r.u256.decode buf
    (gas_limit, buf) ← r.u64.decode buf
    (gas_used, buf) ← r.u64.decode buf
    (time, buf) ← r.u64.decode buf
    (extra, buf) ← r.bytes.decode buf
    (mix_digest, buf) ← r.h256.decode buf
    (nonce, buf) ← r.h64.decode buf
    (base_fee, buf) ← decode_fee rest buf
    ok (
      record {
        parent_hash = parent_hash;
        uncle_hash = uncle_hash;
        coinbase = coinbase;
        root = root;
        tx_hash = tx_hash;
        receipts_hash = receipts_hash;
        bloom = bloom;
        difficulty = difficulty;
        number = number;
        gas_limit = gas_limit;
        gas_used = gas_used;
        time = time;
        extra = extra;
        mix_digest = mix_digest;
        nonce = nonce;
        base_fee = base_fee;
        seal = none;
      },
      buf,
    )

module _ ⦃r : RlpCrate⦄ ⦃p : Profile⦄ where
  unfoldable pub decode_block_header : List ℕ → Outcome DecodeError (BlockHeader × List ℕ)
  decode_block_header buf = do
    (rlp_head, buf) ← r.decode_header buf
    if not rlp_head.list
        then err unexpected_string
        else do rest ← sub_usize (length buf) rlp_head.payload_length; decode_fields rest buf

  unfoldable pub block_header_item : RlpItem BlockHeader
  unfolding encode_block_header block_header_length decode_block_header
  block_header_item = record {
    encode = encode_block_header;
    rlp_length = block_header_length;
    decode = decode_block_header;
  }
