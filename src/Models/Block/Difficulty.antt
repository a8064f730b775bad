-- ===== src/Models/Block/Difficulty.antt =====
-- `TotalDifficulty`: a newtype of U256 whose derived encoder and decoder do not match.
use erigon_db.Prelude.{arith, ℕ, ◌+◌, ◌^◌, ◌<◌, append-nil, ◌≡◌, refl, List, [], ◌++◌, true}
use erigon_db.Outcome.{unexpected_list, rlp, ok, err}
use erigon_db.Crates.{RlpCrate, RlpItem}
use erigon_db.Kv.Traits.{TableObject}
use erigon_db.Models.Block.{rlp_table_value}

module _ ⦃r : RlpCrate⦄ where
  -- `decl_u256_wrapper!` derives `RlpEncodable`, which writes a struct as the list of its fields, and
  -- `RlpDecodableWrapper`, which reads the field itself.
  unfoldable pub u256_wrapper_item : RlpItem ℕ
  u256_wrapper_item = record {
    encode = λ n.
        r.encode_header (record { list = true; payload_length = r.u256.rlp_length n })
        ++ r.u256.encode n;
    rlp_length = λ n. r.length_of_length (r.u256.rlp_length n) + r.u256.rlp_length n;
    decode = r.u256.decode;
  }

  unfoldable pub total_difficulty_object : TableObject ℕ
  unfolding u256_wrapper_item rlp_table_value
  total_difficulty_object = rlp_table_value u256_wrapper_item

  -- No total difficulty decodes from its own encoding: that is a list, and the decoder wants a string.
  pub total_difficulty_mismatch :
      (n : ℕ)
      → n < 256 ^ 32
      → (bs : List ℕ) × (total_difficulty_object.encode n ≡ ok bs)
        × (total_difficulty_object.decode bs ≡ err (rlp unexpected_list))
  unfolding total_difficulty_object
  total_difficulty_mismatch n h = (
    r.encode_header (record { list = true; payload_length = r.u256.rlp_length n })
        ++ r.u256.encode n,
    refl,
    rw (
        r.u256_refuses_list (r.u256.rlp_length n) (r.u256.encode n)
          (omega (arith, r.u256-IsRlp.rlp_length_lem n h))
          (omega (arith, r.u256-IsRlp.rlp_length_lem n h, r.length-u256 n h))),
  )

  -- The total difficulty that a bare RLP number stands for, as Erigon stores it, is read back.
  pub total_difficulty_stored :
      (n : ℕ) → n < 256 ^ 32 → total_difficulty_object.decode (r.u256.encode n) ≡ ok n
  unfolding total_difficulty_object
  total_difficulty_stored n h =
      rw (← append-nil (r.u256.encode n), r.u256-IsRlp.decode-encode n [] h)
