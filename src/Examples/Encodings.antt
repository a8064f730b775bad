-- ===== src/Examples/Encodings.antt =====
-- Transactions and block headers at concrete inputs, with a simple RLP.
use erigon_db.Prelude.{ℕ, ◌≡◌, refl, none, some, List, [], ◌∷◌, ◌++◌, replicate, arith, true}
use erigon_db.Outcome.{unexpected_list, ok, err, rlp, Profile}
use erigon_db.Crates.Stand.{buf, fixed_hash}
use erigon_db.Crates.Stand.Rlp.{simple_rlp}
use erigon_db.Prelude.Digits.{be_bytes, strip_zeros}
use erigon_db.Models.Transaction.Action.{call, decode_action}
use erigon_db.Models.Transaction.Action.Laws.{decode_action_lem}
use erigon_db.Models.Block.{
  BlockHeader, encode_block_header, decode_block_header, rlp_header, fee_length,
}
use erigon_db.Models.Block.Length.{IsBlockHeader}
use erigon_db.Models.Block.RoundTrip.{block_header_round_trip}
use erigon_db.Models.Block.Difficulty.{total_difficulty_object, total_difficulty_mismatch}

instance abbrev pub debug : Profile
debug = record { overflow_checks = true }

decode_action_lem_example :
    decode_action (0x94 ∷ replicate 21 7) ≡ ok (call (replicate 20 7), 7 ∷ [])
decode_action_lem_example = decode_action_lem (0x94 ∷ replicate 21 7)

total_difficulty_mismatch_example :
    (bs : List ℕ) × (total_difficulty_object.encode 1000 ≡ ok bs)
    × (total_difficulty_object.decode bs ≡ err (rlp unexpected_list))
total_difficulty_mismatch_example = total_difficulty_mismatch 1000 (omega arith)

abbrev pub sample : BlockHeader
sample = record {
  parent_hash = replicate 32 1;
  uncle_hash = replicate 32 2;
  coinbase = replicate 20 3;
  root = replicate 32 4;
  tx_hash = replicate 32 5;
  receipts_hash = replicate 32 6;
  bloom = replicate 256 0;
  difficulty = 1000;
  number = 5;
  gas_limit = 30000000;
  gas_used = 21000;
  time = 1600000000;
  extra = 1 ∷ 2 ∷ [];
  mix_digest = replicate 32 7;
  nonce = replicate 8 8;
  base_fee = some 7;
  seal = none;
}

pub sample-IsBlockHeader : IsBlockHeader sample
sample-IsBlockHeader = record {
  parent_hash = refl;
  uncle_hash = refl;
  coinbase = refl;
  root = refl;
  tx_hash = refl;
  receipts_hash = refl;
  bloom = refl;
  difficulty = omega arith;
  number = omega arith;
  gas_limit = omega arith;
  gas_used = omega arith;
  time = omega arith;
  extra = omega arith;
  mix_digest = refl;
  nonce = refl;
  base_fee = omega arith;
}

block_header_round_trip_example :
    decode_block_header (encode_block_header sample ++ 9 ∷ []) ≡ ok (sample, 9 ∷ [])
block_header_round_trip_example =
    block_header_round_trip sample (9 ∷ []) sample-IsBlockHeader
      (unfold rlp_header fee_length strip_zeros be_bytes in omega arith)
