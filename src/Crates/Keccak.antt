-- ===== src/Crates/Keccak.antt =====
-- `tiny_keccak`: a hasher that is fed bytes and then fills an output buffer.
use erigon_db.Prelude.{ℕ, ◌≡◌, List, length}

pub record KeccakCrate : Type 1 where
  pub Hasher : Type 0
  pub v256 : Hasher
  pub update : Hasher → List ℕ → Hasher
  pub finalize : Hasher → List ℕ → List ℕ
  pub length-finalize : (h : Hasher) (out : List ℕ) → length (finalize h out) ≡ length out
