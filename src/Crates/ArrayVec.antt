-- ===== src/Crates/ArrayVec.antt =====
-- `arrayvec::ArrayVec<u8, CAP>`: a vector with room for `cap` bytes.
use erigon_db.Prelude.{ℕ, ◌+◌, ◌≡◌, Option, none, some, List, ◌++◌, length, leb, if◌then◌else◌}

pub record ArrayVecCrate : Type 0 where
  -- `none` is the `CapacityError`.
  pub try_extend_from_slice : ℕ → List ℕ → List ℕ → Option (List ℕ)
  -- `from_iter` panics where the items do not fit.
  pub from_iter : ℕ → List ℕ → Option (List ℕ)
  pub try_extend_lem :
      (cap : ℕ) (v s : List ℕ)
      → try_extend_from_slice cap v s
        ≡ (if leb (length v + length s) cap then some (v ++ s) else none)
  pub from_iter_lem :
      (cap : ℕ) (xs : List ℕ) → from_iter cap xs ≡ (if leb (length xs) cap then some xs else none)
