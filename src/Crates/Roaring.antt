-- ===== src/Crates/Roaring.antt =====
-- `roaring::RoaringTreemap`: a set of 64-bit numbers.
use erigon_db.Prelude.{ℕ, ◌+◌, ◌<◌, ◌≡◌, Option, List, [], ◌∷◌, All, get_elem?, leb, if◌then◌else◌}
use erigon_db.Outcome.{Outcome, ok}

abbrev pub IsAscending : List ℕ → Type 0
IsAscending [] = Unit {0}
IsAscending (x ∷ xs) = All (λ y. x < y) xs × IsAscending xs

-- How many numbers of the list are at most `n`.
abbrev pub count_le : ℕ → List ℕ → ℕ
count_le n [] = 0
count_le n (x ∷ xs) = (if leb x n then 1 else 0) + count_le n xs

pub record RoaringCrate : Type 1 where
  pub Treemap : Type 0
  -- The members in ascending order, as `iter` yields them.
  pub members : Treemap → List ℕ
  pub rank : Treemap → ℕ → ℕ
  pub select : Treemap → ℕ → Option ℕ
  pub serialize : Treemap → List ℕ
  pub deserialize_from : List ℕ → Outcome ℕ Treemap
  pub members-IsAscending : (m : Treemap) → IsAscending (members m)
  pub rank_lem : (m : Treemap) (n : ℕ) → rank m n ≡ count_le n (members m)
  pub select_lem : (m : Treemap) (i : ℕ) → select m i ≡ get_elem? (members m) i
  pub deserialize-serialize : (m : Treemap) → deserialize_from (serialize m) ≡ ok m
