-- ===== src/Examples/Lookups.antt =====
-- erigon/utils and the basic values at concrete inputs.
use erigon_db.Prelude.{ℕ, ◌≡◌, refl, arith, inl, List, [], ◌∷◌}
use erigon_db.Prelude.Digits.{be_value_from}
use erigon_db.Outcome.{ok}
use erigon_db.Crates.Stand.{buf, uint, fixed_hash, array_vec}
use erigon_db.Crates.Stand.Store.{roaring}
use erigon_db.Utils.{find_gte, take_u64_rlp}
use erigon_db.Utils.Bitmap.{find_gte-IsLeastGte, find_gte_misses_zero, IsLeastGte}
use erigon_db.Utils.Numbers.{take_u64_rlp_lem}

-- The bitmap of 2, 5 and 9.
abbrev shards : List ℕ
shards = 2 ∷ 2 ∷ 3 ∷ []

-- The bitmap of 0 and 4.
abbrev from_genesis : List ℕ
from_genesis = 0 ∷ 3 ∷ []

find_gte-IsLeastGte_example : IsLeastGte 3 (2 ∷ 5 ∷ 9 ∷ []) (find_gte ⦃r = roaring⦄ shards 3)
find_gte-IsLeastGte_example = find_gte-IsLeastGte ⦃r = roaring⦄ shards 3 (inl (omega arith))

find_gte_misses_zero_example : ¬ IsLeastGte 0 (0 ∷ 4 ∷ []) (find_gte ⦃r = roaring⦄ from_genesis 0)
find_gte_misses_zero_example = find_gte_misses_zero ⦃r = roaring⦄ from_genesis (inl refl)

take_u64_rlp_lem_example : take_u64_rlp (2 ∷ 1 ∷ 0 ∷ 7 ∷ []) ≡ ok (256, 7 ∷ [])
unfolding be_value_from
take_u64_rlp_lem_example = take_u64_rlp_lem (2 ∷ 1 ∷ 0 ∷ 7 ∷ [])
