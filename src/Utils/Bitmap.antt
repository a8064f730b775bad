-- ===== src/Utils/Bitmap.antt =====
-- What `find_gte` finds among the members of a bitmap.
use erigon_db.Prelude.{
  ℕ, zero, suc, ◌+◌, ◌-◌, ◌≤◌, ◌<◌, ◌≡◌, refl, ap, ◌∙◌, ◌⊎◌, inl, inr, Option, none, some, List, [],
  ◌∷◌, All, arith, leb, get_elem?, Bool-cases, leb→le,
}
use erigon_db.Crates.{RoaringCrate, IsAscending, count_le}
use erigon_db.Utils.{find_gte}

abbrev pub Elem : ℕ → List ℕ → Type 0
Elem k [] = ⊥
Elem k (x ∷ xs) = (k ≡ x) ⊎ Elem k xs

-- `none` where every member is below `n`; else the least of the members from `n` on.
abbrev pub IsLeastGte : ℕ → List ℕ → Option ℕ → Type 0
IsLeastGte n xs none = All (λ j. j < n) xs
IsLeastGte n xs (some k) = Elem k xs × (n ≤ k) × All (λ j. n ≤ j → k ≤ j) xs

pub All-weaken {ℓ} :
    {A : Type ℓ} (P Q : A → Type 0) (xs : List A) → ((x : A) → P x → Q x) → All P xs → All Q xs
All-weaken P Q [] f h = tt
All-weaken P Q (x ∷ xs) f h = (f x h.0, All-weaken P Q xs f h.1)

-- Above the members that are counted there are none.
count_le-zero : (n : ℕ) (xs : List ℕ) → All (λ y. n < y) xs → count_le n xs ≡ 0
count_le-zero n [] h = refl
count_le-zero n (x ∷ xs) h = ground (arith, count_le-zero n xs h.1)

at_rank :
    (n : ℕ) (xs : List ℕ) → IsAscending xs → IsLeastGte (suc n) xs (get_elem? xs (count_le n xs))
at_rank n [] h = tt
at_rank n (x ∷ xs) h = elim (Bool-cases (leb x n)) [
  | inl low ↦
      rw low (rw one (step (leb→le _ _ low) (get_elem? xs (count_le n xs)) (at_rank n xs h.1)))
  | inr high ↦
      rw (high, rank_zero (ground arith))
        (inl refl, ground arith, (λ _. omega arith, All-weaken _ _ xs (λ y lt _. omega arith) h.0))
]
  where
    one : 1 + count_le n xs ≡ suc (count_le n xs)
    one = omega arith

    step : x ≤ n → (o : Option ℕ) → IsLeastGte (suc n) xs o → IsLeastGte (suc n) (x ∷ xs) o
    step l none k = (omega arith, k)
    step l (some k) m = (inr m.0, m.1, (λ g. absurd (omega arith), m.2))

    rank_zero : n < x → 0 + count_le n xs ≡ 0
    rank_zero lt = omega (arith, count_le-zero n xs (All-weaken _ _ xs (λ y l. omega arith) h.0))

-- Without the member 0, the first member is the least one from 0 on.
at_start :
    (xs : List ℕ) → IsAscending xs → ¬ Elem 0 xs → IsLeastGte 0 xs (get_elem? xs (count_le 0 xs))
at_start [] h no0 = tt
at_start (zero ∷ xs) h no0 = absurd (no0 (inl refl))
at_start (suc x ∷ xs) h no0 =
    rw (rank_zero)
      (inl refl, omega arith, (λ _. omega arith, All-weaken _ _ xs (λ y lt _. omega arith) h.0))
  where
    rank_zero : count_le 0 (suc x ∷ xs) ≡ 0
    rank_zero =
        count_le-zero 0 (suc x ∷ xs) (omega arith, All-weaken _ _ xs (λ y l. omega arith) h.0)

-- With it, the second member comes instead.
past_start :
    (xs : List ℕ) → IsAscending xs → Elem 0 xs → ¬ IsLeastGte 0 xs (get_elem? xs (count_le 0 xs))
past_start [] h e m = e
past_start (suc x ∷ xs) h e m = not_above xs h.0 e
  where
    not_above : (ys : List ℕ) → All (λ y. suc x < y) ys → (0 ≡ suc x) ⊎ Elem 0 ys → ⊥
    not_above [] a (inl p) = omega arith
    not_above [] a (inr p) = p
    not_above (y ∷ ys) a (inl p) = omega arith
    not_above (y ∷ ys) a (inr (inl p)) = absurd (omega arith)
    not_above (y ∷ ys) a (inr (inr p)) = not_above ys a.1 (inr p)
past_start (zero ∷ []) h e m = omega (arith, m.0)
past_start (zero ∷ x ∷ xs) h e m =
    let c : count_le 0 (0 ∷ x ∷ xs) ≡ 1 = omega (arith, count_le-zero 0 (x ∷ xs) h.0) in
    let least : IsLeastGte 0 (0 ∷ x ∷ xs) (get_elem? (0 ∷ x ∷ xs) 1) = rw c at m in
    omega (arith, least.2.0 (omega arith), h.0.0)

module _ ⦃r : RoaringCrate⦄ (map : r.Treemap) where
  find_gte-eq :
      (n : ℕ) → find_gte map n ≡ get_elem? (r.members map) (count_le (n - 1) (r.members map))
  unfolding find_gte
  find_gte-eq n = r.select_lem map _ ∙ ap (get_elem? (r.members map)) (r.rank_lem map (n - 1))

  -- If `n` is positive or 0 is no member, `find_gte` returns the least member that is at least `n`,
  -- and `none` exactly where there is no such member.
  pub find_gte-IsLeastGte :
      (n : ℕ) → (0 < n) ⊎ (¬ Elem 0 (r.members map)) → IsLeastGte n (r.members map) (find_gte map n)
  find_gte-IsLeastGte (suc n) h =
      rw (find_gte-eq (suc n), pred_suc) (at_rank n (r.members map) (r.members-IsAscending map))
    where
      pred_suc : suc n - 1 ≡ n
      pred_suc = omega arith
  find_gte-IsLeastGte zero (inl p) = absurd (omega arith)
  find_gte-IsLeastGte zero (inr no0) =
      rw (find_gte-eq zero) (at_start (r.members map) (r.members-IsAscending map) no0)

  -- At `n = 0`, where 0 is a member, `find_gte` does not return the least member from 0 on.
  pub find_gte_misses_zero :
      Elem 0 (r.members map) → ¬ IsLeastGte 0 (r.members map) (find_gte map 0)
  find_gte_misses_zero e =
      rw (find_gte-eq zero) (past_start (r.members map) (r.members-IsAscending map) e)
