-- ===== src/Utils/Numbers.antt =====
-- `bytes_to_u64` and `take_u64_rlp` read big-endian numbers.
use erigon_db.Prelude.{
  ℕ, zero, suc, ◌+◌, ◌≤◌, ◌<◌, ◌≡◌, refl, ap, ◌∙◌, List, [], ◌∷◌, ◌++◌, append_assoc, reverse,
  length, take, drop, replicate, leb, ltb, if◌then◌else◌, arith, length-reverse, length-append,
  Bool-cases, leb→le, ltb→lt, ◌-◌, inl, inr, length-take, ltb-eq-false, lt→ltb,
}
use mathlib.Core.List.{reverse-append, reverse-reverse}
use erigon_db.Prelude.Digits.{le_value, be_value, be_value_from, be_value_from-append}
use erigon_db.Outcome.{DecodeError, input_too_short, unexpected_length, Outcome, ok, err, panic}
use erigon_db.Crates.{BufCrate}
use erigon_db.Utils.{fill, set_at, bytes_to_u64, take_u64_rlp}

-- The two byte orders mirror one another.
le_value-eq : (xs : List ℕ) → le_value xs ≡ be_value (reverse xs)
unfolding le_value be_value_from
le_value-eq [] = refl
le_value-eq (x ∷ xs) =
    rw (reverse-append (x ∷ []) xs, be_value_from-append 0 (reverse xs) (x ∷ []))
      (omega (arith, le_value-eq xs))

le_value-pad : (xs : List ℕ) (k : ℕ) → le_value (xs ++ replicate k 0) ≡ le_value xs
unfolding le_value
le_value-pad [] zero = refl
le_value-pad [] (suc k) = omega (arith, le_value-pad [] k)
le_value-pad (x ∷ xs) k = omega (arith, le_value-pad xs k)

set_at-end :
    {E : Type 0} (done : List ℕ) (x : ℕ) (rest : List ℕ) (b i : ℕ)
    → length done ≡ i
    → set_at {E = E} (done ++ x ∷ rest) i b ≡ ok (done ++ b ∷ rest)
unfolding set_at
set_at-end [] x rest b zero h = refl
set_at-end [] x rest b (suc i) h = absurd (omega arith)
set_at-end (d ∷ ds) x rest b zero h = absurd (omega arith)
set_at-end {E} (d ∷ ds) x rest b (suc i) h = rw (set_at-end {E = E} ds x rest b i (omega arith))

set_at-beyond : {E : Type 0} (xs : List ℕ) (i b : ℕ) → length xs ≤ i → set_at {E = E} xs i b ≡ panic
unfolding set_at
set_at-beyond [] i b h = refl
set_at-beyond (x ∷ xs) zero b h = absurd (omega arith)
set_at-beyond {E} (x ∷ xs) (suc i) b h = rw (set_at-beyond {E = E} xs i b (omega arith))

-- The loop writes the bytes behind those that are done, and leaves the other places.
fill_lem :
    {E : Type 0} (bs done : List ℕ) (k m i : ℕ)
    → length done ≡ i
    → m ≡ length bs + k
    → fill {E = E} i bs (done ++ replicate m 0) ≡ ok (done ++ (bs ++ replicate k 0))
unfolding fill
fill_lem [] done k m i h e = let e' : m ≡ k = omega arith in rw e'
fill_lem (b ∷ bs) done k zero i h e = absurd (omega arith)
fill_lem {E} (b ∷ bs) done k (suc m) i h e = rw (set_at-end {E = E} done 0 (replicate m 0) b i h) (
    rw (← append_assoc done (b ∷ []) (replicate m 0)) (
      fill_lem bs (done ++ b ∷ []) k m (i + 1) grows (omega arith)
      ∙ ap ok (append_assoc done (b ∷ []) (bs ++ replicate k 0))))
  where
    grows : length (done ++ b ∷ []) ≡ i + 1
    grows = rw length-append (omega arith)

length-set_at :
    {E : Type 0} (xs : List ℕ) (i b : ℕ)
    → i < length xs
    → (ys : List ℕ) × (set_at {E = E} xs i b ≡ ok ys) × (length ys ≡ length xs)
unfolding set_at
length-set_at [] i b h = elim h [ ]
length-set_at (x ∷ xs) zero b h = (b ∷ xs, refl, refl)
length-set_at {E} (x ∷ xs) (suc i) b h =
    let (ys, e, l) = length-set_at {E = E} xs i b (omega arith) in (x ∷ ys, rw e, ap suc l)

-- Past the last place the loop panics.
fill_overflow :
    {E : Type 0} (bs decoded : List ℕ) (i : ℕ)
    → length decoded < i + length bs
    → i ≤ length decoded
    → fill {E = E} i bs decoded ≡ panic
unfolding fill
fill_overflow [] decoded i h k = absurd (omega arith)
fill_overflow {E} (b ∷ bs) decoded i h k = elim (Bool-cases (ltb i (length decoded))) [
  | inl room ↦
      let (ys, e, l) = length-set_at {E = E} decoded i b (ltb→lt _ _ room) in
      rw e (fill_overflow {E = E} bs ys (i + 1) (omega arith) (omega (arith, ltb→lt _ _ room)))
  | inr full ↦ rw (set_at-beyond {E = E} decoded i b (ground arith))
]

-- At most eight bytes are read as the big-endian number that they are.
pub bytes_to_u64_within :
    {E : Type 0} (buf : List ℕ) → length buf ≤ 8 → bytes_to_u64 {E = E} buf ≡ ok (be_value buf)
unfolding bytes_to_u64
bytes_to_u64_within {E} buf h =
    rw
      (fill_lem {E = E} (reverse buf) [] (8 - length buf) 8 0 refl
        (omega (arith, length-reverse {0} buf)))
      (ap ok (
        le_value-pad (reverse buf) (8 - length buf)
        ∙ le_value-eq (reverse buf)
        ∙ ap be_value (reverse-reverse buf)))

-- More than eight bytes do not fit the array.
pub bytes_to_u64_beyond :
    {E : Type 0} (buf : List ℕ) → 8 < length buf → bytes_to_u64 {E = E} buf ≡ panic
unfolding bytes_to_u64
bytes_to_u64_beyond {E} buf h = rw (
    fill_overflow {E = E} (reverse buf) (replicate 8 0) 0 (omega (arith, length-reverse {0} buf))
      (omega arith))

-- A number behind a length byte, as the format has it: what each input gives.
abbrev pub prefixed_u64 : List ℕ → Outcome DecodeError (ℕ × List ℕ)
prefixed_u64 [] = err input_too_short
prefixed_u64 (len ∷ bs) =
    if leb len 8
    then (if leb len (length bs) then ok (be_value (take len bs), drop len bs) else panic)
    else err unexpected_length

-- `take_u64_rlp` reads the length byte and then the big-endian number of that many bytes, and leaves
-- what follows. An empty slice and a length over 8 are errors; a slice that ends inside the number
-- is a panic.
pub take_u64_rlp_lem : ⦃b : BufCrate⦄ (buf : List ℕ) → take_u64_rlp buf ≡ prefixed_u64 buf
unfolding take_u64_rlp
take_u64_rlp_lem ⦃b⦄ [] = refl
take_u64_rlp_lem ⦃b⦄ (len ∷ bs) = rw (b.get_u8-cons len bs) (elim (Bool-cases (leb len 8)) [
  | inl small ↦
      rw (small, ltb-eq-false 8 len (leb→le _ _ small))
        (elim (Bool-cases (leb len (length bs))) [
          | inl fits ↦ rw (
            fits,
            bytes_to_u64_within {E = DecodeError} (take len bs)
                (omega (arith, length-take {0} len bs, leb→le _ _ small)),
            b.advance_within len bs (leb→le _ _ fits),
          )
          | inr short ↦ rw short
        ])
  | inr big ↦ rw (big, lt→ltb 8 len (ground arith))
])
