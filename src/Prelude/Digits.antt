-- ===== src/Prelude/Digits.antt =====
-- Byte strings and the numbers that they stand for, the most significant byte first.
use Prim.Native.Nat.{ℕ, zero, suc, ◌+◌, ◌*◌, ◌/◌, ◌%◌, ◌^◌, ◌≤◌, ◌<◌}
use mathlib.Core.Path.{◌≡◌, refl, ap, ◌∙◌}
use mathlib.Core.List.{List, [], ◌∷◌, ◌++◌, append-nil, append_assoc}
use native.Mathlib.Omega.{arith}
use native.Mathlib.Nat.{pow-suc, zero-add}
use erigon_db.Prelude.Tests.{◌==◌, if◌then◌else◌}
use erigon_db.Prelude.Lists.{length, length-append, All, All-append, replicate, take, drop}

abbrev pub IsByte : ℕ → Type 0
IsByte b = b < 256

pub All-take : (n : ℕ) (bs : List ℕ) → All IsByte bs → All IsByte (take n bs)
All-take zero bs h = tt
All-take (suc n) [] h = tt
All-take (suc n) (b ∷ bs) h = (h.0, All-take n bs h.1)

pub All-drop : (n : ℕ) (bs : List ℕ) → All IsByte bs → All IsByte (drop n bs)
All-drop zero bs h = h
All-drop (suc n) [] h = tt
All-drop (suc n) (b ∷ bs) h = All-drop n bs h.1

-- The number of `w` bytes, as `to_be_bytes` of a `w`-byte integer lays it out.
unfoldable pub be_bytes : ℕ → ℕ → List ℕ
be_bytes zero n = []
be_bytes (suc w) n = be_bytes w (n / 256) ++ (n % 256) ∷ []

-- `from_be_bytes`, begun at `acc`.
unfoldable pub be_value_from : ℕ → List ℕ → ℕ
be_value_from acc [] = acc
be_value_from acc (b ∷ bs) = be_value_from (acc * 256 + b) bs

abbrev pub be_value : List ℕ → ℕ
be_value = be_value_from 0

-- `from_le_bytes`: the least significant byte comes first.
unfoldable pub le_value : List ℕ → ℕ
le_value [] = 0
le_value (b ∷ bs) = b + 256 * le_value bs

-- `skip_while(|&v| v == 0)`.
unfoldable pub strip_zeros : List ℕ → List ℕ
strip_zeros [] = []
strip_zeros (b ∷ bs) = if b == 0 then strip_zeros bs else b ∷ bs

pub length-be_bytes : (w n : ℕ) → length (be_bytes w n) ≡ w
unfolding be_bytes
length-be_bytes zero n = refl
length-be_bytes (suc w) n =
    length-append (be_bytes w (n / 256)) ((n % 256) ∷ [])
    ∙ omega (arith, length-be_bytes w (n / 256))

pub be_bytes-IsByte : (w n : ℕ) → All IsByte (be_bytes w n)
unfolding be_bytes
be_bytes-IsByte zero n = tt
be_bytes-IsByte (suc w) n =
    All-append IsByte (be_bytes w (n / 256)) _ (be_bytes-IsByte w (n / 256)) (omega arith)

pub be_value_from-append :
    (acc : ℕ) (xs ys : List ℕ)
    → be_value_from acc (xs ++ ys) ≡ be_value_from (be_value_from acc xs) ys
unfolding be_value_from
be_value_from-append acc [] ys = refl
be_value_from-append acc (x ∷ xs) ys = be_value_from-append (acc * 256 + x) xs ys

pow_step : (w : ℕ) → 256 ^ suc w ≡ 256 * 256 ^ w
pow_step w = omega (arith, pow-suc 256 w)

-- Reading back what was laid out gives the number, if it fits.
pub be_value-be_bytes : (w n : ℕ) → n < 256 ^ w → be_value (be_bytes w n) ≡ n
unfolding be_value_from be_bytes
be_value-be_bytes zero n h = omega arith
be_value-be_bytes (suc w) n h =
    be_value_from-append 0 (be_bytes w (n / 256)) ((n % 256) ∷ [])
    ∙ omega (arith, be_value-be_bytes w (n / 256) (omega (arith, pow_step w)))

-- Leading zeros do not count.
pub be_value-strip_zeros : (bs : List ℕ) → be_value (strip_zeros bs) ≡ be_value bs
unfolding be_value_from strip_zeros
be_value-strip_zeros [] = refl
be_value-strip_zeros (zero ∷ bs) = be_value-strip_zeros bs
be_value-strip_zeros (suc b ∷ bs) = ground arith

pub be_value-pad : (n : ℕ) (bs : List ℕ) → be_value (replicate n 0 ++ bs) ≡ be_value bs
unfolding be_value_from
be_value-pad zero bs = refl
be_value-pad (suc n) bs = be_value-pad n bs

pub length-strip_zeros : (bs : List ℕ) → length (strip_zeros bs) ≤ length bs
unfolding strip_zeros
length-strip_zeros [] = omega arith
length-strip_zeros (zero ∷ bs) = omega (arith, length-strip_zeros bs)
length-strip_zeros (suc b ∷ bs) = ground arith

be_bytes-be_value_from :
    (xs : List ℕ) (k acc : ℕ)
    → All IsByte xs
    → be_bytes (length xs + k) (be_value_from acc xs) ≡ be_bytes k acc ++ xs
unfolding be_value_from
be_bytes-be_value_from [] k acc h = rw (zero-add, append-nil)
be_bytes-be_value_from (b ∷ bs) k acc h = rw shift (
    be_bytes-be_value_from bs (suc k) (acc * 256 + b) h.1
    ∙ ap (λ t. t ++ bs) last
    ∙ append_assoc (be_bytes k acc) (b ∷ []) bs)
  where
    shift : suc (length bs) + k ≡ length bs + suc k
    shift = omega arith

    byte : b < 256
    byte = h.0

    front : (acc * 256 + b) / 256 ≡ acc
    front = omega arith

    back : (acc * 256 + b) % 256 ≡ b
    back = omega arith

    last : be_bytes (suc k) (acc * 256 + b) ≡ be_bytes k acc ++ b ∷ []
    last = unfold be_bytes in rw (front, back)

-- Laying out the number that some bytes stand for gives those bytes.
pub be_bytes-be_value :
    (xs : List ℕ) (w : ℕ) → length xs ≡ w → All IsByte xs → be_bytes w (be_value xs) ≡ xs
be_bytes-be_value xs w e h =
    let e' : w ≡ length xs + 0 = omega arith in
    rw e' (be_bytes-be_value_from xs 0 0 h ∙ unfold be_bytes in refl)
