-- ===== src/Prelude/Lex.antt =====
-- The byte by byte lexicographic order, in which the database keeps its keys.
use Prim.Native.Nat.{ℕ, zero, suc, ◌*◌, ◌/◌, ◌^◌, ◌<◌}
use mathlib.Core.Path.{◌≡◌, refl, ◌∙◌, sym}
use mathlib.Core.Bool.{Bool, true, false, not, ◌&&◌, ◌||◌}
use mathlib.Core.List.{List, [], ◌∷◌, ◌++◌}
use native.Mathlib.Omega.{arith}
use native.Mathlib.Nat.{pow-suc}
use erigon_db.Prelude.Tests.{◌==◌, ltb, bytes_eq}
use erigon_db.Prelude.Lists.{length}
use erigon_db.Prelude.Digits.{be_bytes, length-be_bytes}

unfoldable pub lex_ltb : List ℕ → List ℕ → Bool
lex_ltb [] [] = false
lex_ltb [] (y ∷ ys) = true
lex_ltb (x ∷ xs) [] = false
lex_ltb (x ∷ xs) (y ∷ ys) = ltb x y || (x == y && lex_ltb xs ys)

abbrev pub lex_leb : List ℕ → List ℕ → Bool
lex_leb xs ys = not (lex_ltb ys xs)

pub lex_ltb_irrefl : (xs : List ℕ) → lex_ltb xs xs ≡ false
unfolding lex_ltb
lex_ltb_irrefl [] = refl
lex_ltb_irrefl (x ∷ xs) = ground (arith, lex_ltb_irrefl xs)

-- Nothing is below the empty string.
pub lex_ltb-nil : (xs : List ℕ) → lex_ltb xs [] ≡ false
unfolding lex_ltb
lex_ltb-nil [] = refl
lex_ltb-nil (x ∷ xs) = refl

-- Strings of one length are compared before what follows them.
pub lex_ltb-append :
    (xs ys us vs : List ℕ)
    → length xs ≡ length ys
    → lex_ltb (xs ++ us) (ys ++ vs) ≡ (lex_ltb xs ys || (bytes_eq xs ys && lex_ltb us vs))
unfolding lex_ltb bytes_eq
lex_ltb-append [] [] us vs h = refl
lex_ltb-append [] (y ∷ ys) us vs h = absurd (omega arith)
lex_ltb-append (x ∷ xs) [] us vs h = absurd (omega arith)
lex_ltb-append (x ∷ xs) (y ∷ ys) us vs h = ground (arith, lex_ltb-append xs ys us vs)

bytes_eq-append :
    (xs ys us vs : List ℕ)
    → length xs ≡ length ys
    → bytes_eq (xs ++ us) (ys ++ vs) ≡ (bytes_eq xs ys && bytes_eq us vs)
unfolding bytes_eq
bytes_eq-append [] [] us vs h = refl
bytes_eq-append [] (y ∷ ys) us vs h = absurd (omega arith)
bytes_eq-append (x ∷ xs) [] us vs h = absurd (omega arith)
bytes_eq-append (x ∷ xs) (y ∷ ys) us vs h = ground (arith, bytes_eq-append xs ys us vs)

abbrev one_length : (w a b : ℕ) → length (be_bytes w a) ≡ length (be_bytes w b)
one_length w a b = length-be_bytes w a ∙ sym (length-be_bytes w b)

pub bytes_eq-be_bytes :
    (w a b : ℕ) → a < 256 ^ w → b < 256 ^ w → bytes_eq (be_bytes w a) (be_bytes w b) ≡ (a == b)
unfolding be_bytes
bytes_eq-be_bytes zero a b ha hb = unfold bytes_eq in ground arith
bytes_eq-be_bytes (suc w) a b ha hb =
    let pw : 256 ^ suc w ≡ 256 * 256 ^ w = omega (arith, pow-suc 256 w) in
    bytes_eq-append (be_bytes w (a / 256)) _ _ _ (one_length w (a / 256) (b / 256))
    ∙ rw (bytes_eq-be_bytes w (a / 256) (b / 256) (omega arith) (omega arith))
        (unfold bytes_eq in ground arith)

-- Big-endian numbers of one width are in the order of the numbers.
pub lex_ltb-be_bytes :
    (w a b : ℕ) → a < 256 ^ w → b < 256 ^ w → lex_ltb (be_bytes w a) (be_bytes w b) ≡ ltb a b
unfolding be_bytes
lex_ltb-be_bytes zero a b ha hb = unfold lex_ltb in ground arith
lex_ltb-be_bytes (suc w) a b ha hb =
    let pw : 256 ^ suc w ≡ 256 * 256 ^ w = omega (arith, pow-suc 256 w) in
    lex_ltb-append (be_bytes w (a / 256)) _ _ _ (one_length w (a / 256) (b / 256))
    ∙ rw
        (
          lex_ltb-be_bytes w (a / 256) (b / 256) (omega arith) (omega arith),
          bytes_eq-be_bytes w (a / 256) (b / 256) (omega arith) (omega arith),
        )
        (unfold lex_ltb in ground arith)
