-- ===== src/Utils.antt =====
-- erigon/utils: lookups in a bitmap, and numbers behind a length byte.
pub mod Numbers
pub mod Bitmap
use erigon_db.Prelude.{
  ℕ, zero, suc, ◌+◌, ◌-◌, Option, none, some, List, [], ◌∷◌, reverse, length, take, replicate, leb,
  ltb, if◌then◌else◌, Bool, true, false,
}
use erigon_db.Prelude.Digits.{le_value}
use erigon_db.Outcome.{
  DecodeError, input_too_short, unexpected_length, Outcome, ok, err, panic, ◌>>=◌, or_panic,
}
use erigon_db.Crates.{BufCrate, RoaringCrate}

-- erigon/utils/consts.rs
abbrev pub keccak_length : ℕ
keccak_length = 32

abbrev pub address_length : ℕ
address_length = 20

abbrev pub u64_length : ℕ
u64_length = 8

abbrev pub bloom_byte_length : ℕ
bloom_byte_length = 256

-- `saturating_sub` is the subtraction of ℕ.
unfoldable pub find_gte : ⦃r : RoaringCrate⦄ → r.Treemap → ℕ → Option ℕ
find_gte ⦃r⦄ map n = let rank = r.rank map (n - 1) in r.select map rank

-- `&buf[..n]`, which panics beyond the end.
unfoldable pub slice_to {ℓ} : {E : Type 0} {A : Type ℓ} → ℕ → List A → Outcome E (List A)
slice_to n bs = if leb n (length bs) then ok (take n bs) else panic

-- `decoded[i] = b`, which panics out of bounds.
unfoldable pub set_at : {E : Type 0} → List ℕ → ℕ → ℕ → Outcome E (List ℕ)
set_at [] i b = panic
set_at (x ∷ xs) zero b = ok (b ∷ xs)
set_at (x ∷ xs) (suc i) b = do ys ← set_at xs i b; ok (x ∷ ys)

-- The loop of `bytes_to_u64`, over the bytes that are left in reverse order.
unfoldable pub fill : {E : Type 0} → ℕ → List ℕ → List ℕ → Outcome E (List ℕ)
unfolding set_at
fill i [] decoded = ok decoded
fill i (b ∷ bs) decoded = do decoded' ← set_at decoded i b; fill (i + 1) bs decoded'

unfoldable pub bytes_to_u64 : {E : Type 0} → List ℕ → Outcome E ℕ
unfolding fill le_value
bytes_to_u64 buf = do decoded ← fill 0 (reverse buf) (replicate 8 0); ok (le_value decoded)

abbrev pub is_empty {ℓ} : {A : Type ℓ} → List A → Bool
is_empty [] = true
is_empty (x ∷ xs) = false

-- The value comes back with the slice behind it.
unfoldable pub take_u64_rlp : ⦃b : BufCrate⦄ → List ℕ → Outcome DecodeError (ℕ × List ℕ)
unfolding slice_to bytes_to_u64
take_u64_rlp ⦃b⦄ buf = if is_empty buf then err input_too_short else do
  (len, buf') ← or_panic (b.get_u8 buf)
  if ltb u64_length len then err unexpected_length else do
    bytes ← slice_to len buf'
    val ← bytes_to_u64 bytes
    buf'' ← or_panic (b.advance len buf')
    ok (val, buf'')
