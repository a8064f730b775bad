-- ===== src/Crates/Stand.antt =====
-- Concrete stand-ins for the crates, which show that their laws can hold together.
pub mod Store
pub mod Rlp
pub mod Derive
pub mod Strings
use erigon_db.Prelude.{
  ℕ, zero, suc, ◌+◌, ◌-◌, ◌*◌, ◌/◌, ◌^◌, ◌≤◌, ◌<◌, ◌≡◌, refl, Option, none, some, List, [], ◌∷◌,
  ◌++◌, length, drop, leb, ltb, ◌==◌, le→leb, leb-eq-false, if◌then◌else◌, arith, ==_self,
}
use erigon_db.Prelude.Digits.{be_bytes, be_value}
use erigon_db.Crates.Buf.{BufCrate}
use erigon_db.Crates.Uint.{UintCrate, FixedHashCrate, u256_mod}
use erigon_db.Crates.ArrayVec.{ArrayVecCrate}

abbrev pub read_u8 : List ℕ → Option (ℕ × List ℕ)
read_u8 [] = none
read_u8 (b ∷ bs) = some (b, bs)

abbrev pub skip : ℕ → List ℕ → Option (List ℕ)
skip n bs = if leb n (length bs) then some (drop n bs) else none

pub skip_within : (n : ℕ) (bs : List ℕ) → n ≤ length bs → skip n bs ≡ some (drop n bs)
skip_within n bs h = rw (le→leb n (length bs) h)

pub skip_beyond : (n : ℕ) (bs : List ℕ) → length bs < n → skip n bs ≡ none
skip_beyond n bs h = rw (leb-eq-false n (length bs) h)

instance abbrev pub buf : BufCrate
buf = record {
  get_u8 = read_u8;
  advance = skip;
  get_u8-nil = refl;
  get_u8-cons = λ b bs. refl;
  advance_within = skip_within;
  advance_beyond = skip_beyond;
}

abbrev pub read_uint : List ℕ → Option ℕ
read_uint bs = if leb (length bs) 32 then some (be_value bs) else none

pub read_uint_within : (bs : List ℕ) → length bs ≤ 32 → read_uint bs ≡ some (be_value bs)
read_uint_within bs h = rw (le→leb (length bs) 32 h)

pub read_uint_beyond : (bs : List ℕ) → 32 < length bs → read_uint bs ≡ none
read_uint_beyond bs h = rw (leb-eq-false (length bs) 32 h)

instance abbrev pub uint : UintCrate
uint = record {
  to_big_endian = be_bytes 32;
  from_big_endian = read_uint;
  checked_sub = λ a b. if leb b a then some (a - b) else none;
  add = λ a b. if ltb (a + b) u256_mod then some (a + b) else none;
  sub = λ a b. if leb b a then some (a - b) else none;
  mul = λ a b. if ltb (a * b) u256_mod then some (a * b) else none;
  div = λ a b. some (a / b);
  as_u64 = λ n. if ltb n (2 ^ 64) then some n else none;
  to_big_endian_lem = λ n h. refl;
  from_big_endian_within = read_uint_within;
  from_big_endian_beyond = read_uint_beyond;
  checked_sub_lem = λ a b. refl;
  add_lem = λ a b. refl;
  sub_lem = λ a b. refl;
  mul_lem = λ a b. refl;
  div_lem = λ a b h. refl;
  as_u64_lem = λ n. refl;
}

abbrev pub copy_slice : ℕ → List ℕ → Option (List ℕ)
copy_slice n bs = if length bs == n then some bs else none

pub copy_slice_fits : (n : ℕ) (bs : List ℕ) → length bs ≡ n → copy_slice n bs ≡ some bs
copy_slice_fits n bs h = rw (h, ==_self n)

instance abbrev pub fixed_hash : FixedHashCrate
fixed_hash = record { from_slice = copy_slice; from_slice_fits = copy_slice_fits }

instance abbrev pub array_vec : ArrayVecCrate
array_vec = record {
  try_extend_from_slice = λ cap v s. if leb (length v + length s) cap then some (v ++ s) else none;
  from_iter = λ cap xs. if leb (length xs) cap then some xs else none;
  try_extend_lem = λ cap v s. refl;
  from_iter_lem = λ cap xs. refl;
}
