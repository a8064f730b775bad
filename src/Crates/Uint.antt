-- ===== src/Crates/Uint.antt =====
-- `ethereum_types`: a U256 is the number that it stands for, an H256 or an Address its bytes.
use erigon_db.Prelude.{
  ℕ, ◌+◌, ◌-◌, ◌*◌, ◌/◌, ◌^◌, ◌≤◌, ◌<◌, ◌≡◌, Option, none, some, List, length, replicate,
}
use erigon_db.Prelude.{leb, ltb, if◌then◌else◌}
use erigon_db.Prelude.Digits.{be_bytes, be_value}

abbrev pub u256_mod : ℕ
u256_mod = 2 ^ 256

-- The conversions of U256 to and from 32 bytes, its checked subtraction, and its operators and
-- `as_u64`, which panic on an overflow.
pub record UintCrate : Type 0 where
  pub to_big_endian : ℕ → List ℕ
  pub from_big_endian : List ℕ → Option ℕ
  pub checked_sub : ℕ → ℕ → Option ℕ
  pub add : ℕ → ℕ → Option ℕ
  pub sub : ℕ → ℕ → Option ℕ
  pub mul : ℕ → ℕ → Option ℕ
  pub div : ℕ → ℕ → Option ℕ
  pub as_u64 : ℕ → Option ℕ
  pub to_big_endian_lem : (n : ℕ) → n < u256_mod → to_big_endian n ≡ be_bytes 32 n
  pub from_big_endian_within :
      (bs : List ℕ) → length bs ≤ 32 → from_big_endian bs ≡ some (be_value bs)
  pub from_big_endian_beyond : (bs : List ℕ) → 32 < length bs → from_big_endian bs ≡ none
  pub checked_sub_lem : (a b : ℕ) → checked_sub a b ≡ (if leb b a then some (a - b) else none)
  pub add_lem : (a b : ℕ) → add a b ≡ (if ltb (a + b) u256_mod then some (a + b) else none)
  pub sub_lem : (a b : ℕ) → sub a b ≡ (if leb b a then some (a - b) else none)
  pub mul_lem : (a b : ℕ) → mul a b ≡ (if ltb (a * b) u256_mod then some (a * b) else none)
  pub div_lem : (a b : ℕ) → 0 < b → div a b ≡ some (a / b)
  pub as_u64_lem : (n : ℕ) → as_u64 n ≡ (if ltb n (2 ^ 64) then some n else none)

-- `from_slice` of a fixed hash of `n` bytes, which panics on a slice of another length.
pub record FixedHashCrate : Type 0 where
  pub from_slice : ℕ → List ℕ → Option (List ℕ)
  pub from_slice_fits : (n : ℕ) (bs : List ℕ) → length bs ≡ n → from_slice n bs ≡ some bs

abbrev pub H256 : Type 0
H256 = List ℕ

abbrev pub Address : Type 0
Address = List ℕ

abbrev pub IsH256 : H256 → Type 0
IsH256 h = length h ≡ 32

abbrev pub IsAddress : Address → Type 0
IsAddress a = length a ≡ 20

-- `H256::default()`
abbrev pub zero_hash : H256
zero_hash = replicate 32 0
