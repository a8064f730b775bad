-- ===== src/Models/Account/Stored.antt =====
-- The record of an account that leaves out the fields that are zero, as Erigon stores it, decodes to it.
use erigon_db.Prelude.{
  ℕ, ◌^◌, ◌<◌, ◌≡◌, ap, ◌∙◌, inl, inr, Option, none, some, List, [], length, arith, ◌==◌,
  if◌then◌else◌, Bool-cases, bytes_eq, bytes_eq→eq, append-nil, ==_iff, sym,
}
use erigon_db.Prelude.Digits.{
  be_bytes, strip_zeros, be_value-be_bytes, be_value-strip_zeros, length-strip_zeros,
  length-be_bytes,
}
use erigon_db.Outcome.{ok}
use erigon_db.Crates.{BufCrate, UintCrate, FixedHashCrate, H256, IsH256, zero_hash}
use erigon_db.Models.Account.{Account, decode_account}
use erigon_db.Models.Account.Format.{
  Fields, IsWellFormed, AtMost, number, hash, account, format, decode-format,
}

-- A number that is not 0, without leading zeros.
abbrev pub number_field : ℕ → ℕ → Option (List ℕ)
number_field w n = if n == 0 then none else some (strip_zeros (be_bytes w n))

abbrev pub hash_field : H256 → Option (List ℕ)
hash_field h = if bytes_eq h zero_hash then none else some h

abbrev pub stored : Account → Fields
stored a = record {
  nonce = number_field 8 a.nonce;
  balance = number_field 32 a.balance;
  incarnation = number_field 8 a.incarnation;
  codehash = hash_field a.codehash;
}

pub record IsAccount (a : Account) : Type 0 where
  pub nonce_range : a.nonce < 256 ^ 8
  pub incarnation_range : a.incarnation < 256 ^ 8
  pub balance_range : a.balance < 256 ^ 32
  pub codehash_length : IsH256 a.codehash

number-number_field : (w n : ℕ) → n < 256 ^ w → number (number_field w n) ≡ n
number-number_field w n h = elim (Bool-cases (n == 0)) [
  | inl zero_n ↦ rw zero_n (sym ((==_iff n 0).0 zero_n))
  | inr pos_n ↦ rw pos_n (be_value-strip_zeros (be_bytes w n) ∙ be_value-be_bytes w n h)
]

pub AtMost-number_field : (w n : ℕ) → AtMost w (number_field w n)
AtMost-number_field w n = elim (Bool-cases (n == 0)) [
  | inl zero_n ↦ rw zero_n tt
  | inr pos_n ↦ rw pos_n (omega (arith, length-strip_zeros (be_bytes w n), length-be_bytes w n))
]

hash-hash_field : (h : H256) → hash (hash_field h) ≡ h
hash-hash_field h = elim (Bool-cases (bytes_eq h zero_hash)) [
  | inl zero_h ↦ rw zero_h (sym (bytes_eq→eq h zero_hash zero_h))
  | inr other ↦ rw other
]

pub length-hash_field :
    (h : H256) → IsH256 h → (bs : List ℕ) → hash_field h ≡ some bs → length bs ≡ 32
length-hash_field h v bs e = ground arith

pub account-stored : (a : Account) → IsAccount a → account (stored a) ≡ a
account-stored a h = λ i. record {
  nonce = number-number_field 8 a.nonce h.nonce_range i;
  incarnation = number-number_field 8 a.incarnation h.incarnation_range i;
  balance = number-number_field 32 a.balance h.balance_range i;
  codehash = hash-hash_field a.codehash i;
}

pub stored-IsWellFormed : (a : Account) → IsAccount a → IsWellFormed (stored a)
stored-IsWellFormed a h = record {
  nonce_fits = AtMost-number_field 8 a.nonce;
  balance_fits = AtMost-number_field 32 a.balance;
  incarnation_fits = AtMost-number_field 8 a.incarnation;
  codehash_fits = length-hash_field a.codehash h.codehash_length;
}

-- Every account in range decodes from its record that leaves out the fields that are zero.
pub decode-stored :
    ⦃b : BufCrate⦄ ⦃u : UintCrate⦄ ⦃f : FixedHashCrate⦄ (a : Account)
    → IsAccount a
    → decode_account (format (stored a)) ≡ ok a
decode-stored a h =
    ap decode_account (sym (append-nil (format (stored a))))
    ∙ decode-format (stored a) [] (stored-IsWellFormed a h)
    ∙ ap ok (account-stored a h)
