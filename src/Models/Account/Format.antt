-- ===== src/Models/Account/Format.antt =====
-- The storage format of an account, described on its own, and that the decoder reads it.
use erigon_db.Prelude.{
  ℕ, ◌+◌, ◌≤◌, ◌≡◌, refl, ap, ◌∙◌, leb→le, Option, none, some, Bool, true, false, List, [], ◌∷◌,
  ◌++◌, length, arith, take-append, drop-append, length-append, le→leb, leb, if◌then◌else◌,
  append_assoc,
}
use erigon_db.Prelude.Digits.{be_value}
use erigon_db.Outcome.{Error, rlp, ok, map_err}
use erigon_db.Crates.{BufCrate, UintCrate, FixedHashCrate, H256, zero_hash}
use erigon_db.Utils.{take_u64_rlp, slice_to}
use erigon_db.Utils.Numbers.{take_u64_rlp_lem}
use erigon_db.Models.Account.{
  Account, default, has, read_balance, read_codehash, read_fields, decode_account,
}

-- The bytes of each field that is present.
pub record Fields : Type 0 where
  pub nonce : Option (List ℕ)
  pub balance : Option (List ℕ)
  pub incarnation : Option (List ℕ)
  pub codehash : Option (List ℕ)

-- A field is its length and its bytes.
abbrev pub field : Option (List ℕ) → List ℕ
field none = []
field (some bs) = length bs ∷ bs

abbrev pub flag : ℕ → Option (List ℕ) → ℕ
flag n none = 0
flag n (some bs) = n

-- The first byte says which fields there are, in the order of their bits.
abbrev pub format : Fields → List ℕ
format r =
    (flag 1 r.nonce + flag 2 r.balance + flag 4 r.incarnation + flag 8 r.codehash)
    ∷ (field r.nonce ++ (field r.balance ++ (field r.incarnation ++ field r.codehash)))

abbrev pub number : Option (List ℕ) → ℕ
number none = 0
number (some bs) = be_value bs

abbrev pub hash : Option (List ℕ) → H256
hash none = zero_hash
hash (some bs) = bs

abbrev pub account : Fields → Account
account r = record {
  nonce = number r.nonce;
  incarnation = number r.incarnation;
  balance = number r.balance;
  codehash = hash r.codehash;
}

abbrev pub AtMost : ℕ → Option (List ℕ) → Type 0
AtMost n none = Unit {0}
AtMost n (some bs) = length bs ≤ n

pub record IsWellFormed (r : Fields) : Type 0 where
  pub nonce_fits : AtMost 8 r.nonce
  pub balance_fits : AtMost 32 r.balance
  pub incarnation_fits : AtMost 8 r.incarnation
  pub codehash_fits : (bs : List ℕ) → r.codehash ≡ some bs → length bs ≡ 32

abbrev pub is_some : Option (List ℕ) → Bool
is_some none = false
is_some (some bs) = true

pub flags :
    (n b i c : Option (List ℕ))
    → let fs = flag 1 n + flag 2 b + flag 4 i + flag 8 c in
      (has fs 1 ≡ is_some n)
      × (has fs 2 ≡ is_some b)
      × (has fs 4 ≡ is_some i)
      × (has fs 8 ≡ is_some c)
flags n b i c = ground arith

fits_front : (bs rest : List ℕ) → leb (length bs) (length (bs ++ rest)) ≡ true
fits_front bs rest = le→leb _ _ (rw length-append (omega arith))

slice_to-front : (bs rest : List ℕ) → slice_to {E = Error} (length bs) (bs ++ rest) ≡ ok bs
unfolding slice_to
slice_to-front bs rest = rw (fits_front bs rest) (ap ok (take-append bs rest (length bs) refl))

module _ ⦃b : BufCrate⦄ where
  pub number_read :
      (o : Option (List ℕ)) (rest : List ℕ)
      → AtMost 8 o
      → (if is_some o
          then map_err rlp (take_u64_rlp (field o ++ rest))
          else ok (0, field o ++ rest))
        ≡ ok (number o, rest)
  number_read none rest h = refl
  number_read (some bs) rest h = rw (
    take_u64_rlp_lem (length bs ∷ bs ++ rest),
    le→leb _ _ h,
    fits_front bs rest,
    take-append bs rest (length bs) refl,
    drop-append bs rest (length bs) refl,
  )

  advance_front : (bs rest : List ℕ) → b.advance (length bs) (bs ++ rest) ≡ some rest
  advance_front bs rest =
      b.advance_within (length bs) (bs ++ rest) (leb→le _ _ (fits_front bs rest))
      ∙ ap some (drop-append bs rest (length bs) refl)

  pub balance_read :
      ⦃u : UintCrate⦄ (o : Option (List ℕ)) (rest : List ℕ)
      → AtMost 32 o
      → (if is_some o then read_balance (field o ++ rest) else ok (0, field o ++ rest))
        ≡ ok (number o, rest)
  unfolding read_balance
  balance_read none rest h = refl
  balance_read ⦃u⦄ (some bs) rest h = rw (
    b.get_u8-cons (length bs) (bs ++ rest),
    slice_to-front bs rest,
    u.from_big_endian_within bs h,
    advance_front bs rest,
  )

  pub codehash_read :
      ⦃f : FixedHashCrate⦄ (o : Option (List ℕ)) (rest : List ℕ)
      → ((bs : List ℕ) → o ≡ some bs → length bs ≡ 32)
      → (if is_some o then read_codehash (field o ++ rest) else ok (zero_hash, field o ++ rest))
        ≡ ok (hash o, rest)
  unfolding read_codehash
  codehash_read none rest h = refl
  codehash_read ⦃f⦄ (some bs) rest h =
      let n : length bs ≡ 32 = h bs refl in
      rw (b.get_u8-cons (length bs) (bs ++ rest), n)
        (rw (
          ← n,
          slice_to-front bs rest,
          f.from_slice_fits (length bs) bs refl,
          advance_front bs rest,
        ))

module _ ⦃b : BufCrate⦄ ⦃u : UintCrate⦄ ⦃f : FixedHashCrate⦄ where
  -- The fields of a record are read where the bits of its first byte say which there are.
  pub read_fields-format :
      (fieldset : ℕ) (r : Fields) (rest : List ℕ)
      → has fieldset 1 ≡ is_some r.nonce
      → has fieldset 2 ≡ is_some r.balance
      → has fieldset 4 ≡ is_some r.incarnation
      → has fieldset 8 ≡ is_some r.codehash
      → IsWellFormed r
      → read_fields fieldset (
          field r.nonce ++ (field r.balance ++ (field r.incarnation ++ (field r.codehash ++ rest))))
        ≡ ok (account r)
  unfolding read_fields
  read_fields-format fieldset r rest f1 f2 f4 f8 h = rw (
    f1,
    f2,
    f4,
    f8,
    number_read r.nonce _ h.nonce_fits,
    balance_read r.balance _ h.balance_fits,
    number_read r.incarnation _ h.incarnation_fits,
    codehash_read r.codehash rest h.codehash_fits,
  )

  -- The decoder reads the account that a well-formed record stores, and ignores what follows it.
  pub decode-format :
      (r : Fields) (rest : List ℕ)
      → IsWellFormed r
      → decode_account (format r ++ rest) ≡ ok (account r)
  unfolding decode_account
  decode-format r rest h =
      let (f1, f2, f4, f8) = flags r.nonce r.balance r.incarnation r.codehash in
      rw (b.get_u8-cons _ _, append_assoc, append_assoc, append_assoc)
        (read_fields-format _ r rest f1 f2 f4 f8 h)

  -- No bytes at all are the empty account.
  pub decode_account-nil : decode_account [] ≡ ok default
  unfolding decode_account
  decode_account-nil = refl
