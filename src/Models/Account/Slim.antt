-- ===== src/Models/Account/Slim.antt =====
-- The form in which a change set has an account: a contract's code hash is left out.
use erigon_db.Prelude.{
  ℕ, ◌+◌, ◌≤◌, ◌≡◌, refl, ◌∙◌, inl, inr, Option, none, some, Bool, bytes_eq_self, true, false, List,
  [], ◌++◌, length, arith, ltb, le→leb, if◌then◌else◌, Bool-cases, length-append, bytes_eq,
}
use erigon_db.Outcome.{ok}
use erigon_db.Crates.{
  BufCrate, UintCrate, FixedHashCrate, ArrayVecCrate, Address, IsAddress, zero_hash,
}
use erigon_db.Macros.Tuples.{tuple_key2-decode_append}
use erigon_db.Kv.Values.{address_type}
use erigon_db.Kv.Values.RoundTrip.{address_decodes}
use erigon_db.Models.Account.{Account, default, account_type, account_cs_val, set_codehash}
use erigon_db.Models.Account.Format.{AtMost, field, format, decode_account-nil}
use erigon_db.Models.Account.Stored.{
  stored, IsAccount, account-stored, stored-IsWellFormed, number_field, hash_field,
  AtMost-number_field,
}
use erigon_db.Models.Account.Malformed.{account_cs_val_lem}

abbrev pub slim : Account → Account
slim a = if ltb 0 a.incarnation then set_codehash a zero_hash else a

zero-IsAccount : (a : Account) → IsAccount a → IsAccount (set_codehash a zero_hash)
zero-IsAccount a h = record {
  nonce_range = h.nonce_range;
  incarnation_range = h.incarnation_range;
  balance_range = h.balance_range;
  codehash_length = refl;
}

slim-IsAccount : (a : Account) → IsAccount a → IsAccount (slim a)
slim-IsAccount a h = elim (Bool-cases (ltb 0 a.incarnation)) [
  | inl contract ↦ rw contract (zero-IsAccount a h)
  | inr plain ↦ rw plain h
]

AtMost-hash_field : (a : Account) → IsAccount a → AtMost 32 (hash_field a.codehash)
AtMost-hash_field a h = elim (Bool-cases (bytes_eq a.codehash zero_hash)) [
  | inl zero ↦ rw zero tt
  | inr other ↦ rw other (omega (arith, h.codehash_length))
]

length-field : (w : ℕ) (o : Option (List ℕ)) → AtMost w o → length (field o) ≤ 1 + w
length-field w none h = omega arith
length-field w (some bs) h = omega arith

length-format :
    (a : Account)
    → IsAccount a
    → (c : ℕ)
    → length (field (number_field 8 a.incarnation)) + length (field (hash_field a.codehash)) ≤ c
    → length (format (stored a)) ≤ 43 + c
length-format a h c rest = simp length-append (
    omega (
      arith,
      rest,
      length-field 8 (number_field 8 a.nonce) (AtMost-number_field 8 a.nonce),
      length-field 32 (number_field 32 a.balance) (AtMost-number_field 32 a.balance),
    ))

-- So it takes at most 80 bytes.
length-slim : (a : Account) → IsAccount a → length (format (stored (slim a))) ≤ 80
length-slim a h = by_kind (ltb 0 a.incarnation) refl
  where
    none_left : length (field (hash_field zero_hash)) ≡ 0
    none_left = rw (bytes_eq_self zero_hash)

    no_number : a.incarnation ≡ 0 → length (field (number_field 8 a.incarnation)) ≡ 0
    no_number e = rw e refl

    by_kind :
        (contract : Bool)
        → ltb 0 a.incarnation ≡ contract
        → length (format (stored (if contract then set_codehash a zero_hash else a))) ≤ 80
    by_kind true e = omega (
      arith,
      length-format (set_codehash a zero_hash) (zero-IsAccount a h) 9 (
          omega (
            arith,
            none_left,
            length-field 8 (number_field 8 a.incarnation) (AtMost-number_field 8 a.incarnation),
          )),
    )
    by_kind false e = omega (
      arith,
      length-format a h 33 (
          omega (
            arith,
            no_number (ground arith),
            length-field 32 (hash_field a.codehash) (AtMost-hash_field a h),
          )),
    )

-- The entry of a change set decodes to its address and that form of its account.
pub decode-slim :
    ⦃b : BufCrate⦄ ⦃u : UintCrate⦄ ⦃f : FixedHashCrate⦄ ⦃v : ArrayVecCrate⦄ (adr : Address)
    (a : Account)
    → IsAddress adr
    → IsAccount a
    → account_cs_val.decode (adr ++ format (stored (slim a))) ≡ ok (adr, slim a)
decode-slim adr a ha h =
    account_cs_val_lem adr (stored (slim a)) ha (stored-IsWellFormed (slim a) (slim-IsAccount a h))
    ∙ rw (
      le→leb (length (format (stored (slim a)))) 80 (length-slim a h),
      account-stored (slim a) (slim-IsAccount a h),
    )

-- An account that may not exist, as the decoder returns it: then it is the default account.
abbrev pub or_default : Option Account → Account
or_default none = default
or_default (some a) = a

pub or_default-IsAccount :
    (o : Option Account) → ((a : Account) → o ≡ some a → IsAccount a) → IsAccount (or_default o)
or_default-IsAccount none h = record {
  nonce_range = omega arith;
  incarnation_range = omega arith;
  balance_range = omega arith;
  codehash_length = refl;
}
or_default-IsAccount (some a) h = h a refl

-- What a change set has of an account: no bytes where it did not exist before the change.
abbrev pub change_record : Option Account → List ℕ
change_record none = []
change_record (some a) = format (stored (slim a))

pub decode-change_record :
    ⦃b : BufCrate⦄ ⦃u : UintCrate⦄ ⦃f : FixedHashCrate⦄ ⦃v : ArrayVecCrate⦄ (adr : Address)
    (o : Option Account)
    → IsAddress adr
    → ((a : Account) → o ≡ some a → IsAccount a)
    → account_cs_val.decode (adr ++ change_record o) ≡ ok (adr, slim (or_default o))
unfolding account_cs_val account_type address_type
decode-change_record adr none ha h =
    tuple_key2-decode_append address_type account_type adr default adr [] (address_decodes adr ha)
      decode_account-nil ha (omega arith)
decode-change_record adr (some a) ha h = decode-slim adr a ha (h a refl)
