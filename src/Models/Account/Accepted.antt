-- ===== src/Models/Account/Accepted.antt =====
-- Which bytes the decoder of accounts accepts.
use erigon_db.Prelude.{
  ℕ, ◌≡◌, refl, sym, ap, ◌∙◌, ◌⊎◌, inl, inr, Bool, true, false, ◌==◌, ==_iff, Bool-cases, Option,
  none, some, List, [], ◌∷◌, ◌++◌, length, take, drop, length-take, take-append-drop, leb, leb→le,
  arith, if◌then◌else◌,
}
use erigon_db.Outcome.{Error, rlp, Outcome, ok, err, panic, ◌>>=◌, or_panic, map_err}
use erigon_db.Crates.{BufCrate, UintCrate, FixedHashCrate, H256, zero_hash}
use erigon_db.Utils.{take_u64_rlp, slice_to}
use erigon_db.Utils.Numbers.{take_u64_rlp_lem, prefixed_u64}
use erigon_db.Models.Account.{
  Account, default, has, read_balance, read_codehash, read_fields, decode_account,
}
use erigon_db.Models.Account.Format.{
  Fields, IsWellFormed, AtMost, field, is_some, number, hash, account, read_fields-format,
}

-- A result, if there is one, has the property.
abbrev Ensures : {E A : Type 0} → (A → Type 0) → Outcome E A → Type 0
Ensures P (ok a) = P a
Ensures P (err e) = Unit {0}
Ensures P panic = Unit {0}

Ensures-bind :
    {E A B : Type 0} (P : A → Type 0) (Q : B → Type 0) (o : Outcome E A) (f : A → Outcome E B)
    → Ensures P o
    → ((a : A) → P a → Ensures Q (f a))
    → Ensures Q (o >>= f)
Ensures-bind P Q (ok a) f h k = k a h
Ensures-bind P Q (err e) f h k = tt
Ensures-bind P Q panic f h k = tt

Ensures-map_err :
    {E F A : Type 0} (P : A → Type 0) (g : E → F) (o : Outcome E A)
    → Ensures P o
    → Ensures P (map_err g o)
Ensures-map_err P g (ok a) h = h
Ensures-map_err P g (err e) h = tt
Ensures-map_err P g panic h = tt

-- A number was read from a field of at most `w` bytes, or is 0 where the field is not present.
abbrev ReadsNumber : ℕ → Bool → List ℕ → ℕ × List ℕ → Type 0
ReadsNumber w present buf p =
    (o : Option (List ℕ)) × (present ≡ is_some o)
    × AtMost w o
    × (buf ≡ field o ++ p.1)
    × (p.0 ≡ number o)

abbrev ReadsHash : Bool → List ℕ → H256 × List ℕ → Type 0
ReadsHash present buf p =
    (o : Option (List ℕ)) × (present ≡ is_some o)
    × ((bs : List ℕ) → o ≡ some bs → length bs ≡ 32)
    × (buf ≡ field o ++ p.1)
    × (p.0 ≡ hash o)

-- A field that may be left out.
optional :
    {A : Type 0} (P : Bool → A → Type 0) (present : Bool) (o : Outcome Error A) (a : A)
    → Ensures (P true) o
    → P false a
    → Ensures (P present) (if present then o else ok a)
optional P true o a h k = h
optional P false o a h k = k

-- The bytes of a field and what follows it.
split_field :
    (len : ℕ) (bs : List ℕ)
    → length (take len bs) ≡ len
    → len ∷ bs ≡ field (some (take len bs)) ++ drop len bs
split_field len bs n = ap (λ xs. len ∷ xs) (sym (take-append-drop len bs)) ∙ rw n refl

length_within : (len : ℕ) (bs : List ℕ) → leb len (length bs) ≡ true → length (take len bs) ≡ len
length_within len bs within = omega (arith, length-take {0} len bs, leb→le _ _ within)

module _ ⦃b : BufCrate⦄ where
  u64-Ensures : (buf : List ℕ) → Ensures (ReadsNumber 8 true buf) (take_u64_rlp buf)
  u64-Ensures buf = rw (take_u64_rlp_lem buf) (prefixed buf)
    where
      prefixed : (buf : List ℕ) → Ensures (ReadsNumber 8 true buf) (prefixed_u64 buf)
      prefixed [] = tt
      prefixed (len ∷ bs) = elim (Bool-cases (leb len 8)) [
        | inr long ↦ rw long tt
        | inl fits ↦ elim (Bool-cases (leb len (length bs))) [
          | inr short ↦ rw (fits, short) tt
          | inl within ↦
              let n = length_within len bs within in
              rw (fits, within)
                (
                  some (take len bs),
                  refl,
                  omega (arith, n, leb→le _ _ fits),
                  split_field len bs n,
                  refl,
                )
        ]
      ]

  balance-Ensures :
      ⦃u : UintCrate⦄ (buf : List ℕ) → Ensures (ReadsNumber 32 true buf) (read_balance buf)
  unfolding read_balance slice_to
  balance-Ensures [] = rw b.get_u8-nil tt
  balance-Ensures ⦃u⦄ (len ∷ bs) =
      rw (b.get_u8-cons len bs) (elim (Bool-cases (leb len (length bs))) [
        | inr short ↦ rw short tt
        | inl within ↦ rw within (value (Bool-cases (leb (length (take len bs)) 32)) within)
      ])
    where
      value :
          (leb (length (take len bs)) 32 ≡ true) ⊎ (leb (length (take len bs)) 32 ≡ false)
          → leb len (length bs) ≡ true
          → Ensures {E = Error} (ReadsNumber 32 true (len ∷ bs)) (do
            balance ← or_panic (u.from_big_endian (take len bs))
            buf2 ← or_panic (b.advance len bs)
            ok (balance, buf2))
      value (inl short) within =
          rw
            (
              u.from_big_endian_within (take len bs) (leb→le _ _ short),
              b.advance_within len bs (leb→le _ _ within),
            )
            (
              some (take len bs),
              refl,
              leb→le _ _ short,
              split_field len bs (length_within len bs within),
              refl,
            )
      value (inr long) within = rw (u.from_big_endian_beyond (take len bs) (ground arith)) tt

  codehash-Ensures :
      ⦃f : FixedHashCrate⦄ (buf : List ℕ) → Ensures (ReadsHash true buf) (read_codehash buf)
  unfolding read_codehash slice_to
  codehash-Ensures [] = rw b.get_u8-nil tt
  codehash-Ensures ⦃f⦄ (len ∷ bs) = rw (b.get_u8-cons len bs) (elim (Bool-cases (len == 32)) [
    | inr other ↦ rw other tt
    | inl right ↦ rw right (elim (Bool-cases (leb 32 (length bs))) [
      | inr short ↦ rw short tt
      | inl within ↦
          let n : length (take 32 bs) ≡ 32 = length_within 32 bs within in
          rw
            (
              within,
              f.from_slice_fits 32 (take 32 bs) n,
              b.advance_within 32 bs (leb→le _ _ within),
            )
            (
              some (take 32 bs),
              refl,
              (λ cs e. omega (arith, n, ap length (some_bytes e))),
              ap (λ x. x ∷ bs) ((==_iff len 32).0 right) ∙ split_field 32 bs n,
              refl,
            )
    ])
  ])
    where
      some_bytes : {xs ys : List ℕ} → some xs ≡ some ys → xs ≡ ys
      some_bytes e = cc

-- Behind a first byte stand the fields whose bits are set in it, each of a length that its type has
-- room for, and then anything; the account has the numbers and the hash of these fields.
pub record IsRecord (fieldset : ℕ) (buf : List ℕ) (a : Account) : Type 0 where
  pub fields : Fields
  pub rest : List ℕ
  pub nonce_bit : has fieldset 1 ≡ is_some fields.nonce
  pub balance_bit : has fieldset 2 ≡ is_some fields.balance
  pub incarnation_bit : has fieldset 4 ≡ is_some fields.incarnation
  pub codehash_bit : has fieldset 8 ≡ is_some fields.codehash
  pub well_formed : IsWellFormed fields
  pub is_buf :
      buf
      ≡ field fields.nonce
        ++ (field fields.balance ++ (field fields.incarnation ++ (field fields.codehash ++ rest)))
  pub is_account : a ≡ account fields

-- No bytes for the default account, or the bytes of a record.
abbrev pub StoresAccount : List ℕ → Account → Type 0
StoresAccount [] a = a ≡ default
StoresAccount (fieldset ∷ buf) a = IsRecord fieldset buf a

module _ ⦃b : BufCrate⦄ ⦃u : UintCrate⦄ ⦃f : FixedHashCrate⦄ where
  fields-Ensures :
      (fieldset : ℕ) (buf : List ℕ) → Ensures (IsRecord fieldset buf) (read_fields fieldset buf)
  unfolding read_fields
  fields-Ensures fieldset buf =
      Ensures-bind (ReadsNumber 8 (has fieldset 1) buf) (IsRecord fieldset buf) _ _
        (optional (λ z. ReadsNumber 8 z buf) (has fieldset 1) _ (0, buf)
          (Ensures-map_err (ReadsNumber 8 true buf) rlp _ (u64-Ensures buf))
          (none, refl, tt, refl, refl))
        λ p1 (o1, h1, l1, b1, v1).
          Ensures-bind (ReadsNumber 32 (has fieldset 2) p1.1) (IsRecord fieldset buf) _ _
            (optional (λ z. ReadsNumber 32 z p1.1) (has fieldset 2) _ (0, p1.1)
              (balance-Ensures p1.1) (none, refl, tt, refl, refl))
            λ p2 (o2, h2, l2, b2, v2).
              Ensures-bind (ReadsNumber 8 (has fieldset 4) p2.1) (IsRecord fieldset buf) _ _
                (optional (λ z. ReadsNumber 8 z p2.1) (has fieldset 4) _ (0, p2.1)
                  (Ensures-map_err (ReadsNumber 8 true p2.1) rlp _ (u64-Ensures p2.1))
                  (none, refl, tt, refl, refl))
                λ p3 (o3, h3, l3, b3, v3).
                  Ensures-bind (ReadsHash (has fieldset 8) p3.1) (IsRecord fieldset buf) _ _
                    (optional (λ z. ReadsHash z p3.1) (has fieldset 8) _ (zero_hash, p3.1)
                      (codehash-Ensures p3.1) (none, refl, (λ bs e. absurd (absent e)), refl, refl))
                    λ p4 (o4, h4, l4, b4, v4). record {
                      fields = record { nonce = o1; balance = o2; incarnation = o3; codehash = o4 };
                      rest = p4.1;
                      nonce_bit = h1;
                      balance_bit = h2;
                      incarnation_bit = h3;
                      codehash_bit = h4;
                      well_formed = record {
                        nonce_fits = l1;
                        balance_fits = l2;
                        incarnation_fits = l3;
                        codehash_fits = l4;
                      };
                      is_buf = rw (b1, b2, b3, b4) refl;
                      is_account = λ i. record {
                        nonce = v1 i;
                        balance = v2 i;
                        incarnation = v3 i;
                        codehash = v4 i;
                      };
                    }
    where
      absent : {bs : List ℕ} → ◌≡◌ {A = Option (List ℕ)} none (some bs) → ⊥
      absent e = cc

  read_record :
      (fieldset : ℕ) (buf : List ℕ) (a : Account)
      → IsRecord fieldset buf a
      → read_fields fieldset buf ≡ ok a
  read_record fieldset buf a h =
      rw (h.is_buf, h.is_account)
        (read_fields-format fieldset h.fields h.rest h.nonce_bit h.balance_bit h.incarnation_bit
          h.codehash_bit h.well_formed)

  -- The decoder returns an account just where the bytes store it: no bytes for the default account, else a
  -- first byte, the fields whose bits are set in it, in the order of the bits, each behind its length,
  -- which is at most 8 for nonce and incarnation, at most 32 for the balance and 32 for the code hash,
  -- and then anything.
  pub decode_account_accepts :
      (buf : List ℕ) (a : Account)
      → (decode_account buf ≡ ok a → StoresAccount buf a)
        × (StoresAccount buf a → decode_account buf ≡ ok a)
  unfolding decode_account
  decode_account_accepts [] a = (λ e. cc, λ e. ap ok (sym e))
  decode_account_accepts (fieldset ∷ buf) a = (
    λ e.
        let read : read_fields fieldset buf ≡ ok a = rw (b.get_u8-cons fieldset buf) at e in
        rw read at (fields-Ensures fieldset buf),
    λ h. rw (b.get_u8-cons fieldset buf) (read_record fieldset buf a h),
  )
