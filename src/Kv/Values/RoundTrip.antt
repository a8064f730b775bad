-- ===== src/Kv/Values/RoundTrip.antt =====
-- Every basic value decodes from its encoding.
use erigon_db.Prelude.{
  ℕ, ◌+◌, ◌-◌, ◌^◌, ◌≤◌, ◌<◌, ◌≡◌, refl, ap, ◌∙◌, List, [], ◌++◌, length, replicate, arith,
  length-append, length-replicate, take-append, drop-append, le→leb, ltb-eq-false, ==_self, leb,
  true,
}
use erigon_db.Prelude.Digits.{
  be_bytes, be_value, strip_zeros, length-be_bytes, be_value-be_bytes, be_value-strip_zeros,
  be_value-pad, length-strip_zeros,
}
use erigon_db.Outcome.{Error, ok}
use erigon_db.Utils.{slice_to}
use erigon_db.Crates.{
  UintCrate, FixedHashCrate, ArrayVecCrate, H256, Address, IsH256, IsAddress, u256_mod,
}
use erigon_db.Kv.Traits.{TableObject, RoundTrip, Fits, Fills}
use erigon_db.Kv.Values.{
  h256_type, u256_type, address_type, uint_type, slot_object, extend, pair_object, split_at,
}

abbrev pub IsU256 : ℕ → Type 0
IsU256 n = n < u256_mod

pub h256_type-Fills : ⦃f : FixedHashCrate⦄ → Fills h256_type IsH256
unfolding h256_type
h256_type-Fills ⦃f⦄ = record { trip = λ h v. (h, refl, rw (v, f.from_slice_fits 32 h v), v) }

pub address_type-Fills : ⦃f : FixedHashCrate⦄ → Fills address_type IsAddress
unfolding address_type
address_type-Fills ⦃f⦄ = record { trip = λ h v. (h, refl, rw (v, f.from_slice_fits 20 h v), v) }

pub address_decodes :
    ⦃f : FixedHashCrate⦄ (a : Address) → IsAddress a → address_type.decode a ≡ ok a
unfolding address_type
address_decodes ⦃f⦄ a h = rw (h, f.from_slice_fits 20 a h)

h256-size_of : ⦃f : FixedHashCrate⦄ → h256_type.size_of ≡ 32
unfolding h256_type
h256-size_of = refl

pub u256-size_of : ⦃u : UintCrate⦄ ⦃a : ArrayVecCrate⦄ → u256_type.size_of ≡ 32
unfolding u256_type
u256-size_of = refl

-- An integer of `w` bytes.
pub uint-Fills : (w : ℕ) → Fills (uint_type w) (λ n. n < 256 ^ w)
unfolding uint_type
uint-Fills w = record {
  trip = λ n v. (
    be_bytes w n,
    refl,
    rw (length-be_bytes w n, ==_self w) (ap ok (be_value-be_bytes w n v)),
    length-be_bytes w n,
  );
}

module _ ⦃a : ArrayVecCrate⦄ where
  -- `extend` appends where there is room.
  pub extend_within :
      (cap : ℕ) (out s : List ℕ) → length out + length s ≤ cap → extend cap out s ≡ ok (out ++ s)
  unfolding extend
  extend_within cap out s h = rw (a.try_extend_lem cap out s, le→leb _ _ h)

module _ ⦃u : UintCrate⦄ ⦃a : ArrayVecCrate⦄ where
  encode_u256-eq : (n : ℕ) → IsU256 n → u256_type.encode n ≡ ok (strip_zeros (be_bytes 32 n))
  unfolding u256_type
  encode_u256-eq n v =
      rw (
        u.to_big_endian_lem n v,
        a.from_iter_lem 32 (strip_zeros (be_bytes 32 n)),
        le→leb _ _ short,
      )
    where
      short : length (strip_zeros (be_bytes 32 n)) ≤ 32
      short = omega (arith, length-strip_zeros (be_bytes 32 n), length-be_bytes 32 n)

  -- Any bytes that fit decode to the big-endian number that they are.
  pub decode_u256-eq : (b : List ℕ) → length b ≤ 32 → u256_type.decode b ≡ ok (be_value b)
  unfolding u256_type
  decode_u256-eq b h =
      rw
        (
          ltb-eq-false 32 (length b) h,
          u.from_big_endian_within (replicate (32 - length b) 0 ++ b) padded,
        )
        (ap ok (be_value-pad (32 - length b) b))
    where
      padded : length (replicate (32 - length b) 0 ++ b) ≤ 32
      padded = rw length-append (omega (arith, length-replicate {A = ℕ} (32 - length b) 0))

  -- A U256 is encoded without leading zeros, in at most 32 bytes, and decodes to itself.
  pub u256_type-Fits : Fits u256_type IsU256
  unfolding u256_type
  u256_type-Fits = record {
    trip = λ n v.
        let short : length (strip_zeros (be_bytes 32 n)) ≤ 32 =
          omega (arith, length-strip_zeros (be_bytes 32 n), length-be_bytes 32 n) in
        (
          strip_zeros (be_bytes 32 n),
          encode_u256-eq n v,
          decode_u256-eq _ short
              ∙ ap ok (be_value-strip_zeros (be_bytes 32 n) ∙ be_value-be_bytes 32 n (omega arith)),
          short,
        );
  }

-- Cutting a concatenation where its first part ends.
pub split_at-append : (n : ℕ) (xs ys : List ℕ) → length xs ≡ n → split_at n (xs ++ ys) ≡ ok (xs, ys)
unfolding split_at
split_at-append n xs ys h = rw (enough, take-append xs ys n h, drop-append xs ys n h)
  where
    enough : leb n (length (xs ++ ys)) ≡ true
    enough = le→leb _ _ (rw length-append (omega arith))

slice_to-append :
    (n : ℕ) (xs ys : List ℕ) → length xs ≡ n → slice_to {E = Error} n (xs ++ ys) ≡ ok xs
unfolding slice_to
slice_to-append n xs ys h = rw (enough, take-append xs ys n h)
  where
    enough : leb n (length (xs ++ ys)) ≡ true
    enough = le→leb _ _ (rw length-append (omega arith))

module _ ⦃u : UintCrate⦄ ⦃a : ArrayVecCrate⦄ ⦃f : FixedHashCrate⦄ where
  -- A storage slot with its value takes 32 to 64 bytes, the slot first.
  pub slot_round_trip :
      (p : H256 × ℕ) → IsH256 p.0 → IsU256 p.1 → RoundTrip slot_object p (λ n. (32 ≤ n) × (n ≤ 64))
  unfolding slot_object
  slot_round_trip (h, v) hh hv =
      let (hb, he, hd, hl) = h256_type-Fills.trip h hh in
      let (vb, ve, vd, vl) = u256_type-Fits.trip v hv in
      let h32 : length hb ≡ 32 = omega (arith, hl, h256-size_of) in
      let v32 : length vb ≤ 32 = omega (arith, vl, u256-size_of) in
      let n : length (hb ++ vb) ≡ 32 + length vb = length-append hb vb ∙ omega arith in
      (
        hb ++ vb,
        rw (he, extend_within 64 [] hb (omega arith), ve, extend_within 64 hb vb (omega arith)),
        rw (
          n,
          ltb-eq-false 64 (32 + length vb) (omega arith),
          ltb-eq-false (32 + length vb) 32 (omega arith),
          split_at-append 32 hb vb h32,
          hd,
          vd,
        ),
        (omega arith, omega arith),
      )

module _ ⦃a : ArrayVecCrate⦄ {A B : Type 0} (ca : TableObject A) (cb : TableObject B)
    (a_len b_len : ℕ) where
  -- Two values that fill arrays of `a_len` and `b_len` bytes, at most 256 together, round trip as a
  -- pair in `a_len + b_len` bytes.
  pub pair_round_trip :
      (x : A) (y : B)
      → RoundTrip ca x (λ n. n ≡ a_len)
      → RoundTrip cb y (λ n. n ≡ b_len)
      → a_len + b_len ≤ 256
      → RoundTrip (pair_object ca cb a_len b_len) (x, y) (λ n. n ≡ a_len + b_len)
  unfolding pair_object
  pair_round_trip x y (xb, xe, xd, xl) (yb, ye, yd, yl) room =
      let n : length (xb ++ yb) ≡ a_len + b_len = length-append xb yb ∙ omega arith in
      (
        xb ++ yb,
        rw (xe, extend_within 256 [] xb (omega arith), ye, extend_within 256 xb yb (omega arith)),
        rw (
          n,
          ==_self (a_len + b_len),
          slice_to-append a_len xb yb xl,
          xd,
          drop-append xb yb a_len xl,
          yd,
        ),
        n,
      )
