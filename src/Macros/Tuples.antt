-- ===== src/Macros/Tuples.antt =====
-- Tuples round trip if their elements do: all but the last have to fill their sizes.
use erigon_db.Prelude.{
  ℕ, ◌+◌, ◌≤◌, ◌<◌, ◌≡◌, ◌∙◌, List, [], ◌++◌, length, arith, length-append, ltb-eq-false, max,
  append_assoc,
}
use erigon_db.Outcome.{ok}
use erigon_db.Crates.{ArrayVecCrate}
use erigon_db.Kv.Traits.{TableType, Fits, Fills}
use erigon_db.Kv.Values.RoundTrip.{extend_within, split_at-append}
use erigon_db.Macros.{tuple_key2, tuple_key3}
use erigon_db.Macros.Layout.{le-round_up}

module _ ⦃v : ArrayVecCrate⦄ {A B : Type 0} (t0 : TableType A) (t1 : TableType B) where
  -- The encoding of a pair is the concatenation of the encodings of its elements, where these fit
  -- `SIZE`.
  pub tuple_key2-append :
      (a : A) (b : B) (xb yb : List ℕ)
      → t0.encode a ≡ ok xb
      → t1.encode b ≡ ok yb
      → length xb + length yb ≤ t0.size_of + t1.size_of
      → (tuple_key2 t0 t1).encode (a, b) ≡ ok (xb ++ yb)
  unfolding tuple_key2
  tuple_key2-append a b xb yb xe ye room = rw (
    xe,
    extend_within (0 + t0.size_of + t1.size_of) [] xb (omega arith),
    ye,
    extend_within (0 + t0.size_of + t1.size_of) xb yb (omega arith),
  )

  -- Behind bytes that fill the first element's size, the rest is the second element's.
  pub tuple_key2-decode_append :
      (a : A) (b : B) (xb yb : List ℕ)
      → t0.decode xb ≡ ok a
      → t1.decode yb ≡ ok b
      → length xb ≡ t0.size_of
      → length yb ≤ t1.size_of
      → (tuple_key2 t0 t1).decode (xb ++ yb) ≡ ok (a, b)
  unfolding tuple_key2
  tuple_key2-decode_append a b xb yb xd yd xl yl = rw (
    length-append xb yb,
    ltb-eq-false (0 + t0.size_of + t1.size_of) (length xb + length yb) (omega arith),
    ltb-eq-false (length xb + length yb) t0.size_of (omega arith),
    split_at-append t0.size_of xb yb xl,
    xd,
    yd,
  )

  -- Pairs decode from their encodings if the elements do, the first of them filling its size.
  pub tuple_key2-Fits :
      {V0 : A → Type 0} {V1 : B → Type 0}
      → 0 < max t0.align_of t1.align_of
      → Fills t0 V0
      → Fits t1 V1
      → Fits (tuple_key2 t0 t1) (λ p. V0 p.0 × V1 p.1)
  tuple_key2-Fits al f0 f1 = record {
    trip = λ p h.
        let (xb, xe, xd, xl) = f0.trip p.0 h.0 in
        let (yb, ye, yd, yl) = f1.trip p.1 h.1 in
        let n : length (xb ++ yb) ≡ length xb + length yb = length-append xb yb in
        (
          xb ++ yb,
          tuple_key2-append p.0 p.1 xb yb xe ye (omega arith),
          tuple_key2-decode_append p.0 p.1 xb yb xd yd xl yl,
          unfold tuple_key2 in
              omega
                (arith, n, le-round_up (t0.size_of + t1.size_of) (max t0.align_of t1.align_of) al),
        );
  }

module _ ⦃v : ArrayVecCrate⦄ {A B C : Type 0} (t0 : TableType A) (t1 : TableType B)
    (t2 : TableType C) where
  pub tuple_key3-append :
      (a : A) (b : B) (c : C) (xb yb zb : List ℕ)
      → t0.encode a ≡ ok xb
      → t1.encode b ≡ ok yb
      → t2.encode c ≡ ok zb
      → length xb + length yb + length zb ≤ t0.size_of + t1.size_of + t2.size_of
      → (tuple_key3 t0 t1 t2).encode (a, b, c) ≡ ok (xb ++ yb ++ zb)
  unfolding tuple_key3
  tuple_key3-append a b c xb yb zb xe ye ze room = rw (
    xe,
    extend_within (0 + t0.size_of + t1.size_of + t2.size_of) [] xb (omega arith),
    ye,
    extend_within (0 + t0.size_of + t1.size_of + t2.size_of) xb yb (omega arith),
    ze,
    extend_within (0 + t0.size_of + t1.size_of + t2.size_of) (xb ++ yb) zb
        (omega (arith, length-append {0} xb yb)),
  )

  -- Triples decode from their encodings if the elements do, the first two filling their sizes.
  pub tuple_key3-Fits :
      {V0 : A → Type 0} {V1 : B → Type 0} {V2 : C → Type 0}
      → 0 < max (max t0.align_of t1.align_of) t2.align_of
      → Fills t0 V0
      → Fills t1 V1
      → Fits t2 V2
      → Fits (tuple_key3 t0 t1 t2) (λ p. V0 p.0 × V1 p.1 × V2 p.2)
  tuple_key3-Fits al f0 f1 f2 = record {
    trip = λ p h.
        let (xb, xe, xd, xl) = f0.trip p.0 h.0 in
        let (yb, ye, yd, yl) = f1.trip p.1 h.1 in
        let (zb, ze, zd, zl) = f2.trip p.2 h.2 in
        let n : length (xb ++ yb ++ zb) ≡ length xb + length yb + length zb =
          length-append (xb ++ yb) zb ∙ omega (arith, length-append {0} xb yb) in
        (
          xb ++ yb ++ zb,
          tuple_key3-append p.0 p.1 p.2 xb yb zb xe ye ze (omega arith),
          unfold tuple_key3 in
              rw (
                n,
                ltb-eq-false (0 + t0.size_of + t1.size_of + t2.size_of)
                    (length xb + length yb + length zb) (omega arith),
                ltb-eq-false (length xb + length yb + length zb) (t0.size_of + t1.size_of)
                    (omega arith),
                append_assoc xb yb zb,
                split_at-append t0.size_of xb (yb ++ zb) xl,
                split_at-append t1.size_of yb zb yl,
                xd,
                yd,
                zd,
              ),
          unfold tuple_key3 in
              omega (
                arith,
                n,
                le-round_up (t0.size_of + t1.size_of + t2.size_of)
                    (max (max t0.align_of t1.align_of) t2.align_of) al,
              ),
        );
  }
