-- ===== src/Macros/Canonical.antt =====
-- What the tuple decoders do on any input.
use erigon_db.Prelude.{
  ℕ, ◌+◌, ◌≤◌, ◌<◌, ◌≡◌, ap, ◌∙◌, append_assoc, ◌++◌, List, length, take, drop, All, arith,
  length-take, length-drop, take-append-drop,
}
use erigon_db.Prelude.Digits.{IsByte, All-take, All-drop}
use erigon_db.Outcome.{too_short, too_long, ok, err}
use erigon_db.Crates.{ArrayVecCrate}
use erigon_db.Kv.Traits.{TableType, NeverPanics, IsCanonical}
use erigon_db.Kv.Values.{split_at}
use erigon_db.Macros.{tuple_key2, tuple_key3}
use erigon_db.Macros.Tuples.{tuple_key2-append, tuple_key3-append}

module _ ⦃v : ArrayVecCrate⦄ {A B : Type 0} (t0 : TableType A) (t1 : TableType B) where
  -- Inputs longer than the sizes of both elements together are refused with that bound, and those
  -- shorter than the size of the first with that one.
  pub decode_tuple2_lengths :
      (bs : List ℕ)
      → (t0.size_of + t1.size_of < length bs
          → (tuple_key2 t0 t1).decode bs ≡ err (too_long (t0.size_of + t1.size_of) (length bs)))
        × (length bs < t0.size_of
            → (tuple_key2 t0 t1).decode bs ≡ err (too_short t0.size_of (length bs)))
  unfolding tuple_key2
  decode_tuple2_lengths bs = (λ h. ground arith, λ h. ground arith)

  decode_tuple2_parts :
      (bs : List ℕ) (a : A) (b : B)
      → (tuple_key2 t0 t1).decode bs ≡ ok (a, b)
      → (t0.size_of ≤ length bs)
        × (length bs ≤ t0.size_of + t1.size_of)
        × (t0.decode (take t0.size_of bs) ≡ ok a)
        × (t1.decode (drop t0.size_of bs) ≡ ok b)
  unfolding tuple_key2 split_at
  decode_tuple2_parts bs a b e = ground arith

  pub tuple_key2-NeverPanics :
      NeverPanics t0.object → NeverPanics t1.object → NeverPanics (tuple_key2 t0 t1).object
  unfolding tuple_key2 split_at
  tuple_key2-NeverPanics n0 n1 bs e =
      ground (arith, n0 (take t0.size_of bs), n1 (drop t0.size_of bs))

  pub tuple_key2-IsCanonical :
      IsCanonical t0.object → IsCanonical t1.object → IsCanonical (tuple_key2 t0 t1).object
  tuple_key2-IsCanonical c0 c1 bs (a, b) h e =
      let (lo, hi, ea, eb) = decode_tuple2_parts bs a b e in
      rw (← take-append-drop t0.size_of bs) (
        tuple_key2-append t0 t1 a b (take t0.size_of bs) (drop t0.size_of bs)
          (c0 _ a (All-take t0.size_of bs h) ea) (c1 _ b (All-drop t0.size_of bs h) eb)
          (omega (arith, length-take {0} t0.size_of bs, length-drop {0} t0.size_of bs)))

module _ ⦃v : ArrayVecCrate⦄ {A B C : Type 0} (t0 : TableType A) (t1 : TableType B)
    (t2 : TableType C) where
  -- The last two elements of a triple are cut from what the first leaves.
  decode_tuple3_parts :
      (bs : List ℕ) (a : A) (b : B) (c : C)
      → (tuple_key3 t0 t1 t2).decode bs ≡ ok (a, b, c)
      → (t0.size_of + t1.size_of ≤ length bs)
        × (length bs ≤ t0.size_of + t1.size_of + t2.size_of)
        × (t0.decode (take t0.size_of bs) ≡ ok a)
        × (t1.decode (take t1.size_of (drop t0.size_of bs)) ≡ ok b)
        × (t2.decode (drop t1.size_of (drop t0.size_of bs)) ≡ ok c)
  unfolding tuple_key3 split_at
  decode_tuple3_parts bs a b c e = ground arith

  pub tuple_key3-NeverPanics :
      NeverPanics t0.object
      → NeverPanics t1.object
      → NeverPanics t2.object
      → NeverPanics (tuple_key3 t0 t1 t2).object
  unfolding tuple_key3 split_at
  tuple_key3-NeverPanics n0 n1 n2 bs e = ground (
    arith,
    length-drop {0} t0.size_of bs,
    n0 (take t0.size_of bs),
    n1 (take t1.size_of (drop t0.size_of bs)),
    n2 (drop t1.size_of (drop t0.size_of bs)),
  )

  pub tuple_key3-IsCanonical :
      IsCanonical t0.object
      → IsCanonical t1.object
      → IsCanonical t2.object
      → IsCanonical (tuple_key3 t0 t1 t2).object
  tuple_key3-IsCanonical c0 c1 c2 bs (a, b, c) h e =
      let (lo, hi, ea, eb, ec) = decode_tuple3_parts bs a b c e in
      let rest = drop t0.size_of bs in
      let h' : All IsByte rest = All-drop t0.size_of bs h in
      tuple_key3-append t0 t1 t2 a b c (take t0.size_of bs) (take t1.size_of rest)
        (drop t1.size_of rest) (c0 _ a (All-take t0.size_of bs h) ea)
        (c1 _ b (All-take t1.size_of rest h') eb) (c2 _ c (All-drop t1.size_of rest h') ec)
        (omega (
          arith,
          length-take {0} t0.size_of bs,
          length-drop {0} t0.size_of bs,
          length-take {0} t1.size_of rest,
          length-drop {0} t1.size_of rest,
        ))
      ∙ ap ok (
          append_assoc (take t0.size_of bs) (take t1.size_of rest) (drop t1.size_of rest)
          ∙ ap (λ t. take t0.size_of bs ++ t) (take-append-drop t1.size_of rest)
          ∙ take-append-drop t0.size_of bs)
