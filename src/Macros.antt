-- ===== src/Macros.antt =====
-- erigon/macros.rs: the codecs that the macros generate.
pub mod Layout
pub mod Tuples
pub mod Canonical
use erigon_db.Prelude.{ℕ, zero, ◌+◌, ◌-◌, ◌*◌, ◌/◌, max, List, [], ◌∷◌, length, ltb, if◌then◌else◌}
use erigon_db.Outcome.{cbor, too_short, too_long, Result, ok, err, ◌>>=◌, map_err, unwrap}
use erigon_db.Crates.{ArrayVecCrate, CborItem}
use erigon_db.Kv.Traits.{TableObject, TableType}
use erigon_db.Kv.Values.{bytes_object, extend, split_at}

-- `bytes_wrapper!` around `Bytes`: the bytes themselves.
unfoldable pub bytes_wrapper : TableObject (List ℕ)
unfolding bytes_object
bytes_wrapper = record { encode = ok; decode = bytes_object.decode }

-- `cbor_wrapper!`: a value that CBOR cannot encode is a panic.
unfoldable pub cbor_wrapper : {A : Type 0} → CborItem A → TableObject A
cbor_wrapper item = record {
  encode = λ a. unwrap (item.to_vec a);
  decode = λ b. map_err cbor (item.from_slice b);
}

-- `size_of` of a struct whose fields take `n` bytes together, with alignment `a`.
unfoldable pub round_up : ℕ → ℕ → ℕ
round_up n a = (n + (a - 1)) / a * a

-- `SIZE` of `size_tuple!`: `0 + size_of(t0) + ..`.
abbrev size_from : ℕ → List ℕ → ℕ
size_from n [] = n
size_from n (s ∷ sizes) = size_from (n + s) sizes

abbrev pub tuple_size : List ℕ → ℕ
tuple_size sizes = size_from 0 sizes

-- `MIN_SIZE` of `size_tuple_aux!`: the size of all elements but the last.
abbrev pub tuple_min_size : List ℕ → ℕ
tuple_min_size [] = 0
tuple_min_size (t0 ∷ []) = 0
tuple_min_size (t0 ∷ t1 ∷ []) = t0
tuple_min_size (t0 ∷ t1 ∷ t2 ∷ []) = t0 + t1
tuple_min_size (t0 ∷ t1 ∷ t2 ∷ t3 ∷ sizes) = t0 + t1 + t2

-- `tuple_key!` of one element.
module _ ⦃v : ArrayVecCrate⦄ {A : Type 0} (t0 : TableType A) where
  unfoldable pub encode_tuple1 : A → Result (List ℕ)
  encode_tuple1 a = do e0 ← t0.encode a; extend (tuple_size (t0.size_of ∷ [])) [] e0

  unfoldable pub decode_tuple1 : List ℕ → Result A
  decode_tuple1 b =
      let size = tuple_size (t0.size_of ∷ []) in
      let min_size = tuple_min_size (t0.size_of ∷ []) in
      if ltb size (length b)
      then err (too_long size (length b))
      else if ltb (length b) min_size
      then err (too_short min_size (length b))
      else t0.decode b

  unfoldable pub tuple_key1 : TableType A
  unfolding encode_tuple1 decode_tuple1
  tuple_key1 = record {
    object = record { encode = encode_tuple1; decode = decode_tuple1 };
    size_of = t0.size_of;
    align_of = t0.align_of;
  }

-- `tuple_key!` of two elements.
module _ ⦃v : ArrayVecCrate⦄ {A B : Type 0} (t0 : TableType A) (t1 : TableType B) where
  unfoldable pub encode_tuple2 : A × B → Result (List ℕ)
  encode_tuple2 (a, b) = do
    let size = tuple_size (t0.size_of ∷ t1.size_of ∷ [])
    e0 ← t0.encode a
    out ← extend size [] e0
    e1 ← t1.encode b
    extend size out e1

  unfoldable pub decode_tuple2 : List ℕ → Result (A × B)
  decode_tuple2 b =
      let size = tuple_size (t0.size_of ∷ t1.size_of ∷ []) in
      let min_size = tuple_min_size (t0.size_of ∷ t1.size_of ∷ []) in
      if ltb size (length b)
      then err (too_long size (length b))
      else if ltb (length b) min_size
      then err (too_short min_size (length b))
      else do
        (b0, remainder) ← split_at t0.size_of b
        a0 ← t0.decode b0
        a1 ← t1.decode remainder
        ok (a0, a1)

  unfoldable pub tuple_key2 : TableType (A × B)
  unfolding encode_tuple2 decode_tuple2 round_up
  tuple_key2 = record {
    object = record { encode = encode_tuple2; decode = decode_tuple2 };
    size_of = round_up (t0.size_of + t1.size_of) (max t0.align_of t1.align_of);
    align_of = max t0.align_of t1.align_of;
  }

-- `tuple_key!` of three elements.
module _ ⦃v : ArrayVecCrate⦄ {A B C : Type 0} (t0 : TableType A) (t1 : TableType B)
    (t2 : TableType C) where
  unfoldable pub encode_tuple3 : A × B × C → Result (List ℕ)
  encode_tuple3 (a, b, c) = do
    let size = tuple_size (t0.size_of ∷ t1.size_of ∷ t2.size_of ∷ [])
    e0 ← t0.encode a
    out ← extend size [] e0
    e1 ← t1.encode b
    out' ← extend size out e1
    e2 ← t2.encode c
    extend size out' e2

  unfoldable pub decode_tuple3 : List ℕ → Result (A × B × C)
  decode_tuple3 b =
      let size = tuple_size (t0.size_of ∷ t1.size_of ∷ t2.size_of ∷ []) in
      let min_size = tuple_min_size (t0.size_of ∷ t1.size_of ∷ t2.size_of ∷ []) in
      if ltb size (length b)
      then err (too_long size (length b))
      else if ltb (length b) min_size
      then err (too_short min_size (length b))
      else do
        (b0, remainder) ← split_at t0.size_of b
        (b1, remainder') ← split_at t1.size_of remainder
        a0 ← t0.decode b0
        a1 ← t1.decode b1
        a2 ← t2.decode remainder'
        ok (a0, a1, a2)

  unfoldable pub tuple_key3 : TableType (A × B × C)
  unfolding encode_tuple3 decode_tuple3 round_up
  tuple_key3 = record {
    object = record { encode = encode_tuple3; decode = decode_tuple3 };
    size_of =
        round_up (t0.size_of + t1.size_of + t2.size_of)
          (max (max t0.align_of t1.align_of) t2.align_of);
    align_of = max (max t0.align_of t1.align_of) t2.align_of;
  }
