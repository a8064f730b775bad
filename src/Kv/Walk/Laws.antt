-- ===== src/Kv/Walk/Laws.antt =====
-- The walkers hand out every entry from their start on, in order, and then end.
use erigon_db.Prelude.{
  ℕ, zero, suc, ◌≡◌, refl, ap, ◌∙◌, Option, none, some, List, [], ◌∷◌, map, take, length, ◌≤◌,
  arith,
}
use erigon_db.Outcome.{Result, Outcome, ok, err, panic, ◌>>=◌, map_err, map_ok, traverse, mdbx}
use erigon_db.Crates.{MdbxCrate, CursorLaws, Entry, from_key, from_dup, head?, tail}
use erigon_db.Kv.Tx.{Table, decode_one, decode_val}
use erigon_db.Kv.Cursor.{KeyDecode, decode, next, next_dup_val}
use erigon_db.Kv.Walk.{
  next_entry, next_value, Walker, walker_next, collect, walk, walk_dup, iter, transpose,
}

-- The walker after `n` calls of `next`.
abbrev pub after : {C A : Type 0} → (C → Result (Option A) × C) → ℕ → Walker C A → Walker C A
after advance zero w = w
after advance (suc n) w = after advance n (walker_next advance w).1

module _ {C A : Type 0} (advance : C → Result (Option A) × C) (rest : C → List Entry)
    (read : Entry → Result A)
    (step : (c : C) (es : List Entry)
      → rest c ≡ es
      → (transpose (advance c).0 ≡ head? (map read es)) × (rest (advance c).1 ≡ tail es)) where
  -- A walker with nothing in hand hands out what is behind the cursor.
  collect_rest :
      (n : ℕ) (c : C) (es : List Entry)
      → rest c ≡ es
      → collect (walker_next advance) n (record { cur = c; first = none }) ≡ take n (map read es)
  unfolding collect walker_next
  collect_rest zero c es h = refl
  collect_rest (suc n) c [] h = rw ((step c [] h).0)
  collect_rest (suc n) c (e ∷ es) h =
      rw ((step c (e ∷ es) h).0)
        (ap (λ t. read e ∷ t) (collect_rest n (advance c).1 es (step c (e ∷ es) h).1))

  -- The item in hand comes first.
  pub collect_first :
      (n : ℕ) (c : C) (e : Entry) (es : List Entry)
      → rest c ≡ es
      → collect (walker_next advance) n (record { cur = c; first = some (read e) })
        ≡ take n (map read (e ∷ es))
  unfolding collect walker_next
  collect_first zero c e es h = refl
  collect_first (suc n) c e es h = ap (λ t. read e ∷ t) (collect_rest n c es h)

  -- A walker with nothing behind its cursor has no further item.
  pub rest_ends :
      (n : ℕ) (c : C) (es : List Entry)
      → rest c ≡ es
      → length es ≤ n
      → (walker_next advance (after advance n (record { cur = c; first = none }))).0 ≡ none
  unfolding walker_next
  rest_ends zero c [] h le = rw ((step c [] h).0)
  rest_ends zero c (e ∷ es) h le = absurd (omega arith)
  rest_ends (suc n) c [] h le = rest_ends n (advance c).1 [] (step c [] h).1 (omega arith)
  rest_ends (suc n) c (e ∷ es) h le =
      rest_ends n (advance c).1 es (step c (e ∷ es) h).1 (omega arith)

  pub first_ends :
      (n : ℕ) (c : C) (e : Entry) (es : List Entry)
      → rest c ≡ es
      → length (e ∷ es) ≤ n
      → (walker_next advance (after advance n (record { cur = c; first = some (read e) }))).0 ≡ none
  unfolding walker_next
  first_ends zero c e es h le = absurd (omega arith)
  first_ends (suc n) c e es h le = rest_ends n c es h (omega arith)

transpose-some : {A : Type 0} (x : Result A) → transpose (map_ok some x) ≡ some x
transpose-some (ok a) = refl
transpose-some (err e) = refl
transpose-some panic = refl

transpose_found :
    {A : Type 0} (r : Outcome ℕ (Option Entry)) (es : List Entry) (read : Entry → Result A)
    → r ≡ ok (head? es)
    → transpose (do o ← map_err mdbx r; traverse read o) ≡ head? (map read es)
transpose_found r [] read h = rw h
transpose_found r (e ∷ es) read h = rw h (transpose-some (read e))

module _ ⦃m : MdbxCrate⦄ (laws : CursorLaws m) (t : Table) where
  next_step :
      (dk : KeyDecode t) (c : m.Cursor) (es : List Entry)
      → laws.rest c ≡ es
      → (transpose (next t dk c).0 ≡ head? (map (decode t dk) es))
        × (laws.rest (next t dk c).1 ≡ tail es)
  unfolding next
  next_step dk c es h = (
    transpose_found (m.next c).0 es (decode t dk) (rw (← h) (laws.next_lem c).0),
    rw (← h) (laws.next_lem c).1,
  )

  next_dup_step :
      (c : m.Cursor) (es : List Entry)
      → laws.rest_dups c ≡ es
      → (transpose (next_dup_val t c).0 ≡ head? (map (decode_val t) es))
        × (laws.rest_dups (next_dup_val t c).1 ≡ tail es)
  unfolding next_dup_val
  next_dup_step c es h = (
    transpose_found (m.next_dup c).0 es (decode_val t) (rw (← h) (laws.next_dup_lem c).0),
    rw (← h) (laws.next_dup_lem c).1,
  )

  -- `walk` hands out the entries of the table from the start key on, decoded, in order and one for
  -- each call, an undecodable one as an error, and ends behind the last.
  pub walk-entries :
      (dk : KeyDecode t) (start : t.Key) (k : List ℕ) (c : m.Cursor) (n : ℕ)
      → t.encode_key start ≡ ok k
      → (w : Walker m.Cursor (t.Key × t.Value)) × (walk t dk start c ≡ ok w)
        × (collect (next_entry t dk) n w ≡ take n (map (decode t dk) (from_key k (laws.entries c))))
  unfolding walk
  walk-entries dk start k c n e = begun (from_key k (laws.entries c)) refl
    where
      begun :
          (es : List Entry)
          → from_key k (laws.entries c) ≡ es
          → (w : Walker m.Cursor (t.Key × t.Value)) × (walk t dk start c ≡ ok w)
            × (collect (next_entry t dk) n w ≡ take n (map (decode t dk) es))
      begun [] h = (
        record { cur = (m.set_range c k).1; first = none },
        rw (e, (laws.set_range_lem c k).0, h),
        collect_rest (next t dk) laws.rest (decode t dk) (next_step dk) n (m.set_range c k).1 []
            ((laws.set_range_lem c k).1 ∙ ap tail h),
      )
      begun (x ∷ es) h = (
        record { cur = (m.set_range c k).1; first = some (decode t dk x) },
        rw (e, (laws.set_range_lem c k).0, h),
        collect_first (next t dk) laws.rest (decode t dk) (next_step dk) n (m.set_range c k).1 x es
            ((laws.set_range_lem c k).1 ∙ ap tail h),
      )

  -- Where the key has a duplicate from the subkey on, `walk_dup` hands out those duplicates, decoded,
  -- in order, and ends behind the last.
  pub walk_dup-entries :
      {S : Type 0} (encode_subkey : S → Result (List ℕ)) (key : t.Key) (subkey : S) (k s : List ℕ)
      (c : m.Cursor) (x : Entry) (es : List Entry) (n : ℕ)
      → t.encode_key key ≡ ok k
      → encode_subkey subkey ≡ ok s
      → from_dup k s (laws.entries c) ≡ x ∷ es
      → (w : Walker m.Cursor t.Value) × (walk_dup t encode_subkey key subkey c ≡ ok w)
        × (collect (next_value t) n w ≡ take n (map (decode_val t) (x ∷ es)))
  unfolding walk_dup decode_one decode_val
  walk_dup-entries encode_subkey key subkey k s c x es n ek es' h = (
    record { cur = (m.get_both_range c k s).1; first = some (decode_val t x) },
    rw (ek, es', (laws.get_both_range_lem c k s x es h).0),
    collect_first (next_dup_val t) laws.rest_dups (decode_val t) next_dup_step n
        (m.get_both_range c k s).1 x es (laws.get_both_range_lem c k s x es h).1,
  )

  iter-entries :
      (dk : KeyDecode t) (start : t.Key) (k : List ℕ) (c : m.Cursor)
      → t.encode_key start ≡ ok k
      → iter t dk start c ≡ ok (map (decode t dk) (from_key k (laws.entries c)))
  unfolding iter
  iter-entries dk start k c e =
      rw (e, laws.iter_from_lem c k) (ap ok (map_items (from_key k (laws.entries c))))
    where
      map_items :
          (es : List Entry)
          → map (λ res. do kv ← map_err mdbx res; decode t dk kv) (map ok es) ≡ map (decode t dk) es
      map_items [] = refl
      map_items (x ∷ es) = ap (λ l. decode t dk x ∷ l) (map_items es)

  -- From one start key that encodes, the first `n` items of `iter` are those that `walk` hands out in `n` calls.
  pub iter-walk :
      (dk : KeyDecode t) (start : t.Key) (k : List ℕ) (c : m.Cursor) (n : ℕ)
      → t.encode_key start ≡ ok k
      → (w : Walker m.Cursor (t.Key × t.Value)) × (items : List (Result (t.Key × t.Value))) × (walk
            t dk start c
          ≡ ok w)
        × (iter t dk start c ≡ ok items)
        × (collect (next_entry t dk) n w ≡ take n items)
  iter-walk dk start k c n e =
      let (w, walked, collected) = walk-entries dk start k c n e in
      (
        w,
        map (decode t dk) (from_key k (laws.entries c)),
        walked,
        iter-entries dk start k c e,
        collected,
      )

  -- Once `walk` has handed out the entries of the table from the start key on, which takes as many
  -- calls as there are such entries, each further call of `next` returns none: the iteration ends.
  pub walk-ends :
      (dk : KeyDecode t) (start : t.Key) (k : List ℕ) (c : m.Cursor) (n : ℕ)
      → t.encode_key start ≡ ok k
      → length (from_key k (laws.entries c)) ≤ n
      → (w : Walker m.Cursor (t.Key × t.Value)) × (walk t dk start c ≡ ok w)
        × ((walker_next (next t dk) (after (next t dk) n w)).0 ≡ none)
  unfolding walk
  walk-ends dk start k c n e le = ended (from_key k (laws.entries c)) refl le
    where
      ended :
          (es : List Entry)
          → from_key k (laws.entries c) ≡ es
          → length es ≤ n
          → (w : Walker m.Cursor (t.Key × t.Value)) × (walk t dk start c ≡ ok w)
            × ((walker_next (next t dk) (after (next t dk) n w)).0 ≡ none)
      ended [] h le = (
        record { cur = (m.set_range c k).1; first = none },
        rw (e, (laws.set_range_lem c k).0, h),
        rest_ends (next t dk) laws.rest (decode t dk) (next_step dk) n (m.set_range c k).1 []
            ((laws.set_range_lem c k).1 ∙ ap tail h) (omega arith),
      )
      ended (x ∷ es) h le = (
        record { cur = (m.set_range c k).1; first = some (decode t dk x) },
        rw (e, (laws.set_range_lem c k).0, h),
        first_ends (next t dk) laws.rest (decode t dk) (next_step dk) n (m.set_range c k).1 x es
            ((laws.set_range_lem c k).1 ∙ ap tail h) le,
      )
