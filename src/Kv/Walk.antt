-- ===== src/Kv/Walk.antt =====
-- kv/mod.rs: the iterators over a table (`Walker`) and over the duplicates of a key (`DupWalker`).
pub mod Laws
use mathlib.Core.Option
use erigon_db.Prelude.{map, ℕ, zero, suc, Option, none, some, List, [], ◌∷◌}
use erigon_db.Outcome.{mdbx, Result, ok, err, panic, ◌>>=◌, map_err, map_ok}
use erigon_db.Crates.{MdbxCrate}
use erigon_db.Kv.Tx.{Table, decode_one, decode_val}
use erigon_db.Kv.Cursor.{KeyDecode, decode, next, next_dup_val}

-- `Result::transpose`; a panic ends the iteration like an item that is one.
abbrev pub transpose {ℓ} : {A : Type ℓ} → Result (Option A) → Option (Result A)
transpose (ok none) = none
transpose (ok (some a)) = some (ok a)
transpose (err e) = some (err e)
transpose panic = some panic

-- Both walkers: a cursor, and the first item if it is not yet handed out.
pub record Walker (C A : Type 0) : Type 0 where
  pub cur : C
  pub first : Option (Result A)

-- `Iterator::next` of both: `advance` moves the cursor.
unfoldable pub walker_next :
    {C A : Type 0} → (C → Result (Option A) × C) → Walker C A → Option (Result A) × Walker C A
walker_next advance w = elim w.first [
  | some r ↦ (some r, record { cur = w.cur; first = none })
  | none ↦ let (r, cur') = advance w.cur in (transpose r, record { cur = cur'; first = none })
]

abbrev pub emit : {A : Type 0} → Option (Result A) → List (Result A) → List (Result A)
emit none rest = []
emit (some r) rest = r ∷ rest

-- The items of the first `n` calls of `next`, up to the one that returns `None`.
unfoldable pub collect :
    {C A : Type 0}
    → (Walker C A → Option (Result A) × Walker C A)
    → ℕ
    → Walker C A
    → List (Result A)
collect next_item zero w = []
collect next_item (suc n) w = emit (next_item w).0 (collect next_item n (next_item w).1)

module _ ⦃m : MdbxCrate⦄ (t : Table) where
  -- `next` of `Walker` and of `DupWalker`.
  abbrev pub next_entry :
      KeyDecode t
      → Walker m.Cursor (t.Key × t.Value)
      → Option (Result (t.Key × t.Value)) × Walker m.Cursor (t.Key × t.Value)
  next_entry dk = walker_next (next t dk)

  abbrev pub next_value :
      Walker m.Cursor t.Value → Option (Result t.Value) × Walker m.Cursor t.Value
  next_value = walker_next (next_dup_val t)

  unfoldable pub walk : KeyDecode t → t.Key → m.Cursor → Result (Walker m.Cursor (t.Key × t.Value))
  walk dk start_key c = do
    k ← t.encode_key start_key
    first ← map_err mdbx (m.set_range c k).0
    ok (record { cur = (m.set_range c k).1; first = Option.map (decode t dk) first })

  unfoldable pub walk_dup :
      {S : Type 0} → (S → Result (List ℕ)) → t.Key → S → m.Cursor → Result (Walker m.Cursor t.Value)
  walk_dup encode_subkey key subkey c = do
    k ← t.encode_key key
    s ← encode_subkey subkey
    first ← map_err mdbx (m.get_both_range c k s).0
    ok (record { cur = (m.get_both_range c k s).1; first = Option.map (decode_one t) first })

  -- The items of `iter` and of `iter_val`.
  unfoldable pub iter : KeyDecode t → t.Key → m.Cursor → Result (List (Result (t.Key × t.Value)))
  iter dk start_key c = do
    k ← t.encode_key start_key
    ok (map (λ res. do kv ← map_err mdbx res; decode t dk kv) (m.iter_from c k))

  unfoldable pub iter_val : t.Key → m.Cursor → Result (List (Result t.Value))
  iter_val start_key c = do
    k ← t.encode_key start_key
    ok (map (λ res. do kv ← map_err mdbx res; decode_val t kv) (m.iter_from c k))
