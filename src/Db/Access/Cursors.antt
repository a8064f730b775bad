-- ===== src/Db/Access/Cursors.antt =====
-- What the cursors of `cursor` find: the first entries of a table from a key on.
use erigon_db.Prelude.{ℕ, ◌≡◌, refl, ◌∙◌, Option, none, some, List, [], ◌∷◌, true}
use erigon_db.Outcome.{mdbx, Result, ok, traverse, map_err, ◌>>=◌}
use erigon_db.Crates.{MdbxCrate, CursorLaws, TxLaws, ScanLaws, Entry, from_key, from_dup, head?}
use erigon_db.Kv.Env.{Access}
use erigon_db.Kv.Tx
use erigon_db.Kv.Tx.{Table, decode_one}
use erigon_db.Kv.Cursor.{KeyDecode, decode, seek, seek_dup}
use erigon_db.Db.Access.{cursor}
use erigon_db.Db.Access.Laws.{flags_of}

abbrev pub head_value : List Entry → Option (List ℕ)
head_value [] = none
head_value (e ∷ es) = some e.1

-- The value of the first duplicate of `k` from `v` on.
abbrev pub first_dup : List ℕ → List ℕ → List Entry → Option (List ℕ)
first_dup k v es = head_value (from_dup k v es)

module _ ⦃m : MdbxCrate⦄ (tl : TxLaws m) (cl : CursorLaws m) (laws : ScanLaws m tl cl) where
  -- A cursor stands before the entries of its table, and to make it changes no table.
  pub cursor-entries :
      (access : Access) (t : Table) (tx : m.Transaction)
      → tl.can_open tx t.name (flags_of access t) ≡ true
      → (cur : m.Cursor) × (tx' : m.Transaction) × (cursor access t tx ≡ (ok cur, tx'))
        × (cl.entries cur ≡ laws.scan tx t.name)
        × ((n : _) → laws.scan tx' n ≡ laws.scan tx n)
        × ((n : _) (k : List ℕ) → tl.value tx' n k ≡ tl.value tx n k)
        × ((n : _) (fl : _) → tl.can_open tx n fl ≡ true → tl.can_open tx' n fl ≡ true)
  unfolding cursor Tx.open_db Tx.cursor
  cursor-entries access t tx can =
      let fl = flags_of access t in
      let (db, opened, name, dups) = tl.open_lem tx t.name fl can in
      let tx' = (m.open_db_with_flags tx t.name fl).1 in
      let (cur, made, es) = laws.cursor_lem tx' db in
      (
        cur,
        tx',
        rw (opened, made),
        es ∙ rw name (laws.open_scan tx t.name t.name fl),
        λ n. laws.open_scan tx t.name n fl,
        λ n k. tl.open_keeps tx t.name n fl k,
        λ n fl' h. tl.open_can_open tx t.name n fl fl' h,
      )

  -- `seek_dup` finds the first duplicate of the key from the subkey on.
  pub seek_dup-first :
      (t : Table) {S : Type 0} (enc : S → Result (List ℕ)) (key : t.Key) (sub : S) (k s : List ℕ)
      (cur : m.Cursor)
      → t.encode_key key ≡ ok k
      → enc sub ≡ ok s
      → (seek_dup t enc key sub cur).0 ≡ traverse t.object.decode (first_dup k s (cl.entries cur))
  unfolding seek_dup decode_one
  seek_dup-first t enc key sub k s cur ek es =
      rw (ek, es) (at_first (from_dup k s (cl.entries cur)) refl)
    where
      at_first :
          (l : List Entry)
          → from_dup k s (cl.entries cur) ≡ l
          → (do o ← map_err mdbx (m.get_both_range cur k s).0; traverse t.object.decode o)
            ≡ traverse t.object.decode (first_dup k s (cl.entries cur))
      at_first [] h = rw (cl.get_both_range_none cur k s h, h)
      at_first (e ∷ l) h = rw ((cl.get_both_range_lem cur k s e l h).0, h)

  -- `seek` finds the first entry from the key on.
  pub seek-first :
      (t : Table) (dk : KeyDecode t) (key : t.SeekKey) (k : List ℕ) (cur : m.Cursor)
      → t.encode_seek key ≡ ok k
      → (seek t dk key cur).0 ≡ traverse (decode t dk) (head? (from_key k (cl.entries cur)))
  unfolding seek
  seek-first t dk key k cur ek = rw (ek, (cl.set_range_lem cur k).0)
