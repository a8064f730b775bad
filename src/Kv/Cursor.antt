-- ===== src/Kv/Cursor.antt =====
-- kv/mod.rs: typed cursors. A cursor method returns its result and the cursor after it.
use erigon_db.Prelude.{ℕ, Option, List}
use erigon_db.Outcome.{mdbx, Result, Outcome, ok, err, panic, ◌>>=◌, map_err, traverse}
use erigon_db.Crates.{MdbxCrate, Entry}
use erigon_db.Kv.Tx.{Table, decode_one, decode_val}

-- The key decoder that a method wants of its table.
abbrev pub KeyDecode : Table → Type 0
KeyDecode t = List ℕ → Result t.Key

unfoldable pub decode : (t : Table) → KeyDecode t → Entry → Result (t.Key × t.Value)
decode t decode_key kv = do k ← decode_key kv.0; v ← t.object.decode kv.1; ok (k, v)

module _ ⦃m : MdbxCrate⦄ where
  abbrev pub Move {ℓ} : Type ℓ → Type ℓ
  Move A = m.Cursor → Result A × m.Cursor

  -- The cursor stays where an encoder fails.
  abbrev pub with_bytes {ℓ} : {A : Type ℓ} → Result (List ℕ) → (List ℕ → Move A) → Move A
  with_bytes (ok k) f c = f k c
  with_bytes (err e) f c = (err e, c)
  with_bytes panic f c = (panic, c)

  -- `?` on the mdbx error, then `map(f).transpose()`.
  abbrev pub found {ℓ κ} :
      {A : Type ℓ} {B : Type κ}
      → (A → Result B)
      → Outcome ℕ (Option A) × m.Cursor
      → Result (Option B) × m.Cursor
  found f p = ((do o ← map_err mdbx p.0; traverse f o), p.1)

  module _ (t : Table) where
    unfoldable pub seek : KeyDecode t → t.SeekKey → Move (Option (t.Key × t.Value))
    seek dk key = with_bytes (t.encode_seek key) λ k c. found (decode t dk) (m.set_range c k)

    unfoldable pub first : KeyDecode t → Move (Option (t.Key × t.Value))
    first dk c = found (decode t dk) (m.first c)

    unfoldable pub first_val : Move (Option t.Value)
    first_val c = found (decode_val t) (m.first c)

    unfoldable pub next : KeyDecode t → Move (Option (t.Key × t.Value))
    next dk c = found (decode t dk) (m.next c)

    -- `encode_subkey` is that of the table's `Subkey`.
    unfoldable pub seek_dup :
        {S : Type 0} → (S → Result (List ℕ)) → t.Key → S → Move (Option t.Value)
    seek_dup encode_subkey key subkey =
        with_bytes (t.encode_key key) λ k.
          with_bytes (encode_subkey subkey) λ s c. found (decode_one t) (m.get_both_range c k s)

    unfoldable pub next_dup : KeyDecode t → Move (Option (t.Key × t.Value))
    next_dup dk c = found (decode t dk) (m.next_dup c)

    unfoldable pub next_dup_val : Move (Option t.Value)
    next_dup_val c = found (decode_val t) (m.next_dup c)
