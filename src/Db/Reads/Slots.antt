-- ===== src/Db/Reads/Slots.antt =====
-- The walk over the storage of an account, by the slots that the table has.
use erigon_db.Prelude.{
  ℕ, ◌≡◌, refl, ap, ◌∙◌, sym, Option, none, some, List, [], ◌∷◌, ◌++◌, true, map, take, arith, not,
  bytes_eq, if◌then◌else◌, Bool-cases, inl, inr, append-nil,
}
use erigon_db.Prelude.Digits.{be_bytes}
use erigon_db.Prelude.Lex.{lex_leb, lex_ltb-append, lex_ltb-nil}
use erigon_db.Outcome.{ok}
use erigon_db.Crates.{
  MdbxCrate, CursorLaws, TxLaws, ScanLaws, UintCrate, FixedHashCrate, ArrayVecCrate, H256, Address,
  IsH256, IsAddress, Entry, zero_hash,
}
use erigon_db.Crates.Mdbx.{from_dup}
use erigon_db.Kv.Env.{Access}
use erigon_db.Kv.Tx.{decode_val}
use erigon_db.Kv.Walk.{next_value, Walker, collect}
use erigon_db.Kv.Walk.Laws.{walk_dup-entries}
use erigon_db.Kv.Values.{h256_type, slot_object}
use erigon_db.Kv.Values.RoundTrip.{
  IsU256, slot_round_trip, u256_type-Fits, extend_within, u256-size_of,
}
use erigon_db.Models.Keys.{Incarnation}
use erigon_db.Db.Access.Laws.{flags_of}
use erigon_db.Db.Access.Cursors.{cursor-entries}
use erigon_db.Db.Reads.{walk_storage}
use erigon_db.Db.Reads.Laws.{ok-injective, storage_key-bytes, h256-bytes}
use erigon_db.Db.Tables

-- The values of a key.
abbrev pub dups : List ℕ → List Entry → List (List ℕ)
dups k [] = []
dups k (e ∷ es) = let rest = dups k es in if bytes_eq e.0 k then e.1 ∷ rest else rest

-- The slots from `s` on.
abbrev pub slots_from : H256 → List (H256 × ℕ) → List (H256 × ℕ)
slots_from s [] = []
slots_from s (p ∷ ps) = let rest = slots_from s ps in if lex_leb s p.0 then p ∷ rest else rest

abbrev pub start_of : Option H256 → H256
start_of none = zero_hash
start_of (some slot) = slot

module _ ⦃u : UintCrate⦄ ⦃a : ArrayVecCrate⦄ ⦃f : FixedHashCrate⦄ where
  -- The stored values are the encodings of these slots.
  abbrev pub AreSlots : List (List ℕ) → List (H256 × ℕ) → Type 0
  AreSlots [] [] = Unit
  AreSlots [] (p ∷ ps) = ⊥
  AreSlots (b ∷ bs) [] = ⊥
  AreSlots (b ∷ bs) (p ∷ ps) =
      (slot_object.encode p ≡ ok b) × IsH256 p.0 × IsU256 p.1 × AreSlots bs ps

  slot-append :
      (p : H256 × ℕ)
      → IsH256 p.0
      → IsU256 p.1
      → (vb : List ℕ) × (slot_object.encode p ≡ ok (p.0 ++ vb))
  unfolding slot_object
  slot-append p hp hv =
      let (vb, ve, vd, vl) = u256_type-Fits.trip p.1 hv in
      (
        vb,
        rw (
          h256-bytes p.0,
          extend_within 64 [] p.0 (omega (arith, hp)),
          ve,
          extend_within 64 p.0 vb (omega (arith, hp, vl, u256-size_of)),
        ),
      )

  -- The slot comes first in its encoding, so that it decides the order.
  slot_order :
      (s : H256) (p : H256 × ℕ) (b : List ℕ)
      → IsH256 s
      → IsH256 p.0
      → IsU256 p.1
      → slot_object.encode p ≡ ok b
      → lex_leb s b ≡ lex_leb s p.0
  slot_order s p b hs hp hv e =
      let (vb, e') = slot-append p hp hv in
      let same : b ≡ p.0 ++ vb = ok-injective (sym e ∙ e') in
      rw (same, ← append-nil s)
        (ap not (
          lex_ltb-append p.0 s vb [] (hp ∙ sym hs)
          ∙ rw (lex_ltb-nil vb, append-nil s) (ground arith)))

  module _ ⦃m : MdbxCrate⦄ (k : List ℕ) (s : H256) (hs : IsH256 s) where
    from_dup-slots :
        (es : List Entry) (ps : List (H256 × ℕ))
        → AreSlots (dups k es) ps
        → map (decode_val Tables.storage) (from_dup k s es) ≡ map ok (slots_from s ps)
    unfolding from_dup decode_val
    from_dup-slots [] [] h = refl
    from_dup-slots [] (p ∷ ps) h = absurd h
    from_dup-slots (e ∷ es) ps h = elim (Bool-cases (bytes_eq e.0 k)) [
      | inr other ↦ rw other (from_dup-slots es ps (rw other at h))
      | inl own ↦ rw own (own_slot ps (from_dup-slots es) (rw own at h))
    ]
      where
        own_slot :
            (ps : List (H256 × ℕ))
            → ((qs : List (H256 × ℕ))
                → AreSlots (dups k es) qs
                → map (decode_val Tables.storage) (from_dup k s es) ≡ map ok (slots_from s qs))
            → AreSlots (e.1 ∷ dups k es) ps
            → map
                (decode_val Tables.storage)
                (if lex_leb s e.1 then e ∷ from_dup k s es else from_dup k s es)
              ≡ map ok (slots_from s ps)
        own_slot [] others h = absurd h
        own_slot (p ∷ ps) others (enc, hp, hv, later) =
            let (b, e', d, l) = slot_round_trip p hp hv in
            let same : e.1 ≡ b = ok-injective (sym enc ∙ e') in
            elim (Bool-cases (lex_leb s p.0)) [
              | inl from ↦
                  rw (slot_order s p e.1 hs hp hv enc, from)
                    (rw (same, d) (ap (λ l. ok p ∷ l) (others ps later)))
              | inr below ↦ rw (slot_order s p e.1 hs hp hv enc, below) (others ps later)
            ]

  -- Some slot is found.
  found :
      ⦃m : MdbxCrate⦄ (k s : List ℕ) (es : List Entry) (p : H256 × ℕ) (ps : List (H256 × ℕ))
      (l : List Entry)
      → from_dup k s es ≡ l
      → map (decode_val Tables.storage) l ≡ map ok (p ∷ ps)
      → (x : Entry) × (xs : List Entry) × (from_dup k s es ≡ x ∷ xs)
        × (map (decode_val Tables.storage) (x ∷ xs) ≡ map ok (p ∷ ps))
  found k s es p ps [] h e = cc
  found k s es p ps (x ∷ xs) h e = (x, xs, h, e)

module _ ⦃m : MdbxCrate⦄ ⦃u : UintCrate⦄ ⦃a : ArrayVecCrate⦄ ⦃f : FixedHashCrate⦄ (tl : TxLaws m)
    (cl : CursorLaws m) (laws : ScanLaws m tl cl) where
  -- Where the table holds the slots `ps` for an account and incarnation, and one of them is at least the
  -- start slot, `walk_storage` hands out the slots from the start slot on, in order and one for each
  -- call, none left out, and ends behind the last. The start slot, all zeros where none is given, has
  -- 32 bytes and the address 20, and the table can be opened.
  pub walk_storage-slots :
      (access : Access) (adr : Address) (inc : Incarnation) (start : Option H256)
      (ps rest : List (H256 × ℕ)) (p : H256 × ℕ) (n : ℕ) (tx : m.Transaction)
      → IsAddress adr
      → IsH256 (start_of start)
      → tl.can_open tx "PlainState" (flags_of access Tables.storage) ≡ true
      → AreSlots (dups (adr ++ be_bytes 8 inc) (laws.scan tx "PlainState")) ps
      → slots_from (start_of start) ps ≡ p ∷ rest
      → (w : Walker m.Cursor (H256 × ℕ)) × ((walk_storage access adr inc start tx).0 ≡ ok w)
        × (collect (next_value Tables.storage) n w ≡ take n (map ok (p ∷ rest)))
  unfolding walk_storage
  walk_storage-slots access adr inc start ps rest p n tx ha hs can slots some_left =
      let (cur, tx', made, es, scans, values, opens) =
        cursor-entries tl cl laws access Tables.storage tx can in
      let k = adr ++ be_bytes 8 inc in
      let decoded = from_dup-slots k (start_of start) hs (laws.scan tx "PlainState") ps slots in
      let (x, xs, at_first, items) =
        found k (start_of start) (laws.scan tx "PlainState") p rest _ refl
          (decoded ∙ ap (map ok) some_left) in
      let (w, walked, collected) =
        walk_dup-entries cl Tables.storage h256_type.encode (adr, inc) (start_of start) k
          (start_of start) cur x xs n (storage_key-bytes adr inc ha) (h256-bytes (start_of start))
          (rw es at_first) in
      (w, rw made walked, collected ∙ ap (take n) items)
