-- ===== src/Db/History/Slots.antt =====
-- What the reads of past states find, by the shard of the history and the entries of the change set.
use erigon_db.Prelude.{
  ℕ, ◌<◌, ◌≡◌, refl, Option, none, some, List, [], ◌∷◌, ◌++◌, true, arith, length-append, inl,
}
use erigon_db.Prelude.Digits.{be_bytes, length-be_bytes}
use erigon_db.Outcome.{Result, ok, err, message, traverse, map_ok}
use erigon_db.Crates.{
  MdbxCrate, CursorLaws, TxLaws, ScanLaws, RoaringCrate, BufCrate, UintCrate, FixedHashCrate,
  ArrayVecCrate, H256, Address, IsH256, IsAddress, Entry, from_key,
}
use erigon_db.Kv.Env.{Access}
use erigon_db.Kv.Cursor.{decode}
use erigon_db.Kv.Values.{h256_type, address_type, uint_type}
use erigon_db.Macros.{tuple_key2}
use erigon_db.Macros.Tuples.{tuple_key2-append, tuple_key3-append}
use erigon_db.Models.Keys.{
  BlockNumber, Incarnation, storage_key, storage_cs_key, storage_hist_key, storage_cs_val, u64_key,
}
use erigon_db.Utils.{find_gte}
use erigon_db.Utils.Bitmap.{IsLeastGte, find_gte-IsLeastGte}
use erigon_db.Db.Access.Laws.{flags_of}
use erigon_db.Db.Access.Cursors.{cursor-entries, seek_dup-first, seek-first, first_dup}
use erigon_db.Db.Reads.{only_slot}
use erigon_db.Db.Reads.Laws.{storage_key-bytes, h256-bytes, continue-pure}
use erigon_db.Db.History.{slot_before, read_storage_hist}
use erigon_db.Db.Tables

module _ ⦃f : FixedHashCrate⦄ ⦃v : ArrayVecCrate⦄ where
  pub storage_cs_key-bytes :
      (n : BlockNumber) (a : Address) (i : Incarnation)
      → IsAddress a
      → storage_cs_key.encode (n, (a, i)) ≡ ok (be_bytes 8 n ++ (a ++ be_bytes 8 i))
  unfolding storage_cs_key u64_key uint_type
  storage_cs_key-bytes n a i h =
      tuple_key2-append _ storage_key n (a, i) _ (a ++ be_bytes 8 i) refl (storage_key-bytes a i h)
        (unfold storage_key tuple_key2 address_type in
          omega
            (arith, length-append {0} a (be_bytes 8 i), length-be_bytes 8 i, length-be_bytes 8 n))

  pub storage_hist_key-bytes :
      (a : Address) (s : H256) (n : BlockNumber)
      → IsAddress a
      → IsH256 s
      → storage_hist_key.encode (a, s, n) ≡ ok (a ++ s ++ be_bytes 8 n)
  unfolding storage_hist_key u64_key h256_type address_type uint_type
  storage_hist_key-bytes a s n ha hs =
      tuple_key3-append _ _ _ a s n a s _ refl refl refl (omega (arith, length-be_bytes 8 n))

module _ ⦃m : MdbxCrate⦄ ⦃f : FixedHashCrate⦄ ⦃v : ArrayVecCrate⦄ ⦃u : UintCrate⦄ ⦃b : BufCrate⦄
    ⦃r : RoaringCrate⦄ (tl : TxLaws m) (cl : CursorLaws m) (laws : ScanLaws m tl cl)
    (access : Access) (adr : Address) (inc : Incarnation) (slot : H256) (tx : m.Transaction) where
  -- The value that the change set of block `n` has for the slot.
  abbrev pub slot_in_change_set : BlockNumber → Result (Option ℕ)
  slot_in_change_set n = map_ok (only_slot slot) (
      traverse storage_cs_val.decode (
        first_dup (be_bytes 8 n ++ (adr ++ be_bytes 8 inc)) slot (laws.scan tx "StorageChangeSet")))

  abbrev pub at_change : Option BlockNumber → Result (Option ℕ)
  at_change none = ok none
  at_change (some n) = slot_in_change_set n

  slot_before-change :
      (o : Option BlockNumber) (tx' : m.Transaction)
      → IsAddress adr
      → tl.can_open tx' "StorageChangeSet" (flags_of access Tables.storage_change_set) ≡ true
      → laws.scan tx' "StorageChangeSet" ≡ laws.scan tx "StorageChangeSet"
      → (slot_before access adr inc slot o tx').0 ≡ at_change o
  unfolding slot_before
  slot_before-change none tx' ha can same = refl
  slot_before-change (some n) tx' ha can same =
      let (cur, tx'', made, es, scans, values, opens) =
        cursor-entries tl cl laws access Tables.storage_change_set tx' can in
      rw
        (
          made,
          seek_dup-first tl cl laws Tables.storage_change_set h256_type.encode (n, (adr, inc)) slot
              _ slot cur (storage_cs_key-bytes n adr inc ha) (h256-bytes slot),
          es,
          same,
        )
        (continue-pure (only_slot slot) _ tx'')

  -- Without a shard from the slot and block on, in a table that can be opened, the read is an error,
  -- "No value".
  pub read_storage_hist-no_shard :
      (block : BlockNumber)
      → IsAddress adr
      → IsH256 slot
      → tl.can_open tx "StorageHistory" (flags_of access Tables.storage_history) ≡ true
      → from_key (adr ++ slot ++ be_bytes 8 block) (laws.scan tx "StorageHistory") ≡ []
      → (read_storage_hist access adr inc slot block tx).0 ≡ err (message "No value")
  unfolding read_storage_hist
  read_storage_hist-no_shard block ha hs can h =
      let (cur, tx', made, es, scans, values, opens) =
        cursor-entries tl cl laws access Tables.storage_history tx can in
      rw (
        made,
        seek-first tl cl laws Tables.storage_history storage_hist_key.decode (adr, slot, block) _
            cur (storage_hist_key-bytes adr slot block ha hs),
        es,
        h,
      )

  -- With a shard that decodes to the bitmap `map`, the read at a block above 0 finds the least block of
  -- `map` that is at least that one, and returns what the change set of that block has for the slot,
  -- or no value where `map` has no such block. The address has 20 bytes, the slot 32, and the tables
  -- can be opened.
  pub read_storage_hist-least_change :
      (block : BlockNumber) (e : Entry) (es : List Entry) (k : Tables.storage_history.Key)
      (map : r.Treemap)
      → 0 < block
      → IsAddress adr
      → IsH256 slot
      → tl.can_open tx "StorageHistory" (flags_of access Tables.storage_history) ≡ true
      → tl.can_open tx "StorageChangeSet" (flags_of access Tables.storage_change_set) ≡ true
      → from_key (adr ++ slot ++ be_bytes 8 block) (laws.scan tx "StorageHistory") ≡ e ∷ es
      → decode Tables.storage_history storage_hist_key.decode e ≡ ok (k, map)
      → (o : Option BlockNumber) × IsLeastGte block (r.members map) o
        × ((read_storage_hist access adr inc slot block tx).0 ≡ at_change o)
  unfolding read_storage_hist
  read_storage_hist-least_change block e es k map pos ha hs can can' h d =
      let (cur, tx', made, at_cur, same, kept, opens) =
        cursor-entries tl cl laws access Tables.storage_history tx can in
      (
        find_gte map block,
        find_gte-IsLeastGte map block (inl pos),
        rw
            (
              made,
              seek-first tl cl laws Tables.storage_history storage_hist_key.decode
                  (adr, slot, block) _ cur (storage_hist_key-bytes adr slot block ha hs),
              at_cur,
              h,
              d,
            )
            (slot_before-change (find_gte map block) tx' ha (opens "StorageChangeSet" _ can')
              (same "StorageChangeSet")),
      )
