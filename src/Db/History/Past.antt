-- ===== src/Db/History/Past.antt =====
-- `read_storage_hist` on a database that holds the past of a slot.
use erigon_db.Prelude.{ℕ, ◌<◌, ◌≡◌, sym, ◌∙◌, Option, none, some, List, ◌++◌, true, bytes_eq_self}
use erigon_db.Prelude.Digits.{be_bytes}
use erigon_db.Outcome.{ok}
use erigon_db.Crates.{
  MdbxCrate, CursorLaws, TxLaws, ScanLaws, RoaringCrate, BufCrate, UintCrate, FixedHashCrate,
  ArrayVecCrate, H256, Address, IsH256, IsAddress, IsAscending,
}
use erigon_db.Kv.Env.{Access}
use erigon_db.Kv.Cursor.{decode}
use erigon_db.Kv.Values.{roaring_object}
use erigon_db.Kv.Values.RoundTrip.{IsU256}
use erigon_db.Models.Keys.{BlockNumber, Incarnation, storage_hist_key, storage_cs_val}
use erigon_db.Models.Keys.RoundTrip.{IsU64, storage_hist_key-Fits, storage_cs_val-Fits}
use erigon_db.Utils.Bitmap.{Elem, IsLeastGte}
use erigon_db.Db.Access.Laws.{flags_of}
use erigon_db.Db.Access.Cursors.{first_dup}
use erigon_db.Db.Reads.{only_slot, read_storage}
use erigon_db.Db.Reads.Laws.{Stored, read_storage_lem, ok-injective}
use erigon_db.Db.History.{read_storage_hist}
use erigon_db.Db.History.Shards.{Shard, all_blocks, shard_entry, HoldsShards, HoldsShards-Found}
use erigon_db.Db.History.Timeline.{
  Timeline, blocks_of, before, last_value, in_past_or_last, past, before-least, before-last,
}
use erigon_db.Db.History.Slots.{storage_hist_key-bytes, at_change, read_storage_hist-least_change}
use erigon_db.Db.Tables

module _ ⦃m : MdbxCrate⦄ ⦃f : FixedHashCrate⦄ ⦃v : ArrayVecCrate⦄ ⦃u : UintCrate⦄ ⦃b : BufCrate⦄
    ⦃r : RoaringCrate⦄ (tl : TxLaws m) (cl : CursorLaws m) (laws : ScanLaws m tl cl)
    (access : Access) (adr : Address) (inc : Incarnation) (slot : H256) (tx : m.Transaction) where
  -- The history holds the blocks of the changes, and each change set the value before its block.
  pub record HoldsPast (t : Timeline ℕ) (shards : List Shard) : Type 0 where
    pub is_address : IsAddress adr
    pub is_slot : IsH256 slot
    pub open_history :
        tl.can_open tx "StorageHistory" (flags_of access Tables.storage_history) ≡ true
    pub open_change_set :
        tl.can_open tx "StorageChangeSet" (flags_of access Tables.storage_change_set) ≡ true
    pub ascending : IsAscending (blocks_of t.changes)
    pub history : HoldsShards (laws.scan tx "StorageHistory") (adr ++ slot) shards
    pub same_blocks : all_blocks shards ≡ blocks_of t.changes
    pub change_sets :
        (n : BlockNumber)
        → Elem n (blocks_of t.changes)
        → IsU256 (before t.initial t.changes n)
          × ((bs : List ℕ)
              → storage_cs_val.encode (slot, before t.initial t.changes n) ≡ ok bs
              → first_dup
                  (be_bytes 8 n ++ (adr ++ be_bytes 8 inc))
                  slot
                  (laws.scan tx "StorageChangeSet")
                ≡ some bs)

  decode_shard :
      (s : Shard)
      → IsAddress adr
      → IsH256 slot
      → IsU64 s.upper
      → decode Tables.storage_history storage_hist_key.decode (shard_entry (adr ++ slot) s)
        ≡ ok ((adr, slot, s.upper), s.blocks)
  unfolding decode roaring_object
  decode_shard s ha hs hu =
      let (bs, e, d, l) = storage_hist_key-Fits.trip (adr, slot, s.upper) (ha, hs, hu) in
      rw (
        ok-injective (sym (storage_hist_key-bytes adr slot s.upper ha hs) ∙ e),
        d,
        r.deserialize-serialize s.blocks,
      )

  at_change-before :
      (t : Timeline ℕ) (shards : List Shard) (block : BlockNumber) (o : Option BlockNumber)
      → HoldsPast t shards
      → IsLeastGte block (blocks_of t.changes) o
      → at_change tl cl laws access adr inc slot tx o ≡ ok (past t block)
  at_change-before t shards block none h l = rw ((before-last t.initial t.changes block l).0)
  at_change-before t shards block (some n) h l =
      let (later, same) = before-least t.initial t.changes block n h.ascending l in
      let (range, stored) = h.change_sets n l.0 in
      let (bs, e, d, w) =
        storage_cs_val-Fits.trip (slot, before t.initial t.changes n) (h.is_slot, range) in
      rw (stored bs e, d, later, same) (unfold only_slot in rw (bytes_eq_self slot))

  -- Where the database holds the past of the slot in shards and change sets, `read_storage_hist` at a
  -- block above 0 returns the value that the slot had before that block, if a change from the block on
  -- has put it into the history, and else no value.
  pub read_storage_hist-past :
      (t : Timeline ℕ) (shards : List Shard) (block : BlockNumber)
      → HoldsPast t shards
      → 0 < block
      → IsU64 block
      → (read_storage_hist access adr inc slot block tx).0 ≡ ok (past t block)
  read_storage_hist-past t shards block h pos range =
      let (s, es, hu, found, least) =
        HoldsShards-Found (laws.scan tx "StorageHistory") (adr ++ slot) shards block h.history
          range in
      let (o, is_least, e) =
        read_storage_hist-least_change tl cl laws access adr inc slot tx block
          (shard_entry (adr ++ slot) s) es (adr, slot, s.upper) s.blocks pos h.is_address h.is_slot
          h.open_history h.open_change_set found (decode_shard s h.is_address h.is_slot hu) in
      e ∙ at_change-before t shards block o h (rw h.same_blocks at (least o is_least))

  -- Where the database holds the past of the slot, and its state the last value, the value before any
  -- block above 0 is the one that `read_storage_hist` returns or, where that returns none, the one that
  -- `read_storage` returns.
  pub past_or_current :
      (t : Timeline ℕ) (shards : List Shard) (block : BlockNumber)
      → HoldsPast t shards
      → 0 < block
      → IsU64 block
      → tl.can_open tx "PlainState" (flags_of access Tables.storage) ≡ true
      → Stored
          (some (slot, last_value t.initial t.changes))
          (first_dup (adr ++ be_bytes 8 inc) slot (laws.scan tx "PlainState"))
      → (o : Option ℕ) × (p : Option ℕ) × ((read_storage_hist access adr inc slot block tx).0
          ≡ ok o)
        × ((read_storage access adr inc slot tx).0 ≡ ok p)
        × ((elim o [ none ↦ p | some x ↦ some x ]) ≡ some (before t.initial t.changes block))
  past_or_current t shards block h pos range can current = (
    past t block,
    some (last_value t.initial t.changes),
    read_storage_hist-past t shards block h pos range,
    read_storage_lem tl cl laws access adr inc slot (some (slot, last_value t.initial t.changes)) tx
          h.is_address can current
        ∙ rw (bytes_eq_self slot),
    in_past_or_last t.initial t.changes block,
  )
