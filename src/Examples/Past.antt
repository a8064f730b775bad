-- ===== src/Examples/Past.antt =====
-- The past of a slot in a store in memory.
use erigon_db.Prelude.{
  ℕ, ◌≡◌, refl, ap, ◌∙◌, sym, inl, inr, arith, Option, none, some, List, [], ◌∷◌, ◌++◌, bytes_eq,
}
use erigon_db.Prelude.Digits.{be_bytes, strip_zeros}
use erigon_db.Prelude.Lex.{lex_ltb, lex_leb}
use erigon_db.Outcome.{ok}
use erigon_db.Crates.Mdbx.{Entry, from_dup}
use erigon_db.Crates.Stand.{buf, uint, fixed_hash, array_vec}
use erigon_db.Crates.Stand.Store.{Log, mdbx, roaring, cursor_laws, tx_laws, scan_laws, contents}
use erigon_db.Kv.Env.{ro_mode}
use erigon_db.Kv.Values.{h256_type, slot_object, u256_type, extend}
use erigon_db.Kv.Values.RoundTrip.{IsU256}
use erigon_db.Macros.{tuple_key2}
use erigon_db.Models.Keys.{storage_cs_val}
use erigon_db.Utils.Bitmap.{Elem}
use erigon_db.Db.Access.Cursors.{first_dup}
use erigon_db.Db.Reads.{read_storage}
use erigon_db.Db.Reads.Laws.{ok-injective}
use erigon_db.Db.History.{read_storage_hist}
use erigon_db.Db.History.Shards.{Shard, last_shard}
use erigon_db.Db.History.Timeline.{Timeline, before}
use erigon_db.Db.History.Past.{HoldsPast, read_storage_hist-past, past_or_current}
use erigon_db.Examples.Store.{owner, slot_two, in_table}

-- The slot had the value 7, and 8, 6 and 4 behind the blocks 2, 5 and 9.
abbrev slot_past : Timeline ℕ
slot_past = record { initial = 7; changes = (2, 8) ∷ (5, 6) ∷ (9, 4) ∷ [] }

abbrev slot_shards : List (Shard ⦃r = roaring⦄)
slot_shards =
    (record { upper = 5; blocks = 2 ∷ 2 ∷ [] })
    ∷ (record { upper = last_shard; blocks = 9 ∷ [] })
    ∷ []

abbrev change : ℕ → ℕ → Entry
change n v = (be_bytes 8 n ++ (owner ++ be_bytes 8 1), slot_two ++ v ∷ [])

abbrev slot_db : Log
slot_db =
    in_table "StorageHistory" (
      (owner ++ slot_two ++ be_bytes 8 5, 2 ∷ 2 ∷ [])
      ∷ (owner ++ slot_two ++ be_bytes 8 last_shard, 9 ∷ [])
      ∷ [])
    ++ in_table "StorageChangeSet" (change 2 7 ∷ change 5 8 ∷ change 9 6 ∷ [])
    ++ in_table "PlainState" ((owner ++ be_bytes 8 1, slot_two ++ 4 ∷ []) ∷ [])

stored_value :
    (n v : ℕ) (bs : List ℕ)
    → storage_cs_val.encode (slot_two, v) ≡ ok (slot_two ++ v ∷ [])
    → first_dup
        (be_bytes 8 n ++ (owner ++ be_bytes 8 1))
        slot_two
        (contents slot_db "StorageChangeSet")
      ≡ some (slot_two ++ v ∷ [])
    → storage_cs_val.encode (slot_two, v) ≡ ok bs
    → first_dup
        (be_bytes 8 n ++ (owner ++ be_bytes 8 1))
        slot_two
        (contents slot_db "StorageChangeSet")
      ≡ some bs
stored_value n v bs e found e' = found ∙ ap some (ok-injective (sym e ∙ e'))

slot_changes :
    (n : ℕ)
    → Elem n (2 ∷ 5 ∷ 9 ∷ [])
    → IsU256 (before 7 slot_past.changes n)
      × ((bs : List ℕ)
          → storage_cs_val.encode (slot_two, before 7 slot_past.changes n) ≡ ok bs
          → first_dup
              (be_bytes 8 n ++ (owner ++ be_bytes 8 1))
              slot_two
              (contents slot_db "StorageChangeSet")
            ≡ some bs)
slot_changes n (inl e) = rw e (
  omega arith,
  λ bs.
      stored_value 2 7 bs
        (unfold storage_cs_val tuple_key2 h256_type u256_type extend strip_zeros be_bytes in refl)
        (unfold from_dup lex_leb lex_ltb be_bytes bytes_eq in refl),
)
slot_changes n (inr (inl e)) = rw e (
  omega arith,
  λ bs.
      stored_value 5 8 bs
        (unfold storage_cs_val tuple_key2 h256_type u256_type extend strip_zeros be_bytes in refl)
        (unfold from_dup lex_leb lex_ltb be_bytes bytes_eq in refl),
)
slot_changes n (inr (inr (inl e))) = rw e (
  omega arith,
  λ bs.
      stored_value 9 6 bs
        (unfold storage_cs_val tuple_key2 h256_type u256_type extend strip_zeros be_bytes in refl)
        (unfold from_dup lex_leb lex_ltb be_bytes bytes_eq in refl),
)
slot_changes n (inr (inr (inr e))) = elim e [ ]

slot_db-HoldsPast :
    HoldsPast ⦃r = roaring⦄ tx_laws cursor_laws scan_laws ro_mode owner 1 slot_two slot_db slot_past
      slot_shards
slot_db-HoldsPast = record {
  is_address = refl;
  is_slot = refl;
  open_history = refl;
  open_change_set = refl;
  ascending = ((omega arith, (omega arith, tt)), ((omega arith, tt), (tt, tt)));
  history = record {
    before = [];
    behind = [];
    split = refl;
    below = λ n v. tt;
    are_shards =
        (inr (inl refl), (omega arith, (omega arith, tt)), omega arith, (omega arith, tt), refl);
  };
  same_blocks = refl;
  change_sets = slot_changes;
}

read_storage_hist-past_example :
    (read_storage_hist ⦃r = roaring⦄ ro_mode owner 1 slot_two 6 slot_db).0 ≡ ok (some 6)
read_storage_hist-past_example =
    read_storage_hist-past ⦃r = roaring⦄ tx_laws cursor_laws scan_laws ro_mode owner 1 slot_two
      slot_db slot_past slot_shards 6 slot_db-HoldsPast (omega arith) (omega arith)

past_or_current_example :
    (o : Option ℕ) × (p : Option ℕ) × ((read_storage_hist ⦃r = roaring⦄ ro_mode owner 1 slot_two 10
        slot_db).0
      ≡ ok o)
    × ((read_storage ro_mode owner 1 slot_two slot_db).0 ≡ ok p)
    × ((elim o [ none ↦ p | some x ↦ some x ]) ≡ some 4)
past_or_current_example =
    past_or_current ⦃r = roaring⦄ tx_laws cursor_laws scan_laws ro_mode owner 1 slot_two slot_db
      slot_past slot_shards 10 slot_db-HoldsPast (omega arith) (omega arith) refl
      (
        slot_two ++ 4 ∷ [],
        unfold from_dup lex_leb lex_ltb be_bytes bytes_eq in refl,
        unfold slot_object h256_type u256_type extend strip_zeros be_bytes in refl,
        refl,
        omega arith,
      )
