-- ===== src/Examples/Store.antt =====
-- Reads, writes and walks of a store in memory.
use erigon_db.Prelude.{
  ℕ, ◌≡◌, refl, arith, none, List, [], ◌∷◌, ◌++◌, replicate, map, take, String, bytes_eq,
}
use erigon_db.Prelude.Digits.{be_bytes}
use erigon_db.Prelude.Lex.{lex_ltb}
use erigon_db.Outcome.{Result, ok, err, message}
use erigon_db.Crates.Mdbx.{Entry, from_key}
use erigon_db.Crates.Stand.{buf, uint, fixed_hash, array_vec}
use erigon_db.Crates.Stand.Store.{Log, Position, mdbx, roaring, cursor_laws, tx_laws, scan_laws}
use erigon_db.Kv.Env.{ro_mode, rw_mode}
use erigon_db.Kv.Cursor.{next}
use erigon_db.Kv.Tx
use erigon_db.Kv.Tx.{decode_val}
use erigon_db.Kv.Walk.{next_entry, Walker, walker_next, walk, iter, collect}
use erigon_db.Kv.Walk.Laws.{walk-ends, after, iter-walk}
use erigon_db.Kv.Values.{h256_type, uint_type}
use erigon_db.Models.Keys.{u64_key}
use erigon_db.Db.Access.{read, write}
use erigon_db.Db.Access.Laws.{read-write_ne}
use erigon_db.Db.History.{read_storage_hist}
use erigon_db.Db.History.Slots.{read_storage_hist-no_shard}
use erigon_db.Db.Tables

abbrev pub owner : List ℕ
owner = replicate 20 7

abbrev pub slot_two : List ℕ
slot_two = replicate 32 2

abbrev pub slot_four : List ℕ
slot_four = replicate 32 4

abbrev headers : List Entry
headers = (be_bytes 8 1, slot_two) ∷ (be_bytes 8 2, slot_four) ∷ (be_bytes 8 3, 9 ∷ []) ∷ []

abbrev pub start : List Entry → Position
start es = record { entries = es; rest = es; rest_dups = [] }

abbrev pub slots : List Entry
slots =
    (owner ++ be_bytes 8 1, slot_two ++ 9 ∷ []) ∷ (owner ++ be_bytes 8 1, slot_four ++ 5 ∷ []) ∷ []

abbrev pub in_table : String → List Entry → Log
in_table n es = map (λ e. (n, e)) es

walk-ends_example :
    (w : Walker Position (ℕ × List ℕ)) × (walk Tables.canonical_header u64_key.decode 2
        (start headers)
      ≡ ok w)
    × ((walker_next
          (next Tables.canonical_header u64_key.decode)
          (after (next Tables.canonical_header u64_key.decode) 2 w)).0
        ≡ none)
walk-ends_example =
    walk-ends cursor_laws Tables.canonical_header u64_key.decode 2 (be_bytes 8 2) (start headers) 2
      (unfold u64_key uint_type in refl) (unfold from_key lex_ltb be_bytes in omega arith)

read-write_ne_example :
    (read rw_mode Tables.canonical_header 6 (write Tables.canonical_header 5 slot_two []).1).0
    ≡ (read rw_mode Tables.canonical_header 6 []).0
read-write_ne_example =
    read-write_ne tx_laws Tables.canonical_header 5 slot_two (be_bytes 8 5) slot_two
      Tables.canonical_header 6 (be_bytes 8 6) [] refl refl refl (unfold u64_key uint_type in refl)
      (unfold h256_type in refl) (unfold u64_key uint_type in refl)
      (unfold write Tx.open_db Tx.put u64_key uint_type h256_type in refl)
      (unfold be_bytes bytes_eq in refl)

-- A shard of the history of `owner`, with changes in the blocks 2, 5 and 9.
abbrev shard : Log
shard = in_table "AccountHistory" ((owner ++ be_bytes 8 9, 2 ∷ 2 ∷ 3 ∷ []) ∷ [])

abbrev slot_shard : Log
slot_shard = in_table "StorageHistory" ((owner ++ slot_two ++ be_bytes 8 9, 2 ∷ 2 ∷ 3 ∷ []) ∷ [])

read_storage_hist-no_shard_example :
    (read_storage_hist ⦃r = roaring⦄ ro_mode owner 1 slot_two 10 slot_shard).0
    ≡ err (message "No value")
read_storage_hist-no_shard_example =
    read_storage_hist-no_shard ⦃r = roaring⦄ tx_laws cursor_laws scan_laws ro_mode owner 1 slot_two
      slot_shard 10 refl refl refl (unfold from_key lex_ltb be_bytes in refl)

iter-walk_example :
    (w : Walker Position (ℕ × List ℕ)) × (items : List (Result (ℕ × List ℕ))) × (walk
        Tables.canonical_header u64_key.decode 2
        (start headers)
      ≡ ok w)
    × (iter Tables.canonical_header u64_key.decode 2 (start headers) ≡ ok items)
    × (collect (next_entry Tables.canonical_header u64_key.decode) 2 w ≡ take 2 items)
iter-walk_example =
    iter-walk cursor_laws Tables.canonical_header u64_key.decode 2 (be_bytes 8 2) (start headers) 2
      (unfold u64_key uint_type in refl)
