-- ===== src/Crates/Stand/Store.antt =====
-- A store in memory that stands in for mdbx, and a bitmap that stands in for roaring.
use text.Mathlib.Text.{◌==◌}
use erigon_db.Prelude.{
  map, ℕ, suc, ◌+◌, ◌<◌, ◌≡◌, refl, Option, none, some, Bool, true, false, ◌&&◌, List, [], ◌∷◌,
  String, bytes_eq, if◌then◌else◌, All, get_elem?, arith,
}
use erigon_db.Outcome.{Outcome, ok}
use erigon_db.Crates.Roaring.{RoaringCrate, IsAscending, count_le}
use erigon_db.Crates.Mdbx.{
  MdbxCrate, CursorLaws, TxLaws, ScanLaws, EnvLaws, Entry, from_key, from_dup, head?, tail,
}

-- A table's name and whether it has duplicates.
abbrev pub Handle : Type 0
Handle = String × Bool

-- What was put, newest first.
abbrev pub Log : Type 0
Log = List (String × Entry)

abbrev pub lookup : Log → String → List ℕ → Option (List ℕ)
lookup [] n k = none
lookup ((n', (k', v)) ∷ log) n k = if n == n' && bytes_eq k k' then some v else lookup log n k

abbrev pub contents : Log → String → List Entry
contents [] n = []
contents ((n', e) ∷ log) n = if n == n' then e ∷ contents log n else contents log n

pub record Position : Type 0 where
  pub entries : List Entry
  pub rest : List Entry
  pub rest_dups : List Entry

abbrev pub at_entries : Position → List Entry → Position
at_entries c es = record { entries = c.entries; rest = tail es; rest_dups = [] }

abbrev pub at_dups : Position → List Entry → Position
at_dups c es = record { entries = c.entries; rest = c.rest; rest_dups = tail es }

abbrev pub value? : Option Entry → Option (List ℕ)
value? none = none
value? (some e) = some e.1

instance abbrev pub mdbx : MdbxCrate
mdbx = record {
  FilePath = String;
  Environment = Log;
  Transaction = Log;
  Database = Handle;
  Cursor = Position;
  open_env = λ path n flags. ok [];
  begin_ro_txn = ok;
  begin_rw_txn = ok;
  open_db_with_flags = λ tx n fl. (ok (n, fl.dup_sort), tx);
  get = λ tx db k. ok (lookup tx db.0 k);
  put = λ tx db k v. (ok tt, (db.0, (k, v)) ∷ tx);
  commit = λ tx env. (ok false, tx);
  cursor =
      λ tx db. ok (record { entries = contents tx db.0; rest = contents tx db.0; rest_dups = [] });
  set_range = λ c k. let es = from_key k c.entries in (ok (head? es), at_entries c es);
  get_both_range =
      λ c k v. let es = from_dup k v c.entries in (ok (value? (head? es)), at_dups c es);
  first = λ c. (ok (head? c.entries), at_entries c c.entries);
  next = λ c. (ok (head? c.rest), at_entries c c.rest);
  next_dup = λ c. (ok (head? c.rest_dups), at_dups c c.rest_dups);
  iter_from = λ c k. map ok (from_key k c.entries);
}

abbrev pub cursor_laws : CursorLaws mdbx
cursor_laws = record {
  entries = λ c. c.entries;
  rest = λ c. c.rest;
  rest_dups = λ c. c.rest_dups;
  set_range_lem = λ c k. (refl, refl);
  iter_from_lem = λ c k. refl;
  next_lem = λ c. (refl, refl);
  get_both_range_lem = λ c k v e es h. rw h (refl, refl);
  get_both_range_none = λ c k v h. rw h;
  next_dup_lem = λ c. (refl, refl);
}

pub same : {a b : Log} → ◌≡◌ {A = Outcome ℕ Log} (ok a) (ok b) → b ≡ a
same e = cc

abbrev pub tx_laws : TxLaws mdbx
tx_laws = record {
  value = lookup;
  can_open = λ tx n fl. true;
  name_of = λ db. db.0;
  has_dups = λ db. db.1;
  open_lem = λ tx n fl h. ((n, fl.dup_sort), refl, refl, refl);
  open_keeps = λ tx n n' fl k. refl;
  open_can_open = λ tx n n' fl fl' h. refl;
  get_lem = λ tx db k. refl;
  put_lem = λ tx db k v n' k' single done. refl;
  put_can_open = λ tx db k v n fl h. refl;
}

-- An environment is the log that was committed last.
abbrev pub env_laws : EnvLaws mdbx tx_laws
env_laws = record {
  stored = lookup;
  opens = λ env n fl. true;
  begin_ro_values = λ env tx h n k. rw (same h) refl;
  begin_ro_opens = λ env tx h n fl ro o. refl;
  begin_rw_values = λ env tx h n k. rw (same h) refl;
  begin_rw_opens = λ env tx h n fl o. refl;
  commit_values = λ tx env h n k. refl;
  commit_opens = λ tx env h n fl o. refl;
}

-- The members from `s` on, given by the gaps between them.
abbrev pub members_from : ℕ → List ℕ → List ℕ
members_from s [] = []
members_from s (gap ∷ gaps) = (s + gap) ∷ members_from (suc (s + gap)) gaps

pub members_from_above : (k s : ℕ) (gaps : List ℕ) → k < s → All (λ y. k < y) (members_from s gaps)
members_from_above k s [] h = tt
members_from_above k s (gap ∷ gaps) h =
    (omega arith, members_from_above k (suc (s + gap)) gaps (omega arith))

pub members_from-IsAscending : (s : ℕ) (gaps : List ℕ) → IsAscending (members_from s gaps)
members_from-IsAscending s [] = tt
members_from-IsAscending s (gap ∷ gaps) = (
  members_from_above (s + gap) (suc (s + gap)) gaps (omega arith),
  members_from-IsAscending (suc (s + gap)) gaps,
)

instance abbrev pub roaring : RoaringCrate
roaring = record {
  Treemap = List ℕ;
  members = members_from 0;
  rank = λ m n. count_le n (members_from 0 m);
  select = λ m i. get_elem? (members_from 0 m) i;
  serialize = λ m. m;
  deserialize_from = ok;
  members-IsAscending = members_from-IsAscending 0;
  rank_lem = λ m n. refl;
  select_lem = λ m i. refl;
  deserialize-serialize = λ m. refl;
}

abbrev pub scan_laws : ScanLaws mdbx tx_laws cursor_laws
scan_laws = record {
  scan = contents;
  open_scan = λ tx n n' fl. refl;
  cursor_lem = λ tx db.
      (record { entries = contents tx db.0; rest = contents tx db.0; rest_dups = [] }, refl, refl);
}
