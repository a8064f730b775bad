-- ===== src/Crates/Mdbx.antt =====
-- `libmdbx`: environments, transactions, named tables and cursors. A call that changes a transaction
-- or moves a cursor returns it beside its result; an error is its code.
use erigon_db.Prelude.{
  map, ℕ, ◌≡◌, Option, none, some, Bool, true, false, ◌&&◌, List, [], ◌∷◌, String, bytes_eq,
  if◌then◌else◌,
}
use text.Mathlib.Text.{◌==◌}
use erigon_db.Prelude.Lex.{lex_ltb, lex_leb}
use erigon_db.Outcome.{Outcome, ok}

abbrev pub Entry : Type 0
Entry = List ℕ × List ℕ

-- `DatabaseFlags::DUP_SORT` and `CREATE`.
pub record DatabaseFlags : Type 0 where
  pub dup_sort : Bool
  pub create : Bool

pub data Mode : Type 0 where
  read_only : Mode
  read_write_durable : Mode

pub record EnvironmentFlags : Type 0 where
  pub mode : Mode
  pub no_sub_dir : Bool
  pub exclusive : Bool
  pub accede : Bool
  pub no_rdahead : Bool
  pub no_meminit : Bool
  pub coalesce : Bool
  pub liforeclaim : Bool

pub record MdbxCrate : Type 1 where
  pub FilePath : Type 0
  pub Environment : Type 0
  pub Transaction : Type 0
  pub Database : Type 0
  pub Cursor : Type 0
  pub open_env : FilePath → ℕ → EnvironmentFlags → Outcome ℕ Environment
  pub begin_ro_txn : Environment → Outcome ℕ Transaction
  pub begin_rw_txn : Environment → Outcome ℕ Transaction
  pub open_db_with_flags : Transaction → String → DatabaseFlags → Outcome ℕ Database × Transaction
  pub get : Transaction → Database → List ℕ → Outcome ℕ (Option (List ℕ))
  -- With `WriteFlags::UPSERT`.
  pub put : Transaction → Database → List ℕ → List ℕ → Outcome ℕ (Unit {0}) × Transaction
  -- The result is whether the transaction was aborted for an earlier error.
  pub commit : Transaction → Environment → Outcome ℕ Bool × Environment
  pub cursor : Transaction → Database → Outcome ℕ Cursor
  pub set_range : Cursor → List ℕ → Outcome ℕ (Option Entry) × Cursor
  pub get_both_range : Cursor → List ℕ → List ℕ → Outcome ℕ (Option (List ℕ)) × Cursor
  pub first : Cursor → Outcome ℕ (Option Entry) × Cursor
  pub next : Cursor → Outcome ℕ (Option Entry) × Cursor
  pub next_dup : Cursor → Outcome ℕ (Option Entry) × Cursor
  -- The items of its iterator.
  pub iter_from : Cursor → List ℕ → List (Outcome ℕ Entry)

abbrev pub head? {ℓ} : {A : Type ℓ} → List A → Option A
head? [] = none
head? (x ∷ xs) = some x

abbrev pub tail {ℓ} : {A : Type ℓ} → List A → List A
tail [] = []
tail (x ∷ xs) = xs

-- The entries from the first key on that is at least `k`.
unfoldable pub from_key : List ℕ → List Entry → List Entry
from_key k [] = []
from_key k (e ∷ es) = if lex_ltb e.0 k then from_key k es else e ∷ es

-- The entries of the key `k` whose value is at least `v`.
unfoldable pub from_dup : List ℕ → List ℕ → List Entry → List Entry
from_dup k v [] = []
from_dup k v (e ∷ es) =
    let rest = from_dup k v es in if bytes_eq e.0 k && lex_leb v e.1 then e ∷ rest else rest

-- What a cursor does over the sorted entries of its table, where no call of mdbx fails.
pub record CursorLaws (m : MdbxCrate) : Type 0 where
  pub entries : m.Cursor → List Entry
  -- The entries behind the position, and those of the same key.
  pub rest : m.Cursor → List Entry
  pub rest_dups : m.Cursor → List Entry
  pub set_range_lem :
      (c : m.Cursor) (k : List ℕ)
      → ((m.set_range c k).0 ≡ ok (head? (from_key k (entries c))))
        × (rest (m.set_range c k).1 ≡ tail (from_key k (entries c)))
  pub iter_from_lem :
      (c : m.Cursor) (k : List ℕ) → m.iter_from c k ≡ map ok (from_key k (entries c))
  pub next_lem :
      (c : m.Cursor) → ((m.next c).0 ≡ ok (head? (rest c))) × (rest (m.next c).1 ≡ tail (rest c))
  pub get_both_range_lem :
      (c : m.Cursor) (k v : List ℕ) (e : Entry) (es : List Entry)
      → from_dup k v (entries c) ≡ e ∷ es
      → ((m.get_both_range c k v).0 ≡ ok (some e.1)) × (rest_dups (m.get_both_range c k v).1 ≡ es)
  pub get_both_range_none :
      (c : m.Cursor) (k v : List ℕ)
      → from_dup k v (entries c) ≡ []
      → (m.get_both_range c k v).0 ≡ ok none
  pub next_dup_lem :
      (c : m.Cursor)
      → ((m.next_dup c).0 ≡ ok (head? (rest_dups c)))
        × (rest_dups (m.next_dup c).1 ≡ tail (rest_dups c))

-- What a transaction holds: under each table name and key a value, if any (of several duplicates the
-- first), and which tables can be opened. Reads of an open table do not fail.
pub record TxLaws (m : MdbxCrate) : Type 0 where
  pub value : m.Transaction → String → List ℕ → Option (List ℕ)
  pub can_open : m.Transaction → String → DatabaseFlags → Bool
  pub name_of : m.Database → String
  pub has_dups : m.Database → Bool
  pub open_lem :
      (tx : m.Transaction) (n : String) (fl : DatabaseFlags)
      → can_open tx n fl ≡ true
      → (db : m.Database) × ((m.open_db_with_flags tx n fl).0 ≡ ok db)
        × (name_of db ≡ n)
        × (has_dups db ≡ fl.dup_sort)
  pub open_keeps :
      (tx : m.Transaction) (n n' : String) (fl : DatabaseFlags) (k : List ℕ)
      → value (m.open_db_with_flags tx n fl).1 n' k ≡ value tx n' k
  pub open_can_open :
      (tx : m.Transaction) (n n' : String) (fl fl' : DatabaseFlags)
      → can_open tx n' fl' ≡ true
      → can_open (m.open_db_with_flags tx n fl).1 n' fl' ≡ true
  pub get_lem :
      (tx : m.Transaction) (db : m.Database) (k : List ℕ)
      → m.get tx db k ≡ ok (value tx (name_of db) k)
  pub put_lem :
      (tx : m.Transaction) (db : m.Database) (k v : List ℕ) (n' : String) (k' : List ℕ)
      → has_dups db ≡ false
      → (m.put tx db k v).0 ≡ ok tt
      → value (m.put tx db k v).1 n' k'
        ≡ (if n' == name_of db && bytes_eq k' k then some v else value tx n' k')
  pub put_can_open :
      (tx : m.Transaction) (db : m.Database) (k v : List ℕ) (n : String) (fl : DatabaseFlags)
      → can_open tx n fl ≡ true
      → can_open (m.put tx db k v).1 n fl ≡ true

-- The entries of a table, which a fresh cursor stands before. To open a table does not change them.
pub record ScanLaws (m : MdbxCrate) (t : TxLaws m) (c : CursorLaws m) : Type 0 where
  pub scan : m.Transaction → String → List Entry
  pub open_scan :
      (tx : m.Transaction) (n n' : String) (fl : DatabaseFlags)
      → scan (m.open_db_with_flags tx n fl).1 n' ≡ scan tx n'
  pub cursor_lem :
      (tx : m.Transaction) (db : m.Database)
      → (cur : m.Cursor) × (m.cursor tx db ≡ ok cur) × (c.entries cur ≡ scan tx (t.name_of db))

-- What an environment stores: a transaction begins with that, and a commit stores what the
-- transaction holds. Which tables can be opened is carried along; a table that needs no creation can
-- be opened by readers too.
pub record EnvLaws (m : MdbxCrate) (t : TxLaws m) : Type 0 where
  pub stored : m.Environment → String → List ℕ → Option (List ℕ)
  pub opens : m.Environment → String → DatabaseFlags → Bool
  pub begin_ro_values :
      (env : m.Environment) (tx : m.Transaction)
      → m.begin_ro_txn env ≡ ok tx
      → (n : String) (k : List ℕ) → t.value tx n k ≡ stored env n k
  pub begin_ro_opens :
      (env : m.Environment) (tx : m.Transaction)
      → m.begin_ro_txn env ≡ ok tx
      → (n : String) (fl : DatabaseFlags) → fl.create ≡ false
      → opens env n fl ≡ true
      → t.can_open tx n fl ≡ true
  pub begin_rw_values :
      (env : m.Environment) (tx : m.Transaction)
      → m.begin_rw_txn env ≡ ok tx
      → (n : String) (k : List ℕ) → t.value tx n k ≡ stored env n k
  pub begin_rw_opens :
      (env : m.Environment) (tx : m.Transaction)
      → m.begin_rw_txn env ≡ ok tx
      → (n : String) (fl : DatabaseFlags) → opens env n fl ≡ true
      → t.can_open tx n fl ≡ true
  pub commit_values :
      (tx : m.Transaction) (env : m.Environment)
      → (m.commit tx env).0 ≡ ok false
      → (n : String) (k : List ℕ) → stored (m.commit tx env).1 n k ≡ t.value tx n k
  pub commit_opens :
      (tx : m.Transaction) (env : m.Environment)
      → (m.commit tx env).0 ≡ ok false
      → (n : String) (fl : DatabaseFlags) → t.can_open tx n fl ≡ true
      → opens (m.commit tx env).1 n fl ≡ true
