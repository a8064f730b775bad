-- ===== src/Kv/Tx.antt =====
-- kv/mod.rs: transactions. An action on a transaction returns its result and the transaction after it.
use erigon_db.Prelude.{ℕ, Option, Bool, List, String}
use erigon_db.Outcome.{mdbx, Result, ok, err, panic, map_err, traverse}
use erigon_db.Crates.{MdbxCrate, DatabaseFlags, Entry}
use erigon_db.Kv.Env.{Access, is_writeable}
use erigon_db.Kv.Traits.{TableObject}

-- `Table` and `DefaultFlags`. A key need not be decodable, so its decoder is no part of this.
pub record Table : Type 1 where
  pub Key : Type 0
  pub Value : Type 0
  pub SeekKey : Type 0
  pub name : String
  pub dup_sort : Bool
  pub encode_key : Key → Result (List ℕ)
  pub encode_seek : SeekKey → Result (List ℕ)
  pub object : TableObject Value

abbrev pub Action {ℓ} : ⦃m : MdbxCrate⦄ → Type ℓ → Type ℓ
Action ⦃m⦄ A = m.Transaction → Result A × m.Transaction

module _ ⦃m : MdbxCrate⦄ where
  abbrev pub pure {ℓ} : {A : Type ℓ} → A → Action A
  pure a tx = (ok a, tx)

  -- A result that does not touch the transaction.
  abbrev pub lift {ℓ} : {A : Type ℓ} → Result A → Action A
  lift r tx = (r, tx)

  abbrev pub continue {ℓ κ} :
      {A : Type ℓ} {B : Type κ}
      → Result A
      → (A → Action B)
      → m.Transaction
      → Result B × m.Transaction
  continue (ok a) f tx = f a tx
  continue (err e) f tx = (err e, tx)
  continue panic f tx = (panic, tx)

  infixl 5 ◌>>=◌
  abbrev pub ◌>>=◌ {ℓ κ} : {A : Type ℓ} {B : Type κ} → Action A → (A → Action B) → Action B
  ◌>>=◌ a f tx = let (r, tx') = a tx in continue r f tx'

  -- A writeable transaction creates the table if it does not exist.
  unfoldable pub open_db : Access → Table → Action m.Database
  unfolding is_writeable
  open_db access t tx =
      let flags : DatabaseFlags = record { dup_sort = t.dup_sort; create = is_writeable access } in
      let (r, tx') = m.open_db_with_flags tx t.name flags in (map_err mdbx r, tx')

  -- `decode_one`, `decode_val` and `decode`.
  unfoldable pub decode_one : (t : Table) → List ℕ → Result t.Value
  decode_one t val = t.object.decode val

  unfoldable pub decode_val : (t : Table) → Entry → Result t.Value
  decode_val t kv = t.object.decode kv.1

  unfoldable pub get_bytes : m.Transaction → m.Database → List ℕ → Result (Option (List ℕ))
  get_bytes tx db key = map_err mdbx (m.get tx db key)

  unfoldable pub get : (t : Table) → m.Database → t.Key → Action (Option t.Value)
  unfolding decode_one get_bytes
  get t db key = do
    k ← lift (t.encode_key key)
    found ← (λ tx. (get_bytes tx db k, tx))
    lift (traverse (decode_one t) found)

  unfoldable pub put : (t : Table) → m.Database → t.Key → t.Value → Action (Unit {0})
  put t db key val = do
    k ← lift (t.encode_key key)
    v ← lift (t.object.encode val)
    λ tx. let (r, tx') = m.put tx db k v in (map_err mdbx r, tx')

  unfoldable pub cursor : m.Database → Action m.Cursor
  cursor db tx = (map_err mdbx (m.cursor tx db), tx)

  -- The environment comes back with what it stores then.
  unfoldable pub commit : m.Transaction → m.Environment → Result Bool × m.Environment
  commit tx env = let (r, env') = m.commit tx env in (map_err mdbx r, env')
