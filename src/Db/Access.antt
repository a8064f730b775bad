-- ===== src/Db/Access.antt =====
-- erigon/mod.rs: `read`, `write` and `cursor` open a table with its default flags.
pub mod Laws
pub mod Cursors
pub mod Headers
use erigon_db.Prelude.{ℕ, Option}
use erigon_db.Crates.{MdbxCrate}
use erigon_db.Kv.Env.{Access, rw_mode}
use erigon_db.Kv.Tx
use erigon_db.Kv.Tx.{Table, Action, ◌>>=◌}

module _ ⦃m : MdbxCrate⦄ where
  unfoldable pub read : Access → (t : Table) → t.Key → Action (Option t.Value)
  read access t key = do db ← Tx.open_db access t; Tx.get t db key

  unfoldable pub cursor : Access → Table → Action m.Cursor
  cursor access t = do db ← Tx.open_db access t; Tx.cursor db

  unfoldable pub write : (t : Table) → t.Key → t.Value → Action (Unit {0})
  write t key val = do db ← Tx.open_db rw_mode t; Tx.put t db key val
