-- ===== src/Db/Writes/Accounts.antt =====
-- What `write_account` does while accounts cannot be encoded.
use erigon_db.Prelude.{ℕ, ◌≡◌, refl, true, List, String}
use erigon_db.Outcome.{panic}
use erigon_db.Crates.{MdbxCrate, TxLaws, BufCrate, UintCrate, FixedHashCrate, Address}
use erigon_db.Kv.Env.{rw_mode}
use erigon_db.Kv.Tx
use erigon_db.Models.Account.{Account, account_type}
use erigon_db.Db.Access.{write}
use erigon_db.Db.Access.Laws.{flags_of}
use erigon_db.Db.History.Accounts.{address-bytes}
use erigon_db.Db.Writes.{write_account}
use erigon_db.Db.Tables

module _ ⦃m : MdbxCrate⦄ ⦃f : FixedHashCrate⦄ ⦃b : BufCrate⦄ ⦃u : UintCrate⦄ (laws : TxLaws m) where
  -- `write_account` panics for every address and account, before it has stored anything, where the table
  -- can be opened: no value in the transaction changes.
  pub write_account-panics :
      (adr : Address) (acct : Account) (tx : m.Transaction) (n : String) (k : List ℕ)
      → laws.can_open tx "PlainState" (flags_of rw_mode Tables.plain_state) ≡ true
      → ((write_account adr acct tx).0 ≡ panic)
        × (laws.value (write_account adr acct tx).1 n k ≡ laws.value tx n k)
  unfolding write_account write Tx.open_db Tx.put account_type
  write_account-panics adr acct tx n k can =
      let fl = flags_of rw_mode Tables.plain_state in
      let (db, opened, name, dups) = laws.open_lem tx "PlainState" fl can in
      (
        rw (opened, address-bytes adr) refl,
        rw (opened, address-bytes adr) (laws.open_keeps tx "PlainState" n fl k),
      )
