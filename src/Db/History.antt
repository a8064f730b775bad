-- ===== src/Db/History.antt =====
-- erigon/mod.rs: the state of accounts and of storage at a past block.
pub mod Shards
pub mod Timeline
pub mod Past
pub mod PastAccounts
pub mod Slots
pub mod Accounts
use erigon_db.Prelude.{
  ℕ, Option, none, some, List, Bool, true, false, ◌&&◌, ltb, bytes_eq, if◌then◌else◌,
}
use erigon_db.Outcome.{message, ok_or}
use erigon_db.Crates.{
  MdbxCrate, BufCrate, UintCrate, FixedHashCrate, ArrayVecCrate, RoaringCrate, H256, Address,
  zero_hash,
}
use erigon_db.Kv.Env.{Access}
use erigon_db.Kv.Tx.{Action, lift, pure, ◌>>=◌}
use erigon_db.Kv.Cursor.{seek, seek_dup}
use erigon_db.Kv.Values.{h256_type, address_type}
use erigon_db.Models.Keys.{
  BlockNumber, Incarnation, account_hist_key, storage_hist_key, to_storage_cs_key,
}
use erigon_db.Models.Account.{Account, set_codehash}
use erigon_db.Utils.{find_gte}
use erigon_db.Db.Access.{cursor}
use erigon_db.Db.Reads.{only_slot, read_codehash}
use erigon_db.Db.Tables

module _ ⦃m : MdbxCrate⦄ ⦃f : FixedHashCrate⦄ ⦃v : ArrayVecCrate⦄ ⦃u : UintCrate⦄ ⦃b : BufCrate⦄
    ⦃r : RoaringCrate⦄ (access : Access) where
  -- A contract whose code hash is not stored with the change has it in `PlainCodeHash`.
  unfoldable pub recover_codehash : Address → Account → Action Account
  recover_codehash adr acct =
      if ltb 0 acct.incarnation && bytes_eq acct.codehash zero_hash
      then (do
        found ← read_codehash access adr acct.incarnation
        hash ← lift (ok_or found (message "No value"))
        pure (set_codehash acct hash))
      else pure acct

  -- The entry of the change set counts only where it is that of `adr`.
  unfoldable pub changed_account : Address → Option (Address × Account) → Action (Option Account)
  changed_account adr none = pure none
  changed_account adr (some (k, acct)) =
      if bytes_eq k adr
      then (do acct' ← recover_codehash adr acct; pure (some acct'))
      else pure none

  unfoldable pub account_before : Address → Option BlockNumber → Action (Option Account)
  account_before adr none = pure none
  account_before adr (some cs_block) = do
    cs_cur ← cursor access Tables.account_change_set
    found ← lift (seek_dup Tables.account_change_set address_type.encode cs_block adr cs_cur).0
    changed_account adr found

  unfoldable pub read_account_hist : Address → BlockNumber → Action (Option Account)
  read_account_hist adr block = do
    hist_cur ← cursor access Tables.account_history
    found ← lift (seek Tables.account_history account_hist_key.decode (adr, block) hist_cur).0
    shard ← lift (ok_or found (message "No value"))
    account_before adr (find_gte shard.1 block)

  unfoldable pub slot_before : Address → Incarnation → H256 → Option BlockNumber → Action (Option ℕ)
  slot_before adr inc slot none = pure none
  slot_before adr inc slot (some cs_block) = do
    cs_cur ← cursor access Tables.storage_change_set
    found ←
        lift
          (seek_dup Tables.storage_change_set h256_type.encode
            (to_storage_cs_key (cs_block, adr, inc)) slot cs_cur).0
    pure (only_slot slot found)

  unfoldable pub read_storage_hist : Address → Incarnation → H256 → BlockNumber → Action (Option ℕ)
  read_storage_hist adr inc slot block = do
    hist_cur ← cursor access Tables.storage_history
    found ← lift (seek Tables.storage_history storage_hist_key.decode (adr, slot, block) hist_cur).0
    shard ← lift (ok_or found (message "No value"))
    slot_before adr inc slot (find_gte shard.1 block)
