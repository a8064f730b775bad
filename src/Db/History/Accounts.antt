-- ===== src/Db/History/Accounts.antt =====
-- What `read_account_hist` finds, by the shard of the history and the entries of the change set.
use erigon_db.Prelude.{
  ℕ, ◌<◌, ◌≡◌, refl, ◌∙◌, Option, none, some, List, ◌∷◌, ◌++◌, true, arith, inl, inr, bytes_eq, ltb,
  ◌&&◌, if◌then◌else◌, Bool-cases,
}
use erigon_db.Prelude.Digits.{be_bytes, length-be_bytes}
use erigon_db.Outcome.{Result, ok, err, panic, message, traverse, ◌>>=◌, ok_or}
use erigon_db.Crates.{
  MdbxCrate, CursorLaws, TxLaws, ScanLaws, RoaringCrate, BufCrate, UintCrate, FixedHashCrate,
  ArrayVecCrate, H256, Address, IsAddress, Entry, from_key, zero_hash,
}
use erigon_db.Kv.Env.{Access}
use erigon_db.Kv.Tx
use erigon_db.Kv.Tx.{Action, continue, pure, lift}
use erigon_db.Kv.Cursor.{decode}
use erigon_db.Kv.Values.{h256_type, address_type, uint_type}
use erigon_db.Macros.Tuples.{tuple_key2-append}
use erigon_db.Models.Keys.{BlockNumber, Incarnation, plain_code_key, u64_key, account_hist_key}
use erigon_db.Models.Keys.Order.{account_hist_key-bytes}
use erigon_db.Models.Account.{Account, account_cs_val, set_codehash}
use erigon_db.Utils.{find_gte}
use erigon_db.Utils.Bitmap.{IsLeastGte, find_gte-IsLeastGte}
use erigon_db.Db.Access.Laws.{flags_of, read-value}
use erigon_db.Db.Access.Cursors.{cursor-entries, seek_dup-first, seek-first, first_dup}
use erigon_db.Db.Reads.{read_codehash}
use erigon_db.Db.History.{recover_codehash, changed_account, account_before, read_account_hist}
use erigon_db.Db.Tables

module _ ⦃f : FixedHashCrate⦄ ⦃v : ArrayVecCrate⦄ where
  plain_code_key-bytes :
      (a : Address) (n : Incarnation)
      → IsAddress a
      → plain_code_key.encode (a, n) ≡ ok (a ++ be_bytes 8 n)
  unfolding plain_code_key u64_key address_type uint_type
  plain_code_key-bytes a n h =
      tuple_key2-append _ _ a n a _ refl refl (omega (arith, length-be_bytes 8 n))

pub u64-bytes : (n : ℕ) → u64_key.encode n ≡ ok (be_bytes 8 n)
unfolding u64_key uint_type
u64-bytes n = refl

pub address-bytes : ⦃f : FixedHashCrate⦄ (a : Address) → address_type.encode a ≡ ok a
unfolding address_type
address-bytes a = refl

-- A step after a result, whose own result does not depend on the transaction.
pub continue_value :
    ⦃m : MdbxCrate⦄ {A B : Type 0} (r : Result A) (g : A → Action B) (h : A → Result B)
    (tx : m.Transaction)
    → ((a : A) → (g a tx).0 ≡ h a)
    → (continue r g tx).0 ≡ (r >>= h)
continue_value (ok a) g h tx e = e a
continue_value (err x) g h tx e = refl
continue_value panic g h tx e = refl

pub bind_value :
    ⦃m : MdbxCrate⦄ {A B : Type 0} (a : Action A) (r : Result A) (g : A → Action B)
    (h : A → Result B) (tx : m.Transaction)
    → (a tx).0 ≡ r
    → ((x : A) → (g x (a tx).1).0 ≡ h x)
    → (Tx.◌>>=◌ a g tx).0 ≡ (r >>= h)
bind_value a r g h tx e k = rw (← e) (continue_value (a tx).0 g h (a tx).1 k)

module _ ⦃m : MdbxCrate⦄ ⦃f : FixedHashCrate⦄ ⦃v : ArrayVecCrate⦄ ⦃u : UintCrate⦄ ⦃b : BufCrate⦄
    ⦃r : RoaringCrate⦄ (tl : TxLaws m) (cl : CursorLaws m) (laws : ScanLaws m tl cl)
    (access : Access) (adr : Address) (tx : m.Transaction) where
  -- The code hash that `PlainCodeHash` has for an incarnation of the account.
  abbrev pub code_of : Incarnation → Result (Option H256)
  code_of inc = traverse h256_type.decode (tl.value tx "PlainCodeHash" (adr ++ be_bytes 8 inc))

  -- The account with its code hash, which a contract may have only there.
  abbrev pub with_code : Account → Result Account
  with_code acct =
      if ltb 0 acct.incarnation && bytes_eq acct.codehash zero_hash
      then (do
        found ← code_of acct.incarnation
        hash ← ok_or found (message "No value")
        ok (set_codehash acct hash))
      else ok acct

  abbrev pub own_account : Option (Address × Account) → Result (Option Account)
  own_account none = ok none
  own_account (some (k, acct)) =
      if bytes_eq k adr then (do acct' ← with_code acct; ok (some acct')) else ok none

  -- The account that the change set of block `n` has.
  abbrev pub in_change_set : Option BlockNumber → Result (Option Account)
  in_change_set none = ok none
  in_change_set (some n) = do
    found ←
        traverse account_cs_val.decode
          (first_dup (be_bytes 8 n) adr (laws.scan tx "AccountChangeSet"))
    own_account found

  module _ (ha : IsAddress adr) (tx' : m.Transaction)
      (can : tl.can_open tx' "PlainCodeHash" (flags_of access Tables.plain_code_hash) ≡ true)
      (values : (n : _) (k : List ℕ) → tl.value tx' n k ≡ tl.value tx n k) where
    codehash_value : (inc : Incarnation) → (read_codehash access adr inc tx').0 ≡ code_of inc
    unfolding read_codehash
    codehash_value inc =
        read-value tl access Tables.plain_code_hash (adr, inc) (adr ++ be_bytes 8 inc) tx' can
          (plain_code_key-bytes adr inc ha)
        ∙ rw (values "PlainCodeHash" (adr ++ be_bytes 8 inc))

    recover-with_code : (acct : Account) → (recover_codehash access adr acct tx').0 ≡ with_code acct
    unfolding recover_codehash
    recover-with_code acct =
        elim (Bool-cases (ltb 0 acct.incarnation && bytes_eq acct.codehash zero_hash)) [
          | inr kept ↦ rw kept
          | inl lost ↦ rw lost (
              bind_value (read_codehash access adr acct.incarnation) _ _ _ tx'
                (codehash_value acct.incarnation)
                (λ found. continue_value (ok_or found (message "No value")) _ _ _ (λ hash. refl)))
        ]

    changed-own :
        (o : Option (Address × Account)) → (changed_account access adr o tx').0 ≡ own_account o
    unfolding changed_account
    changed-own none = refl
    changed-own (some (k, acct)) = elim (Bool-cases (bytes_eq k adr)) [
      | inr other ↦ rw other
      | inl own ↦ rw own (
          bind_value (recover_codehash access adr acct) _ _ _ tx' (recover-with_code acct)
            (λ acct'. refl))
    ]

  account_before-change :
      (o : Option BlockNumber) (tx' : m.Transaction)
      → IsAddress adr
      → tl.can_open tx' "AccountChangeSet" (flags_of access Tables.account_change_set) ≡ true
      → tl.can_open tx' "PlainCodeHash" (flags_of access Tables.plain_code_hash) ≡ true
      → laws.scan tx' "AccountChangeSet" ≡ laws.scan tx "AccountChangeSet"
      → ((n : _) (k : List ℕ) → tl.value tx' n k ≡ tl.value tx n k)
      → (account_before access adr o tx').0 ≡ in_change_set o
  unfolding account_before
  account_before-change none tx' ha can can_code same values = refl
  account_before-change (some n) tx' ha can can_code same values =
      let (cur, tx'', made, es, scans, values', opens) =
        cursor-entries tl cl laws access Tables.account_change_set tx' can in
      rw
        (
          made,
          seek_dup-first tl cl laws Tables.account_change_set address_type.encode n adr _ adr cur
              (u64-bytes n) (address-bytes adr),
          es,
          same,
        )
        (continue_value _ _ _ tx'' (
          changed-own ha tx'' (opens "PlainCodeHash" _ can_code) (λ n k. values' n k ∙ values n k)))

  -- With a shard that decodes to the bitmap `map`, the read at a block above 0 finds the least block of
  -- `map` that is at least that one, and returns the account that the change set of that block has for
  -- the address, with the code hash of a contract that was stored without one read from
  -- `PlainCodeHash`; or no account where `map` has no such block. The address has 20 bytes, and the
  -- tables can be opened.
  pub read_account_hist-least_change :
      (block : BlockNumber) (e : Entry) (es : List Entry) (k : Tables.account_history.Key)
      (map : r.Treemap)
      → 0 < block
      → IsAddress adr
      → tl.can_open tx "AccountHistory" (flags_of access Tables.account_history) ≡ true
      → tl.can_open tx "AccountChangeSet" (flags_of access Tables.account_change_set) ≡ true
      → tl.can_open tx "PlainCodeHash" (flags_of access Tables.plain_code_hash) ≡ true
      → from_key (adr ++ be_bytes 8 block) (laws.scan tx "AccountHistory") ≡ e ∷ es
      → decode Tables.account_history account_hist_key.decode e ≡ ok (k, map)
      → (o : Option BlockNumber) × IsLeastGte block (r.members map) o
        × ((read_account_hist access adr block tx).0 ≡ in_change_set o)
  unfolding read_account_hist
  read_account_hist-least_change block e es k map pos ha can can_set can_code h d =
      let (cur, tx', made, at_cur, same, kept, opens) =
        cursor-entries tl cl laws access Tables.account_history tx can in
      (
        find_gte map block,
        find_gte-IsLeastGte map block (inl pos),
        rw
            (
              made,
              seek-first tl cl laws Tables.account_history account_hist_key.decode (adr, block) _
                  cur (account_hist_key-bytes adr block ha),
              at_cur,
              h,
              d,
            )
            (account_before-change (find_gte map block) tx' ha (opens "AccountChangeSet" _ can_set)
              (opens "PlainCodeHash" _ can_code) (same "AccountChangeSet") kept),
      )
