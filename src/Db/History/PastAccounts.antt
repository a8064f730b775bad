-- ===== src/Db/History/PastAccounts.antt =====
-- `read_account_hist` on a database that holds the past of an account.
use mathlib.Core.Option
use erigon_db.Prelude.{
  ℕ, ◌<◌, ◌≡◌, refl, sym, ◌∙◌, Bool, Option, none, some, List, ◌++◌, true, false, length, ltb,
  ltb→lt, bytes_eq_self, if◌then◌else◌, Bool-cases, inl, inr,
}
use erigon_db.Prelude.Digits.{be_bytes}
use erigon_db.Outcome.{ok, traverse}
use erigon_db.Crates.{
  MdbxCrate, CursorLaws, TxLaws, ScanLaws, RoaringCrate, BufCrate, UintCrate, FixedHashCrate,
  ArrayVecCrate, H256, Address, IsAddress, IsAscending, zero_hash,
}
use erigon_db.Kv.Env.{Access}
use erigon_db.Kv.Cursor.{decode}
use erigon_db.Kv.Values.{roaring_object, h256_type}
use erigon_db.Kv.Values.RoundTrip.{h256_type-Fills}
use erigon_db.Models.Keys.{BlockNumber, account_hist_key}
use erigon_db.Models.Keys.Order.{account_hist_key-bytes}
use erigon_db.Models.Keys.RoundTrip.{IsU64, account_hist_key-Fits}
use erigon_db.Models.Account.{Account, set_codehash, decode_account, account_type}
use erigon_db.Models.Account.Format.{format}
use erigon_db.Models.Account.Stored.{stored, IsAccount, decode-stored}
use erigon_db.Models.Account.Slim.{
  slim, or_default, or_default-IsAccount, change_record, decode-change_record,
}
use erigon_db.Utils.Bitmap.{Elem, IsLeastGte}
use erigon_db.Db.Access.Laws.{flags_of, read-value}
use erigon_db.Db.Access.Cursors.{first_dup}
use erigon_db.Db.Reads.{read_account}
use erigon_db.Db.Reads.Laws.{h256-bytes, ok-injective}
use erigon_db.Db.History.{read_account_hist}
use erigon_db.Db.History.Shards.{Shard, all_blocks, shard_entry, HoldsShards, HoldsShards-Found}
use erigon_db.Db.History.Timeline.{
  Timeline, blocks_of, before, last_value, past, before-least, before-last, before-no_change,
  changes_from,
}
use erigon_db.Db.History.Accounts.{
  address-bytes, with_code, in_change_set, read_account_hist-least_change,
}
use erigon_db.Db.Tables

h256_decodes : ⦃f : FixedHashCrate⦄ (h : H256) → length h ≡ 32 → h256_type.decode h ≡ ok h
h256_decodes h v =
    let (bs, e, d, l) = h256_type-Fills.trip h v in
    let same : bs ≡ h = ok-injective (sym e ∙ h256-bytes h) in rw same at d

module _ ⦃m : MdbxCrate⦄ ⦃f : FixedHashCrate⦄ ⦃v : ArrayVecCrate⦄ ⦃u : UintCrate⦄ ⦃b : BufCrate⦄
    ⦃r : RoaringCrate⦄ (tl : TxLaws m) (cl : CursorLaws m) (laws : ScanLaws m tl cl)
    (access : Access) (adr : Address) (tx : m.Transaction) where
  -- An account as a change set has it: without the code hash of a contract, which is in
  -- `PlainCodeHash`, and without any bytes where it did not exist.
  pub record Keeps (entry : Option (List ℕ)) (o : Option Account) : Type 0 where
    pub in_range : (a : Account) → o ≡ some a → IsAccount a
    pub in_entry : entry ≡ some (adr ++ change_record o)
    pub code_kept :
        0 < (or_default o).incarnation
        → tl.value tx "PlainCodeHash" (adr ++ be_bytes 8 (or_default o).incarnation)
          ≡ some (or_default o).codehash

  current_decodes :
      (o : Option Account)
      → ((a : Account) → o ≡ some a → IsAccount a)
      → traverse decode_account (Option.map (λ a. format (stored a)) o) ≡ ok o
  current_decodes none h = refl
  current_decodes (some a) h = rw (decode-stored a (h a refl)) refl

  -- The history holds the blocks of the changes, and each change set the account before its block.
  pub record HoldsAccount (t : Timeline (Option Account)) (shards : List Shard) : Type 0 where
    pub is_address : IsAddress adr
    pub open_history :
        tl.can_open tx "AccountHistory" (flags_of access Tables.account_history) ≡ true
    pub open_change_set :
        tl.can_open tx "AccountChangeSet" (flags_of access Tables.account_change_set) ≡ true
    pub open_code : tl.can_open tx "PlainCodeHash" (flags_of access Tables.plain_code_hash) ≡ true
    pub ascending : IsAscending (blocks_of t.changes)
    pub history : HoldsShards (laws.scan tx "AccountHistory") adr shards
    pub same_blocks : all_blocks shards ≡ blocks_of t.changes
    pub change_sets :
        (n : BlockNumber)
        → Elem n (blocks_of t.changes)
        → Keeps
            (first_dup (be_bytes 8 n) adr (laws.scan tx "AccountChangeSet"))
            (before t.initial t.changes n)

  -- The code hash that was left out comes back.
  with_code-slim :
      (a : Account)
      → IsAccount a
      → (0 < a.incarnation
          → tl.value tx "PlainCodeHash" (adr ++ be_bytes 8 a.incarnation) ≡ some a.codehash)
      → with_code tl cl laws access adr tx (slim a) ≡ ok a
  with_code-slim a h kept = by_kind (ltb 0 a.incarnation) refl
    where
      by_kind :
          (contract : Bool)
          → ltb 0 a.incarnation ≡ contract
          → with_code tl cl laws access adr tx (if contract then set_codehash a zero_hash else a)
            ≡ ok a
      by_kind true e = rw (
        e,
        bytes_eq_self zero_hash,
        kept (ltb→lt 0 a.incarnation e),
        h256_decodes a.codehash h.codehash_length,
      )
      by_kind false e = rw e

  decode_shard :
      (s : Shard)
      → IsAddress adr
      → IsU64 s.upper
      → decode Tables.account_history account_hist_key.decode (shard_entry adr s)
        ≡ ok ((adr, s.upper), s.blocks)
  unfolding decode roaring_object
  decode_shard s ha hu =
      let (bs, e, d, l) = account_hist_key-Fits.trip (adr, s.upper) (ha, hu) in
      rw (
        ok-injective (sym (account_hist_key-bytes adr s.upper ha) ∙ e),
        d,
        r.deserialize-serialize s.blocks,
      )

  in_change_set-before :
      (t : Timeline (Option Account)) (shards : List Shard) (block : BlockNumber)
      (o : Option BlockNumber)
      → HoldsAccount t shards
      → IsLeastGte block (blocks_of t.changes) o
      → in_change_set tl cl laws access adr tx o ≡ ok (Option.map or_default (past t block))
  in_change_set-before t shards block none h l = rw ((before-last t.initial t.changes block l).0)
  in_change_set-before t shards block (some n) h l =
      let (later, same) = before-least t.initial t.changes block n h.ascending l in
      let kept = h.change_sets n l.0 in
      rw (
        kept.in_entry,
        decode-change_record adr (before t.initial t.changes n) h.is_address kept.in_range,
        bytes_eq_self adr,
        with_code-slim (or_default (before t.initial t.changes n))
            (or_default-IsAccount (before t.initial t.changes n) kept.in_range) kept.code_kept,
        later,
        same,
      )

  -- Where the database holds the past of the account in shards and change sets, `read_account_hist` at
  -- a block above 0 returns what the account was before that block made its own changes, with the code
  -- hash of a contract, if a change from the block on has put it into the history, and else no account.
  -- An account that did not exist before the block is returned as the default account.
  pub read_account_hist-past :
      (t : Timeline (Option Account)) (shards : List Shard) (block : BlockNumber)
      → HoldsAccount t shards
      → 0 < block
      → IsU64 block
      → (read_account_hist access adr block tx).0 ≡ ok (Option.map or_default (past t block))
  read_account_hist-past t shards block h pos range =
      let (s, es, hu, found, least) =
        HoldsShards-Found (laws.scan tx "AccountHistory") adr shards block h.history range in
      let (o, is_least, e) =
        read_account_hist-least_change tl cl laws access adr tx block (shard_entry adr s) es
          (adr, s.upper) s.blocks pos h.is_address h.open_history h.open_change_set h.open_code
          found (decode_shard s h.is_address hu) in
      e ∙ in_change_set-before t shards block o h (rw h.same_blocks at (least o is_least))

  -- Where the database holds the past of the account, and its state the last one or none, the account
  -- before any block above 0, which may not exist, is the one that `read_account_hist` returns, with the
  -- default account for none, or, where that returns none because no change from the block on is in the
  -- history, what `read_account` returns.
  pub account_past_or_current :
      (t : Timeline (Option Account)) (shards : List Shard) (block : BlockNumber)
      → HoldsAccount t shards
      → 0 < block
      → IsU64 block
      → tl.can_open tx "PlainState" (flags_of access Tables.plain_state) ≡ true
      → ((a : Account) → last_value t.initial t.changes ≡ some a → IsAccount a)
      → tl.value tx "PlainState" adr
        ≡ Option.map (λ a. format (stored a)) (last_value t.initial t.changes)
      → (o : Option Account) × (p : Option Account) × ((read_account_hist access adr block tx).0
          ≡ ok o)
        × ((read_account access adr tx).0 ≡ ok p)
        × ((elim o [ none ↦ p | some x ↦ some x ]) ≡ (
            if changes_from block t.changes
            then some (or_default (before t.initial t.changes block))
            else before t.initial t.changes block))
  unfolding read_account account_type
  account_past_or_current t shards block h pos range can valid current = (
    Option.map or_default (past t block),
    last_value t.initial t.changes,
    read_account_hist-past t shards block h pos range,
    read-value tl access Tables.plain_state adr adr tx can (address-bytes adr)
        ∙ rw current (current_decodes (last_value t.initial t.changes) valid),
    elim (Bool-cases (changes_from block t.changes)) [
      | inl later ↦ rw later refl
      | inr no_more ↦ rw no_more (sym (before-no_change t.initial t.changes block no_more))
    ],
  )
