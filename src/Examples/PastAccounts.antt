-- ===== src/Examples/PastAccounts.antt =====
-- The past of an account in a store in memory.
use erigon_db.Prelude.{
  ◌<◌, ◌≡◌, refl, inl, inr, arith, Option, none, some, List, [], ◌∷◌, ◌++◌, bytes_eq,
}
use erigon_db.Prelude.Digits.{be_bytes}
use erigon_db.Prelude.Lex.{lex_ltb, lex_leb}
use erigon_db.Outcome.{ok}
use erigon_db.Crates.Mdbx.{from_dup}
use erigon_db.Crates.Stand.{buf, uint, fixed_hash, array_vec}
use erigon_db.Crates.Stand.Store.{Log, mdbx, roaring, cursor_laws, tx_laws, scan_laws}
use erigon_db.Kv.Env.{ro_mode}
use erigon_db.Models.Account.{Account, default}
use erigon_db.Models.Account.Format.{format}
use erigon_db.Models.Account.Stored.{stored}
use erigon_db.Models.Account.Slim.{slim}
use erigon_db.Db.History.{read_account_hist}
use erigon_db.Db.Reads.{read_account}
use erigon_db.Db.History.Shards.{Shard, last_shard}
use erigon_db.Db.History.Timeline.{Timeline}
use erigon_db.Db.History.PastAccounts.{
  HoldsAccount, read_account_hist-past, account_past_or_current,
}
use erigon_db.Examples.Store.{owner, slot_four, in_table}

-- A contract that block 3 created, whose balance block 5 changed and whose nonce block 9.
abbrev contract : Account
contract = record { nonce = 1; incarnation = 1; balance = 5; codehash = slot_four }

abbrev richer : Account
richer = record contract { balance = 8 }

abbrev later : Account
later = record richer { nonce = 2 }

abbrev account_past : Timeline (Option Account)
account_past = record {
  initial = none;
  changes = (3, some contract) ∷ (5, some richer) ∷ (9, some later) ∷ [];
}

abbrev account_shards : List (Shard ⦃r = roaring⦄)
account_shards = (record { upper = last_shard; blocks = 3 ∷ 1 ∷ 3 ∷ [] }) ∷ []

abbrev account_db : Log
account_db =
    in_table "AccountHistory" ((owner ++ be_bytes 8 last_shard, 3 ∷ 1 ∷ 3 ∷ []) ∷ [])
    ++ in_table "AccountChangeSet" (
        (be_bytes 8 3, owner)
        ∷ (be_bytes 8 5, owner ++ format (stored (slim contract)))
        ∷ (be_bytes 8 9, owner ++ format (stored (slim richer)))
        ∷ [])
    ++ in_table "PlainCodeHash" ((owner ++ be_bytes 8 1, slot_four) ∷ [])
    ++ in_table "PlainState" ((owner, format (stored later)) ∷ [])

some_injective : {a a' : Account} → some a ≡ some a' → a ≡ a'
some_injective e = cc

no_incarnation : 0 < 0 → ⊥
no_incarnation pos = omega arith

absent_some : {a : Account} → ◌≡◌ {A = Option Account} none (some a) → ⊥
absent_some e = cc

account_db-HoldsAccount :
    HoldsAccount ⦃r = roaring⦄ tx_laws cursor_laws scan_laws ro_mode owner account_db account_past
      account_shards
account_db-HoldsAccount = record {
  is_address = refl;
  open_history = refl;
  open_change_set = refl;
  open_code = refl;
  ascending = ((omega arith, (omega arith, tt)), ((omega arith, tt), (tt, tt)));
  history = record { before = []; behind = []; split = refl; below = λ n v. tt; are_shards = refl };
  same_blocks = refl;
  change_sets = λ n e. elim e [
    | inl three ↦ rw three (record {
      in_range = λ a absent. absurd (absent_some absent);
      in_entry = unfold from_dup lex_leb lex_ltb be_bytes bytes_eq in refl;
      code_kept = λ pos. absurd (no_incarnation pos);
    })
    | inr e' ↦ elim e' [
      | inl five ↦ rw five (record {
        in_range = λ a e. rw (← some_injective e) (record {
          nonce_range = omega arith;
          incarnation_range = omega arith;
          balance_range = omega arith;
          codehash_length = refl;
        });
        in_entry = unfold from_dup lex_leb lex_ltb be_bytes bytes_eq in refl;
        code_kept = λ pos. unfold be_bytes bytes_eq in refl;
      })
      | inr e'' ↦ elim e'' [
        | inl nine ↦ rw nine (record {
          in_range = λ a e. rw (← some_injective e) (record {
            nonce_range = omega arith;
            incarnation_range = omega arith;
            balance_range = omega arith;
            codehash_length = refl;
          });
          in_entry = unfold from_dup lex_leb lex_ltb be_bytes bytes_eq in refl;
          code_kept = λ pos. unfold be_bytes bytes_eq in refl;
        })
        | inr neither ↦ elim neither [ ]
      ]
    ]
  ];
}

read_account_hist-past_example :
    (read_account_hist ⦃r = roaring⦄ ro_mode owner 5 account_db).0 ≡ ok (some contract)
read_account_hist-past_example =
    read_account_hist-past ⦃r = roaring⦄ tx_laws cursor_laws scan_laws ro_mode owner account_db
      account_past account_shards 5 account_db-HoldsAccount (omega arith) (omega arith)

-- Block 3 created the contract: before it, there is the default account.
before_creation : (read_account_hist ⦃r = roaring⦄ ro_mode owner 3 account_db).0 ≡ ok (some default)
before_creation =
    read_account_hist-past ⦃r = roaring⦄ tx_laws cursor_laws scan_laws ro_mode owner account_db
      account_past account_shards 3 account_db-HoldsAccount (omega arith) (omega arith)

account_past_or_current_example :
    (o : Option Account) × (p : Option Account) × ((read_account_hist ⦃r = roaring⦄ ro_mode owner 10
        account_db).0
      ≡ ok o)
    × ((read_account ro_mode owner account_db).0 ≡ ok p)
    × ((elim o [ none ↦ p | some x ↦ some x ]) ≡ some later)
account_past_or_current_example =
    account_past_or_current ⦃r = roaring⦄ tx_laws cursor_laws scan_laws ro_mode owner account_db
      account_past account_shards 10 account_db-HoldsAccount (omega arith) (omega arith) refl
      (λ a e. rw (← some_injective e) (record {
        nonce_range = omega arith;
        incarnation_range = omega arith;
        balance_range = omega arith;
        codehash_length = refl;
      }))
      (unfold bytes_eq be_bytes in refl)
