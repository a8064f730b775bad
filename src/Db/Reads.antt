-- ===== src/Db/Reads.antt =====
-- erigon/mod.rs: the typed reads and writes.
pub mod Laws
pub mod Slots
pub mod Canonical
pub mod BlockTxs
use erigon_db.Prelude.{
  ℕ, ◌+◌, ◌-◌, Option, none, some, List, [], ◌∷◌, Bool, not, ◌&&◌, leb, bytes_eq, if◌then◌else◌,
}
use erigon_db.Outcome
use erigon_db.Outcome.{message, Result, Outcome, ok, err, Profile, add_u64, ok_or, traverse}
use erigon_db.Crates.{
  MdbxCrate, BufCrate, UintCrate, FixedHashCrate, ArrayVecCrate, RlpCrate, H256, Address, zero_hash,
}
use erigon_db.Kv.Env.{Access}
use erigon_db.Kv.Tx.{Action, lift, pure, ◌>>=◌}
use erigon_db.Kv.Cursor.{seek_dup}
use erigon_db.Kv.Walk
use erigon_db.Kv.Walk.{Walker}
use erigon_db.Kv.Values.{h256_type}
use erigon_db.Models.Keys.{BlockNumber, Incarnation, HeaderKey, TxIndex, u64_key}
use erigon_db.Models.Transaction.Defs.{Transaction}
use erigon_db.Models.Transaction.Codec.{TxItems}
use erigon_db.Models.Account.{Account}
use erigon_db.Models.Block.{BlockHeader, BodyForStorage}
use erigon_db.Db.Access.{read, write, cursor}
use erigon_db.Db.Tables

-- keccak256("")
abbrev pub empty_hash : H256
empty_hash =
    0xc5 ∷ 0xd2 ∷ 0x46 ∷ 0x01 ∷ 0x86 ∷ 0xf7 ∷ 0x23 ∷ 0x3c ∷ 0x92 ∷ 0x7e ∷ 0x7d ∷ 0xb2 ∷ 0xdc ∷ 0xc7
    ∷ 0x03 ∷ 0xc0 ∷ 0xe5 ∷ 0x00 ∷ 0xb6 ∷ 0x53 ∷ 0xca ∷ 0x82 ∷ 0x27 ∷ 0x3b ∷ 0x7b ∷ 0xfa ∷ 0xd8
    ∷ 0x04 ∷ 0x5d ∷ 0x85 ∷ 0xa4 ∷ 0x70 ∷ []

-- The body without the system transactions at its two ends.
unfoldable pub skip_system_txs : ⦃p : Profile⦄ → BodyForStorage → Result BodyForStorage
skip_system_txs body = Outcome.◌>>=◌ (add_u64 body.base_tx_id 1) λ base.
    Outcome.◌>>=◌
      (ok_or (if leb 2 body.tx_amount then some (body.tx_amount - 2) else none)
        (message "Block body has too few txs"))
      λ amount. ok (record body { base_tx_id = base; tx_amount = amount })

-- The value of the slot, if the first duplicate from it on is that slot's.
unfoldable pub only_slot : H256 → Option (H256 × ℕ) → Option ℕ
only_slot slot none = none
only_slot slot (some (k, val)) = if bytes_eq k slot then some val else none

module _ ⦃m : MdbxCrate⦄ ⦃f : FixedHashCrate⦄ (access : Access) where
  unfoldable pub read_head_header_hash : Action (Option H256)
  read_head_header_hash = read access Tables.last_header tt

  unfoldable pub read_head_block_hash : Action (Option H256)
  read_head_block_hash = read access Tables.last_block tt

  unfoldable pub read_incarnation : Address → Action (Option Incarnation)
  read_incarnation adr = read access Tables.incarnation_map adr

  unfoldable pub read_header_number : H256 → Action (Option BlockNumber)
  read_header_number hash = read access Tables.header_number hash

  unfoldable pub read_head_block_number : Action (Option BlockNumber)
  read_head_block_number = do
    found ← read_head_header_hash
    hash ← lift (ok_or found (message "No value"))
    read_header_number hash

  unfoldable pub read_canonical_hash : BlockNumber → Action (Option H256)
  read_canonical_hash num = read access Tables.canonical_header num

  unfoldable pub is_canonical_hash : H256 → Action Bool
  is_canonical_hash hash = do
    found ← read_header_number hash
    num ← lift (ok_or found (message "No value"))
    found' ← read_canonical_hash num
    canon ← lift (ok_or found' (message "No value"))
    pure (not (bytes_eq canon zero_hash) && bytes_eq canon hash)

  -- For the hash of no code the `Default` of an option: no bytecode.
  unfoldable pub read_code : H256 → Action (Option (List ℕ))
  read_code codehash =
      if bytes_eq codehash empty_hash then pure none else read access Tables.code codehash

module _ ⦃m : MdbxCrate⦄ ⦃f : FixedHashCrate⦄ ⦃v : ArrayVecCrate⦄ (access : Access) where
  unfoldable pub read_senders : HeaderKey → Action (Option (List Address))
  read_senders key = read access Tables.tx_sender key

  unfoldable pub read_codehash : Address → Incarnation → Action (Option H256)
  read_codehash adr inc = read access Tables.plain_code_hash (adr, inc)

  unfoldable pub read_header :
      ⦃r : RlpCrate⦄ ⦃p : Profile⦄ → HeaderKey → Action (Option BlockHeader)
  read_header key = read access Tables.header key

  unfoldable pub read_total_difficulty : ⦃r : RlpCrate⦄ → HeaderKey → Action (Option ℕ)
  read_total_difficulty key = read access Tables.headers_total_difficulty key

  unfoldable pub read_body_for_storage :
      ⦃r : RlpCrate⦄ ⦃p : Profile⦄ ⦃i : Tables.BodyItem⦄
      → HeaderKey
      → Action (Option BodyForStorage)
  read_body_for_storage key = do
    found ← read access Tables.block_body key
    lift (traverse skip_system_txs found)

  unfoldable pub read_transaction_block_number : ⦃u : UintCrate⦄ → H256 → Action (Option ℕ)
  read_transaction_block_number hash = read access Tables.block_transaction_lookup hash

  unfoldable pub read_storage : ⦃u : UintCrate⦄ → Address → Incarnation → H256 → Action (Option ℕ)
  unfolding only_slot
  read_storage adr inc slot = do
    cur ← cursor access Tables.storage
    found ← lift (seek_dup Tables.storage h256_type.encode (adr, inc) slot cur).0
    pure (only_slot slot found)

  -- `unwrap_or_default` of the start slot is the hash of zeros.
  unfoldable pub walk_storage :
      ⦃u : UintCrate⦄ → Address → Incarnation → Option H256 → Action (Walker m.Cursor (H256 × ℕ))
  walk_storage adr inc start_slot = do
    cur ← cursor access Tables.storage
    lift (
        Walk.walk_dup Tables.storage h256_type.encode (adr, inc)
          (elim start_slot [ none ↦ zero_hash | some slot ↦ slot ]) cur)

module _ ⦃m : MdbxCrate⦄ ⦃b : BufCrate⦄ ⦃r : RlpCrate⦄ ⦃t : TxItems⦄ (access : Access) where
  unfoldable pub walk_txs_canonical :
      Option TxIndex → Action (Walker m.Cursor (TxIndex × Transaction))
  walk_txs_canonical start_key = do
    cur ← cursor access Tables.block_transaction
    lift (
        Walk.walk Tables.block_transaction u64_key.decode (elim start_key [ none ↦ 0 | some n ↦ n ])
          cur)

  unfoldable pub walk_txs_noncanonical :
      Option TxIndex → Action (Walker m.Cursor (TxIndex × Transaction))
  walk_txs_noncanonical start_key = do
    cur ← cursor access Tables.non_canonical_transaction
    lift (
        Walk.walk Tables.non_canonical_transaction u64_key.decode
          (elim start_key [ none ↦ 0 | some n ↦ n ]) cur)

module _ ⦃m : MdbxCrate⦄ ⦃f : FixedHashCrate⦄ ⦃u : UintCrate⦄ ⦃b : BufCrate⦄ (access : Access) where
  unfoldable pub read_account : Address → Action (Option Account)
  read_account adr = read access Tables.plain_state adr
