-- ===== src/Models/Transaction/Ethers.antt =====
-- The conversion to the transactions of `ethers` (feature "ethers-types").
use erigon_db.Prelude.{ℕ, ◌+◌, ◌*◌, ◌^◌, ◌<◌, ◌≡◌, refl, Option, some, List, map, arith, lt→ltb}
use mathlib.Core.Option
use erigon_db.Outcome.{Result, ok, ◌>>=◌, or_panic}
use erigon_db.Crates.{UintCrate, KeccakCrate, H256, Address, u256_mod}
use erigon_db.Models.Keys.{keccak256}
use erigon_db.Models.Transaction.Action.{to_option}
use erigon_db.Models.Transaction.ChainId.{derive_packed}
use erigon_db.Models.Transaction.Defs
use erigon_db.Models.Transaction.Defs.{
  Transaction, legacy, LegacyTx, AccessTuple, AccessList, HashEncoders, chain_id, sig_v,
}
use erigon_db.Models.Transaction.Defs.Hash.{hash, legacy_preimage, hash_legacy_unsigned}

pub record TransactionWithSigner : Type 0 where
  pub msg : Transaction
  pub signer : Address

-- `AccessListItem` of ethers.
pub record AccessListItem : Type 0 where
  pub address : Address
  pub storage_keys : List H256

-- The fields of `ethers::types::Transaction` that the conversion sets; all others are defaults.
pub record EthersTx : Type 0 where
  pub hash : H256
  pub nonce : ℕ
  pub from : Address
  pub to : Option Address
  pub value : ℕ
  pub gas_price : Option ℕ
  pub gas : ℕ
  pub input : List ℕ
  pub transaction_type : Option ℕ
  pub access_list : Option (List AccessListItem)
  pub chain_id : Option ℕ
  pub max_fee_per_gas : Option ℕ
  pub max_priority_fee_per_gas : Option ℕ
  pub v : ℕ
  pub r : ℕ
  pub s : ℕ

unfoldable pub to_list_item : AccessTuple → AccessListItem
to_list_item src = record { address = src.address; storage_keys = src.slots }

-- The fields, of which three can panic when they are computed.
unfoldable pub with_fields : TransactionWithSigner → H256 → Option ℕ → ℕ → EthersTx
unfolding to_list_item
with_fields tx h chain v64 = record {
  hash = h;
  nonce = Defs.nonce tx.msg;
  from = tx.signer;
  to = to_option (Defs.to tx.msg);
  value = Defs.value tx.msg;
  gas_price = Defs.gas_price tx.msg;
  gas = Defs.gas tx.msg;
  input = Defs.input tx.msg;
  transaction_type = Defs.tx_type tx.msg;
  access_list = Option.map (map to_list_item) (Defs.accesses tx.msg);
  chain_id = chain;
  max_fee_per_gas = Defs.fee_cap tx.msg;
  max_priority_fee_per_gas = Defs.tip tx.msg;
  v = v64;
  r = Defs.sig_r tx.msg;
  s = Defs.sig_s tx.msg;
}

module _ ⦃u : UintCrate⦄ ⦃k : KeccakCrate⦄ ⦃e : HashEncoders⦄ where
  -- `as_u64` panics from 2 ^ 64 on.
  unfoldable pub to_ethers : TransactionWithSigner → Result EthersTx
  to_ethers tx = do
    h ← hash tx.msg
    chain ← chain_id tx.msg
    v ← sig_v tx.msg
    v64 ← or_panic (u.as_u64 v)
    ok (with_fields tx h chain v64)

  -- Two signed forms of one legacy transaction for chain `c`, with parities below 2, are converted to
  -- transactions with the chain id and each its own parity as `v`, but with the same `hash`, which no
  -- signature enters.
  pub to_ethers_same_hash :
      (tx : LegacyTx) (c y y' r s r' s' : ℕ) (signer signer' : Address)
      → y < 2
      → y' < 2
      → c * 2 + 36 < u256_mod
      → (a : EthersTx) × (b : EthersTx) × (to_ethers (record {
        msg = legacy (record tx { v = c * 2 + 35 + y; r = r; s = s });
        signer = signer;
      })
          ≡ ok a)
        × (to_ethers (record {
          msg = legacy (record tx { v = c * 2 + 35 + y'; r = r'; s = s' });
          signer = signer';
        })
            ≡ ok b)
        × (a.chain_id ≡ some c)
        × (b.chain_id ≡ some c)
        × (a.v ≡ y)
        × (b.v ≡ y')
        × (a.hash ≡ b.hash)
  unfolding to_ethers chain_id sig_v with_fields
  to_ethers_same_hash tx c y y' r s r' s' signer signer' hy hy' h =
      let (first, same) = hash_legacy_unsigned tx c y y' r s r' s' hy hy' h in
      let (chain, parity) = derive_packed c y hy (omega arith) in
      let (chain', parity') = derive_packed c y' hy' (omega arith) in
      let digest = keccak256 (legacy_preimage tx (some c)) in
      let msg = legacy (record tx { v = c * 2 + 35 + y; r = r; s = s }) in
      let msg' = legacy (record tx { v = c * 2 + 35 + y'; r = r'; s = s' }) in
      (
        with_fields (record { msg = msg; signer = signer }) digest (some c) y,
        with_fields (record { msg = msg'; signer = signer' }) digest (some c) y',
        rw (first, chain, parity, u.as_u64_lem y, lt→ltb y (2 ^ 64) (omega arith)) refl,
        rw (same, first, chain', parity', u.as_u64_lem y', lt→ltb y' (2 ^ 64) (omega arith)) refl,
        refl,
        refl,
        refl,
        refl,
        refl,
      )
