-- ===== src/Models/Transaction/Defs.antt =====
-- The three kinds of transactions, their accessors and their signing hashes.
pub mod Accessors
pub mod Hash
use erigon_db.Prelude.{ℕ, Option, none, some, List, [], ◌∷◌, ◌++◌}
use erigon_db.Outcome.{Result, ok, ◌>>=◌, map_ok}
use erigon_db.Crates.{UintCrate, KeccakCrate, H256, Address}
use erigon_db.Models.Keys.{keccak256}
use erigon_db.Models.Transaction.Action.{TxAction}
use erigon_db.Models.Transaction.ChainId.{derive_chain_id, derive_v}

pub record AccessTuple : Type 0 where
  pub address : Address
  pub slots : List H256

abbrev pub AccessList : Type 0
AccessList = List AccessTuple

pub record LegacyTx : Type 0 where
  pub nonce : ℕ
  pub gas_price : ℕ
  pub gas : ℕ
  pub to : TxAction
  pub value : ℕ
  pub input : List ℕ
  pub v : ℕ
  pub r : ℕ
  pub s : ℕ

pub record AccessListTx : Type 0 where
  pub chain_id : ℕ
  pub nonce : ℕ
  pub gas_price : ℕ
  pub gas : ℕ
  pub to : TxAction
  pub value : ℕ
  pub input : List ℕ
  pub access_list : AccessList
  pub v : ℕ
  pub r : ℕ
  pub s : ℕ

pub record DynamicFeeTx : Type 0 where
  pub chain_id : ℕ
  pub nonce : ℕ
  pub tip : ℕ
  pub fee_cap : ℕ
  pub gas : ℕ
  pub to : TxAction
  pub value : ℕ
  pub input : List ℕ
  pub access_list : AccessList
  pub v : ℕ
  pub r : ℕ
  pub s : ℕ

pub data Transaction : Type 0 where
  legacy : LegacyTx → Transaction
  access_list : AccessListTx → Transaction
  dynamic_fee : DynamicFeeTx → Transaction

abbrev pub access_list_type : ℕ
access_list_type = 0x01

abbrev pub dynamic_fee_type : ℕ
dynamic_fee_type = 0x02

unfoldable pub tx_type : Transaction → Option ℕ
tx_type (access_list tx) = some access_list_type
tx_type (dynamic_fee tx) = some dynamic_fee_type
tx_type (legacy tx) = none

unfoldable pub nonce : Transaction → ℕ
nonce (legacy tx) = tx.nonce
nonce (access_list tx) = tx.nonce
nonce (dynamic_fee tx) = tx.nonce

unfoldable pub to : Transaction → TxAction
to (legacy tx) = tx.to
to (access_list tx) = tx.to
to (dynamic_fee tx) = tx.to

unfoldable pub value : Transaction → ℕ
value (legacy tx) = tx.value
value (access_list tx) = tx.value
value (dynamic_fee tx) = tx.value

unfoldable pub gas_price : Transaction → Option ℕ
gas_price (legacy tx) = some tx.gas_price
gas_price (access_list tx) = some tx.gas_price
gas_price (dynamic_fee tx) = none

unfoldable pub chain_id : ⦃u : UintCrate⦄ → Transaction → Result (Option ℕ)
chain_id (legacy tx) = derive_chain_id tx.v
chain_id (access_list tx) = ok (some tx.chain_id)
chain_id (dynamic_fee tx) = ok (some tx.chain_id)

unfoldable pub tip : Transaction → Option ℕ
tip (dynamic_fee tx) = some tx.tip
tip (legacy tx) = none
tip (access_list tx) = none

unfoldable pub fee_cap : Transaction → Option ℕ
fee_cap (dynamic_fee tx) = some tx.fee_cap
fee_cap (legacy tx) = none
fee_cap (access_list tx) = none

unfoldable pub gas : Transaction → ℕ
gas (legacy tx) = tx.gas
gas (access_list tx) = tx.gas
gas (dynamic_fee tx) = tx.gas

-- `data()`; the word is reserved here.
unfoldable pub input : Transaction → List ℕ
input (legacy tx) = tx.input
input (access_list tx) = tx.input
input (dynamic_fee tx) = tx.input

unfoldable pub sig_r : Transaction → ℕ
sig_r (legacy tx) = tx.r
sig_r (access_list tx) = tx.r
sig_r (dynamic_fee tx) = tx.r

unfoldable pub sig_s : Transaction → ℕ
sig_s (legacy tx) = tx.s
sig_s (access_list tx) = tx.s
sig_s (dynamic_fee tx) = tx.s

unfoldable pub sig_v : ⦃u : UintCrate⦄ → Transaction → Result ℕ
sig_v (legacy tx) = derive_v tx.v
sig_v (access_list tx) = ok tx.v
sig_v (dynamic_fee tx) = ok tx.v

unfoldable pub accesses : Transaction → Option AccessList
accesses (access_list tx) = some tx.access_list
accesses (dynamic_fee tx) = some tx.access_list
accesses (legacy tx) = none

-- What is hashed for a signature: the structs `AsHash` and `AsHashWithChainId` of each kind.
pub record LegacyAsHash : Type 0 where
  pub nonce : ℕ
  pub gas_price : ℕ
  pub gas : ℕ
  pub to : TxAction
  pub value : ℕ
  pub input : List ℕ

pub record LegacyAsHashWithChainId : Type 0 where
  pub unsigned : LegacyAsHash
  pub chain_id : ℕ
  pub pad1 : ℕ
  pub pad2 : ℕ

pub record AccessListAsHash : Type 0 where
  pub chain_id : ℕ
  pub nonce : ℕ
  pub gas_price : ℕ
  pub gas : ℕ
  pub to : TxAction
  pub value : ℕ
  pub input : List ℕ
  pub access_list : AccessList

pub record DynamicFeeAsHash : Type 0 where
  pub chain_id : ℕ
  pub nonce : ℕ
  pub tip : ℕ
  pub fee_cap : ℕ
  pub gas : ℕ
  pub to : TxAction
  pub value : ℕ
  pub input : List ℕ
  pub access_list : AccessList

-- Their encoders, which `derive(RlpEncodable)` generates.
pub record HashEncoders : Type 0 where
  pub encode_legacy : LegacyAsHash → List ℕ
  pub encode_with_chain_id : LegacyAsHashWithChainId → List ℕ
  pub encode_access_list : AccessListAsHash → List ℕ
  pub encode_dynamic_fee : DynamicFeeAsHash → List ℕ
