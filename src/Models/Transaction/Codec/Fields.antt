-- ===== src/Models/Transaction/Codec/Fields.antt =====
-- The fields of the three structs and of `AccessTuple`, in the order in which the derived codecs
-- write and read them.
use erigon_db.Prelude.{ℕ, ◌^◌, ◌<◌, List, length}
use erigon_db.Crates.{BufCrate, FixedHashCrate, RlpCrate, RlpItem, H256, IsH256, IsAddress}
use erigon_db.Crates.Derive.{pair, convert, VecCodec, IsVec, Derives}
use erigon_db.Models.Transaction.Action.{TxAction, action_item}
use erigon_db.Models.Transaction.Action.Laws.{IsAction}
use erigon_db.Models.Transaction.Defs.{
  AccessTuple, AccessList, LegacyTx, AccessListTx, DynamicFeeTx,
}
use erigon_db.Models.Transaction.Codec.{TxItems}
use erigon_db.Models.Block.Difficulty.{u256_wrapper_item}

module _ ⦃r : RlpCrate⦄ (slots : RlpItem (List H256)) where
  unfoldable pub tuple_fields : RlpItem AccessTuple
  tuple_fields =
      convert (λ p. record { address = p.0; slots = p.1 }) (λ t. (t.address, t.slots))
        (pair r.address slots)

abbrev pub LegacyParts : Type 0
LegacyParts = ℕ × (ℕ × (ℕ × (TxAction × (ℕ × (List ℕ × (ℕ × (ℕ × ℕ)))))))

abbrev pub legacy_of : LegacyParts → LegacyTx
legacy_of p = record {
  nonce = p.0;
  gas_price = p.1.0;
  gas = p.1.1.0;
  to = p.1.1.1.0;
  value = p.1.1.1.1.0;
  input = p.1.1.1.1.1.0;
  v = p.1.1.1.1.1.1.0;
  r = p.1.1.1.1.1.1.1.0;
  s = p.1.1.1.1.1.1.1.1;
}

abbrev pub legacy_parts : LegacyTx → LegacyParts
legacy_parts t = (t.nonce, (t.gas_price, (t.gas, (t.to, (t.value, (t.input, (t.v, (t.r, t.s))))))))

module _ ⦃r : RlpCrate⦄ ⦃b : BufCrate⦄ ⦃f : FixedHashCrate⦄ where
  -- `v` has a codec of its own.
  unfoldable pub legacy_fields_with : RlpItem ℕ → RlpItem LegacyTx
  legacy_fields_with v_item = convert legacy_of legacy_parts (
      pair r.u64 (
        pair r.u256 (
          pair r.u64
            (pair action_item (pair r.u256 (pair r.bytes (pair v_item (pair r.u256 r.u256))))))))

  -- As the struct derives them: `v` is a wrapper around U256.
  unfoldable pub legacy_fields : RlpItem LegacyTx
  unfolding legacy_fields_with
  legacy_fields = legacy_fields_with u256_wrapper_item

  unfoldable pub access_list_fields : RlpItem AccessList → RlpItem AccessListTx
  access_list_fields accesses =
      convert
        (λ p. record {
          chain_id = p.0;
          nonce = p.1.0;
          gas_price = p.1.1.0;
          gas = p.1.1.1.0;
          to = p.1.1.1.1.0;
          value = p.1.1.1.1.1.0;
          input = p.1.1.1.1.1.1.0;
          access_list = p.1.1.1.1.1.1.1.0;
          v = p.1.1.1.1.1.1.1.1.0;
          r = p.1.1.1.1.1.1.1.1.1.0;
          s = p.1.1.1.1.1.1.1.1.1.1;
        })
        (λ t. (
          t.chain_id,
          (
            t.nonce,
            (
              t.gas_price,
              (t.gas, (t.to, (t.value, (t.input, (t.access_list, (t.v, (t.r, t.s))))))),
            ),
          ),
        ))
        (pair r.u256 (
          pair r.u64 (
            pair r.u256 (
              pair r.u64 (
                pair action_item (
                  pair r.u256
                    (pair r.bytes (pair accesses (pair r.u256 (pair r.u256 r.u256))))))))))

  unfoldable pub dynamic_fee_fields : RlpItem AccessList → RlpItem DynamicFeeTx
  dynamic_fee_fields accesses =
      convert
        (λ p. record {
          chain_id = p.0;
          nonce = p.1.0;
          tip = p.1.1.0;
          fee_cap = p.1.1.1.0;
          gas = p.1.1.1.1.0;
          to = p.1.1.1.1.1.0;
          value = p.1.1.1.1.1.1.0;
          input = p.1.1.1.1.1.1.1.0;
          access_list = p.1.1.1.1.1.1.1.1.0;
          v = p.1.1.1.1.1.1.1.1.1.0;
          r = p.1.1.1.1.1.1.1.1.1.1.0;
          s = p.1.1.1.1.1.1.1.1.1.1.1;
        })
        (λ t. (
          t.chain_id,
          (
            t.nonce,
            (
              t.tip,
              (
                t.fee_cap,
                (t.gas, (t.to, (t.value, (t.input, (t.access_list, (t.v, (t.r, t.s))))))),
              ),
            ),
          ),
        ))
        (pair r.u256 (
          pair r.u64 (
            pair r.u256 (
              pair r.u256 (
                pair r.u64 (
                  pair action_item (
                    pair r.u256
                      (pair r.bytes (pair accesses (pair r.u256 (pair r.u256 r.u256)))))))))))

-- The ranges of the Rust types, and the length of a `Bytes`.
pub record IsLegacyTx (t : LegacyTx) : Type 0 where
  pub nonce : t.nonce < 256 ^ 8
  pub gas_price : t.gas_price < 256 ^ 32
  pub gas : t.gas < 256 ^ 8
  pub to : IsAction t.to
  pub value : t.value < 256 ^ 32
  pub input : length t.input < 2 ^ 32
  pub v : t.v < 256 ^ 32
  pub r : t.r < 256 ^ 32
  pub s : t.s < 256 ^ 32

pub record IsAccessListTx (IsAccesses : AccessList → Type 0) (t : AccessListTx) : Type 0 where
  pub chain_id : t.chain_id < 256 ^ 32
  pub nonce : t.nonce < 256 ^ 8
  pub gas_price : t.gas_price < 256 ^ 32
  pub gas : t.gas < 256 ^ 8
  pub to : IsAction t.to
  pub value : t.value < 256 ^ 32
  pub input : length t.input < 2 ^ 32
  pub access_list : IsAccesses t.access_list
  pub v : t.v < 256 ^ 32
  pub r : t.r < 256 ^ 32
  pub s : t.s < 256 ^ 32

pub record IsDynamicFeeTx (IsAccesses : AccessList → Type 0) (t : DynamicFeeTx) : Type 0 where
  pub chain_id : t.chain_id < 256 ^ 32
  pub nonce : t.nonce < 256 ^ 8
  pub tip : t.tip < 256 ^ 32
  pub fee_cap : t.fee_cap < 256 ^ 32
  pub gas : t.gas < 256 ^ 8
  pub to : IsAction t.to
  pub value : t.value < 256 ^ 32
  pub input : length t.input < 2 ^ 32
  pub access_list : IsAccesses t.access_list
  pub v : t.v < 256 ^ 32
  pub r : t.r < 256 ^ 32
  pub s : t.s < 256 ^ 32

pub record IsAccessTuple (IsSlots : List H256 → Type 0) (t : AccessTuple) : Type 0 where
  pub address : IsAddress t.address
  pub slots : IsSlots t.slots

-- What the derive macro promises of the codecs.
pub record DerivesTxs ⦃r : RlpCrate⦄ ⦃b : BufCrate⦄ ⦃f : FixedHashCrate⦄ ⦃c : VecCodec⦄
    ⦃t : TxItems⦄ : Type 0 where
  pub tuple : Derives t.tuple_item (tuple_fields (c.vec r.h256))
  pub legacy : Derives t.legacy_item legacy_fields
  pub access_list : Derives t.access_list_item (access_list_fields (c.vec t.tuple_item))
  pub dynamic_fee : Derives t.dynamic_fee_item (dynamic_fee_fields (c.vec t.tuple_item))

module _ ⦃r : RlpCrate⦄ ⦃c : VecCodec⦄ ⦃t : TxItems⦄ where
  -- Access tuples of an address and of slots in range, with lists of less than 2 ^ 64 bytes.
  abbrev pub IsTuple : AccessTuple → Type 0
  IsTuple a =
      IsAccessTuple (IsVec r.h256 IsH256) a × (tuple_fields (c.vec r.h256)).rlp_length a < 2 ^ 64

  abbrev pub IsAccesses : AccessList → Type 0
  IsAccesses = IsVec t.tuple_item IsTuple
