-- ===== src/Models/Transaction/Signing/RoundTrip.antt =====
-- The fields that are hashed decode from their encodings.
use erigon_db.Prelude.{◌^◌, ◌<◌, refl, length}
use erigon_db.Crates.{BufCrate, FixedHashCrate, RlpCrate, RlpItem, IsRlp}
use erigon_db.Crates.Derive.{pair-IsRlp, convert-IsRlp, narrow-IsRlp}
use erigon_db.Models.Transaction.Action.Laws.{IsAction, action_item-IsRlp}
use erigon_db.Models.Transaction.Defs.{AccessList, LegacyAsHash, AccessListAsHash, DynamicFeeAsHash}
use erigon_db.Models.Transaction.Signing.{
  legacy_hash_fields, chain_id_hash_fields, access_list_hash_fields, dynamic_fee_hash_fields,
}

pub record IsLegacyContent (a : LegacyAsHash) : Type 0 where
  pub nonce : a.nonce < 256 ^ 8
  pub gas_price : a.gas_price < 256 ^ 32
  pub gas : a.gas < 256 ^ 8
  pub to : IsAction a.to
  pub value : a.value < 256 ^ 32
  pub input : length a.input < 2 ^ 32

pub record IsAccessListContent (V : AccessList → Type 0) (a : AccessListAsHash) : Type 0 where
  pub chain_id : a.chain_id < 256 ^ 32
  pub nonce : a.nonce < 256 ^ 8
  pub gas_price : a.gas_price < 256 ^ 32
  pub gas : a.gas < 256 ^ 8
  pub to : IsAction a.to
  pub value : a.value < 256 ^ 32
  pub input : length a.input < 2 ^ 32
  pub access_list : V a.access_list

pub record IsDynamicFeeContent (V : AccessList → Type 0) (a : DynamicFeeAsHash) : Type 0 where
  pub chain_id : a.chain_id < 256 ^ 32
  pub nonce : a.nonce < 256 ^ 8
  pub tip : a.tip < 256 ^ 32
  pub fee_cap : a.fee_cap < 256 ^ 32
  pub gas : a.gas < 256 ^ 8
  pub to : IsAction a.to
  pub value : a.value < 256 ^ 32
  pub input : length a.input < 2 ^ 32
  pub access_list : V a.access_list

module _ ⦃r : RlpCrate⦄ ⦃b : BufCrate⦄ ⦃f : FixedHashCrate⦄ where
  pub legacy_hash_fields-IsRlp : IsRlp legacy_hash_fields IsLegacyContent
  unfolding legacy_hash_fields
  legacy_hash_fields-IsRlp =
      narrow-IsRlp (λ a h. (h.nonce, (h.gas_price, (h.gas, (h.to, (h.value, h.input))))))
        (convert-IsRlp _ _ (λ a. refl)
          (pair-IsRlp r.u64-IsRlp (
            pair-IsRlp r.u256-IsRlp (
              pair-IsRlp r.u64-IsRlp
                (pair-IsRlp action_item-IsRlp (pair-IsRlp r.u256-IsRlp r.bytes-IsRlp))))))

  pub chain_id_hash_fields-IsRlp : IsRlp chain_id_hash_fields (λ a.
      IsLegacyContent a.unsigned × (a.chain_id < 256 ^ 32 × ((a.pad1 < 256) × (a.pad2 < 256))))
  unfolding chain_id_hash_fields
  chain_id_hash_fields-IsRlp =
      convert-IsRlp _ _ (λ a. refl)
        (pair-IsRlp legacy_hash_fields-IsRlp
          (pair-IsRlp r.u256-IsRlp (pair-IsRlp r.u8-IsRlp r.u8-IsRlp)))

  module _ {accesses : RlpItem AccessList} {V : AccessList → Type 0} (h : IsRlp accesses V) where
    pub access_list_hash_fields-IsRlp :
        IsRlp (access_list_hash_fields accesses) (IsAccessListContent V)
    unfolding access_list_hash_fields
    access_list_hash_fields-IsRlp =
        narrow-IsRlp
          (λ a h. (
            h.chain_id,
            (h.nonce, (h.gas_price, (h.gas, (h.to, (h.value, (h.input, h.access_list)))))),
          ))
          (convert-IsRlp _ _ (λ a. refl)
            (pair-IsRlp r.u256-IsRlp (
              pair-IsRlp r.u64-IsRlp (
                pair-IsRlp r.u256-IsRlp (
                  pair-IsRlp r.u64-IsRlp (
                    pair-IsRlp action_item-IsRlp
                      (pair-IsRlp r.u256-IsRlp (pair-IsRlp r.bytes-IsRlp h))))))))

    pub dynamic_fee_hash_fields-IsRlp :
        IsRlp (dynamic_fee_hash_fields accesses) (IsDynamicFeeContent V)
    unfolding dynamic_fee_hash_fields
    dynamic_fee_hash_fields-IsRlp =
        narrow-IsRlp
          (λ a h. (
            h.chain_id,
            (h.nonce, (h.tip, (h.fee_cap, (h.gas, (h.to, (h.value, (h.input, h.access_list))))))),
          ))
          (convert-IsRlp _ _ (λ a. refl)
            (pair-IsRlp r.u256-IsRlp (
              pair-IsRlp r.u64-IsRlp (
                pair-IsRlp r.u256-IsRlp (
                  pair-IsRlp r.u256-IsRlp (
                    pair-IsRlp r.u64-IsRlp (
                      pair-IsRlp action_item-IsRlp
                        (pair-IsRlp r.u256-IsRlp (pair-IsRlp r.bytes-IsRlp h)))))))))
