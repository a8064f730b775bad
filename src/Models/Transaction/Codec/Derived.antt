-- ===== src/Models/Transaction/Codec/Derived.antt =====
-- The three structs through the codecs that are derived for them.
use erigon_db.Prelude.{ℕ, ◌^◌, ◌<◌, ◌≡◌, refl, List, [], ◌∷◌, length, arith}
use erigon_db.Crates.{BufCrate, FixedHashCrate, RlpCrate, RlpItem, IsRlp, H256, IsH256}
use erigon_db.Crates.Derive.{
  VecCodec, IsVec, Derives-IsRlp, Derives-first, pair-IsRlp, convert-IsRlp, narrow-IsRlp, vec-IsRlp,
}
use erigon_db.Models.Transaction.Action.Laws.{action_item-IsRlp}
use erigon_db.Models.Transaction.Defs.{AccessTuple, AccessList}
use erigon_db.Models.Transaction.Codec.{TxItems}
use erigon_db.Models.Transaction.Codec.Fields.{
  tuple_fields, legacy_fields_with, access_list_fields, dynamic_fee_fields, IsLegacyTx,
  IsAccessListTx, IsDynamicFeeTx, IsAccessTuple, DerivesTxs, IsTuple, IsAccesses,
}

nonempty : (bs : List ℕ) → 0 < length bs → (x : ℕ) × (xs : List ℕ) × (bs ≡ x ∷ xs)
nonempty [] h = absurd (omega arith)
nonempty (x ∷ xs) h = (x, xs, refl)

module _ ⦃r : RlpCrate⦄ ⦃b : BufCrate⦄ ⦃f : FixedHashCrate⦄ where
  pub legacy_fields_with-IsRlp :
      {v_item : RlpItem ℕ}
      → IsRlp v_item (λ n. n < 256 ^ 32)
      → IsRlp (legacy_fields_with v_item) IsLegacyTx
  unfolding legacy_fields_with
  legacy_fields_with-IsRlp hv =
      narrow-IsRlp
        (λ t h. (h.nonce, (h.gas_price, (h.gas, (h.to, (h.value, (h.input, (h.v, (h.r, h.s)))))))))
        (convert-IsRlp _ _ (λ t. refl)
          (pair-IsRlp r.u64-IsRlp (
            pair-IsRlp r.u256-IsRlp (
              pair-IsRlp r.u64-IsRlp (
                pair-IsRlp action_item-IsRlp (
                  pair-IsRlp r.u256-IsRlp (
                    pair-IsRlp r.bytes-IsRlp
                      (pair-IsRlp hv (pair-IsRlp r.u256-IsRlp r.u256-IsRlp)))))))))

  pub access_list_fields-IsRlp :
      {accesses : RlpItem AccessList} {V : AccessList → Type 0}
      → IsRlp accesses V
      → IsRlp (access_list_fields accesses) (IsAccessListTx V)
  unfolding access_list_fields
  access_list_fields-IsRlp ha =
      narrow-IsRlp
        (λ t h. (
          h.chain_id,
          (
            h.nonce,
            (
              h.gas_price,
              (h.gas, (h.to, (h.value, (h.input, (h.access_list, (h.v, (h.r, h.s))))))),
            ),
          ),
        ))
        (convert-IsRlp _ _ (λ t. refl)
          (pair-IsRlp r.u256-IsRlp (
            pair-IsRlp r.u64-IsRlp (
              pair-IsRlp r.u256-IsRlp (
                pair-IsRlp r.u64-IsRlp (
                  pair-IsRlp action_item-IsRlp (
                    pair-IsRlp r.u256-IsRlp (
                      pair-IsRlp r.bytes-IsRlp (
                        pair-IsRlp ha
                          (pair-IsRlp r.u256-IsRlp (pair-IsRlp r.u256-IsRlp r.u256-IsRlp)))))))))))

  pub dynamic_fee_fields-IsRlp :
      {accesses : RlpItem AccessList} {V : AccessList → Type 0}
      → IsRlp accesses V
      → IsRlp (dynamic_fee_fields accesses) (IsDynamicFeeTx V)
  unfolding dynamic_fee_fields
  dynamic_fee_fields-IsRlp ha =
      narrow-IsRlp
        (λ t h. (
          h.chain_id,
          (
            h.nonce,
            (
              h.tip,
              (
                h.fee_cap,
                (h.gas, (h.to, (h.value, (h.input, (h.access_list, (h.v, (h.r, h.s))))))),
              ),
            ),
          ),
        ))
        (convert-IsRlp _ _ (λ t. refl)
          (pair-IsRlp r.u256-IsRlp (
            pair-IsRlp r.u64-IsRlp (
              pair-IsRlp r.u256-IsRlp (
                pair-IsRlp r.u256-IsRlp (
                  pair-IsRlp r.u64-IsRlp (
                    pair-IsRlp action_item-IsRlp (
                      pair-IsRlp r.u256-IsRlp (
                        pair-IsRlp r.bytes-IsRlp (
                          pair-IsRlp ha (
                            pair-IsRlp r.u256-IsRlp
                              (pair-IsRlp r.u256-IsRlp r.u256-IsRlp))))))))))))

  tuple_fields-IsRlp :
      {slots : RlpItem (List H256)} {V : List H256 → Type 0}
      → IsRlp slots V
      → IsRlp (tuple_fields slots) (IsAccessTuple V)
  unfolding tuple_fields
  tuple_fields-IsRlp hs =
      narrow-IsRlp (λ t h. (h.address, h.slots))
        (convert-IsRlp _ _ (λ t. refl) (pair-IsRlp r.address-IsRlp hs))

module _ ⦃r : RlpCrate⦄ ⦃b : BufCrate⦄ ⦃f : FixedHashCrate⦄ ⦃c : VecCodec⦄ ⦃t : TxItems⦄
    (laws : DerivesTxs) where
  slots-IsRlp : IsRlp (c.vec r.h256) (IsVec r.h256 IsH256)
  slots-IsRlp =
      vec-IsRlp r.h256-IsRlp (λ h v. nonempty (r.h256.encode h) (omega (arith, r.length-h256 h v)))

  pub tuple_item-IsRlp : IsRlp t.tuple_item IsTuple
  tuple_item-IsRlp = Derives-IsRlp laws.tuple (tuple_fields-IsRlp slots-IsRlp)

  pub tuple_first :
      (a : AccessTuple) → IsTuple a → (x : ℕ) × (bs : List ℕ) × (t.tuple_item.encode a ≡ x ∷ bs)
  tuple_first a v = let (x, bs, e, list) = Derives-first laws.tuple a in (x, bs, e)

  -- Access lists decode from their encoding.
  pub access_vec-IsRlp : IsRlp (c.vec t.tuple_item) IsAccesses
  access_vec-IsRlp = vec-IsRlp tuple_item-IsRlp tuple_first
