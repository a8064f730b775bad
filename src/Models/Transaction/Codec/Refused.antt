-- ===== src/Models/Transaction/Codec/Refused.antt =====
-- How the decoder of legacy transactions handles what `encode` writes.
use erigon_db.Prelude.{
  ℕ, ◌^◌, ◌<◌, ◌≡◌, refl, sym, ◌∙◌, inl, inr, true, List, [], ◌∷◌, ◌++◌, length, arith,
  length-append, append_assoc, ◌==◌, ==_iff, Bool-cases,
}
use erigon_db.Outcome.{unexpected_list, unexpected_length}
use erigon_db.Crates.{BufCrate, FixedHashCrate, RlpCrate, RlpItem, IsRlp}
use erigon_db.Crates.Derive.{pair, VecCodec, IsVec, encode_all, length-encode_all, list_of}
use erigon_db.Crates.Strings.{
  Fails, Handles, refuses, takes, IsString, StringLaws, Fails-pair, pair-Fails, convert-Fails,
  Fails-append, encode-Handles, string-Handles,
}
use erigon_db.Models.Transaction.Action.{TxAction, action_item, encode_action, call, create}
use erigon_db.Models.Transaction.Action.Laws.{
  action_item-IsRlp, decode_action_lem, encode_create, encode_call, IsAction,
}
use erigon_db.Models.Transaction.Defs.{LegacyTx, AccessListTx, DynamicFeeTx, AccessList}
use erigon_db.Models.Transaction.Codec.Fields.{
  legacy_fields_with, legacy_fields, access_list_fields, dynamic_fee_fields, IsLegacyTx,
  IsAccessListTx, IsDynamicFeeTx, legacy_of, legacy_parts,
}
use erigon_db.Models.Block.Difficulty.{u256_wrapper_item}

module _ ⦃r : RlpCrate⦄ where
  -- A number is never read from a list.
  u256-Fails : (bs : List ℕ) → length bs < 2 ^ 64 → Fails r.u256 (list_of bs)
  u256-Fails bs small = record {
    error = unexpected_list;
    fails = λ more.
        rw
          (append_assoc (r.encode_header (record { list = true; payload_length = length bs })) bs
            more)
          (r.u256_refuses_list (length bs) (bs ++ more) (rw length-append (omega arith)) small);
  }

  wrapper-Fails : (n : ℕ) → n < 256 ^ 32 → Fails u256_wrapper_item (u256_wrapper_item.encode n)
  unfolding u256_wrapper_item
  wrapper-Fails n h =
      let f = u256-Fails (r.u256.encode n) (omega (arith, r.length-u256 n h)) in
      rw (r.u256-IsRlp.rlp_length_lem n h) (record { error = f.error; fails = f.fails })

  -- Neither is it from a vector.
  pub vec-Fails :
      ⦃c : VecCodec⦄ {A : Type 0} {item : RlpItem A} {V : A → Type 0}
      → IsRlp item V
      → ((a : A) → V a → (x : ℕ) × (bs : List ℕ) × (item.encode a ≡ x ∷ bs))
      → (xs : List A) → IsVec item V xs
      → Fails r.u256 ((c.vec item).encode xs)
  vec-Fails ⦃c⦄ {item = item} h some_bytes xs v =
      let e = length-encode_all h some_bytes xs v.0 in
      rw (c.encode_lem item xs, e) (u256-Fails (encode_all item xs) (rw (← e) (v.1)))

module _ ⦃r : RlpCrate⦄ ⦃b : BufCrate⦄ ⦃f : FixedHashCrate⦄ where
  -- The bytes of an action are a string: empty for a creation, of 20 bytes for a call.
  action-string : ⦃w : StringLaws⦄ (a : TxAction) → IsAction a → IsString w.string (encode_action a)
  action-string ⦃w⦄ create v =
      ([], omega arith, encode_create ∙ sym (w.string_header [] (inl refl)))
  action-string ⦃w⦄ (call adr) v =
      (adr, omega arith, encode_call adr ∙ (rw (w.string_header adr (inr v), v) refl))

  action-Handles : ⦃w : StringLaws⦄ (s : List ℕ) → Handles action_item (w.string s)
  unfolding action_item
  action-Handles ⦃w⦄ [] =
      rw (w.string_header [] (inl refl), ← encode_create)
        (takes create (λ more. action_item-IsRlp.decode-encode create more tt))
  action-Handles ⦃w⦄ (x ∷ xs) = elim (Bool-cases (length (x ∷ xs) == 20)) [
    | inl is ↦
        let twenty : length (x ∷ xs) ≡ 20 = (==_iff _ _).0 is in
        rw (w.string_header (x ∷ xs) (inr twenty), twenty, ← encode_call (x ∷ xs))
          (takes (call (x ∷ xs))
            (λ more. action_item-IsRlp.decode-encode (call (x ∷ xs)) more twenty))
    | inr other ↦
        let (b, bs, e, n1, n2) = w.string_first (x ∷ xs) (λ z. omega arith) (λ z. ground arith) in
        rw e (
          refuses (record {
            error = unexpected_length;
            fails = λ more. decode_action_lem (b ∷ bs ++ more) ∙ ground arith;
          }))
  ]

  pub legacy-Fails : (tx : LegacyTx) → IsLegacyTx tx → Fails legacy_fields (legacy_fields.encode tx)
  unfolding legacy_fields legacy_fields_with
  legacy-Fails tx v = convert-Fails legacy_of legacy_parts _ (
      pair-Fails _ _ (encode-Handles r.u64-IsRlp tx.nonce v.nonce) (
        pair-Fails _ _ (encode-Handles r.u256-IsRlp tx.gas_price v.gas_price) (
          pair-Fails _ _ (encode-Handles r.u64-IsRlp tx.gas v.gas) (
            pair-Fails _ _ (encode-Handles action_item-IsRlp tx.to v.to) (
              pair-Fails _ _ (encode-Handles r.u256-IsRlp tx.value v.value) (
                pair-Fails _ _ (encode-Handles r.bytes-IsRlp tx.input v.input)
                  (Fails-pair (pair r.u256 r.u256) _ _ (wrapper-Fails tx.v v.v))))))))

  module _ ⦃w : StringLaws⦄ where
    as_u64 : (bs : List ℕ) → IsString w.string bs → Handles r.u64 bs
    as_u64 = string-Handles w.u64-Handles

    as_u256 : (bs : List ℕ) → IsString w.string bs → Handles r.u256 bs
    as_u256 = string-Handles w.u256-Handles

    as_bytes : (bs : List ℕ) → IsString w.string bs → Handles r.bytes bs
    as_bytes = string-Handles w.bytes-Handles

    as_action : (bs : List ℕ) → IsString w.string bs → Handles action_item bs
    as_action = string-Handles (λ s small. action-Handles s)

    as_v : (bs : List ℕ) → IsString w.string bs → Handles u256_wrapper_item bs
    unfolding u256_wrapper_item
    as_v bs h = elim (as_u256 bs h) [
      | refuses f ↦ refuses (record { error = f.error; fails = f.fails })
      | takes a e ↦ takes a e
    ]

  module _ ⦃w : StringLaws⦄ (accesses : RlpItem AccessList) {V : AccessList → Type 0}
      (refused : (l : AccessList) → V l → Fails r.u256 (accesses.encode l)) where
    -- The access list stands where a legacy transaction has its `r`.
    pub access_list-Fails :
        (tx : AccessListTx)
        → IsAccessListTx V tx
        → Fails legacy_fields ((access_list_fields accesses).encode tx)
    unfolding legacy_fields legacy_fields_with access_list_fields action_item
    access_list-Fails tx v = convert-Fails legacy_of legacy_parts _ (
        pair-Fails _ _ (as_u64 _ (w.u256-string tx.chain_id v.chain_id)) (
          pair-Fails _ _ (as_u256 _ (w.u64-string tx.nonce v.nonce)) (
            pair-Fails _ _ (as_u64 _ (w.u256-string tx.gas_price v.gas_price)) (
              pair-Fails _ _ (as_action _ (w.u64-string tx.gas v.gas)) (
                pair-Fails _ _ (as_u256 _ (action-string tx.to v.to)) (
                  pair-Fails _ _ (as_bytes _ (w.u256-string tx.value v.value)) (
                    pair-Fails _ _ (as_v _ (w.bytes-string tx.input v.input)) (
                      Fails-pair r.u256 _
                        (r.u256.encode tx.v ++ (r.u256.encode tx.r ++ r.u256.encode tx.s))
                        (refused tx.access_list v.access_list)))))))))

    -- The access list stands where a legacy transaction has its `s`.
    pub dynamic_fee-Fails :
        (tx : DynamicFeeTx)
        → IsDynamicFeeTx V tx
        → Fails legacy_fields ((dynamic_fee_fields accesses).encode tx)
    unfolding legacy_fields legacy_fields_with dynamic_fee_fields action_item
    dynamic_fee-Fails tx v = convert-Fails legacy_of legacy_parts _ (
        pair-Fails _ _ (as_u64 _ (w.u256-string tx.chain_id v.chain_id)) (
          pair-Fails _ _ (as_u256 _ (w.u64-string tx.nonce v.nonce)) (
            pair-Fails _ _ (as_u64 _ (w.u256-string tx.tip v.tip)) (
              pair-Fails _ _ (as_action _ (w.u256-string tx.fee_cap v.fee_cap)) (
                pair-Fails _ _ (as_u256 _ (w.u64-string tx.gas v.gas)) (
                  pair-Fails _ _ (as_bytes _ (action-string tx.to v.to)) (
                    pair-Fails _ _ (as_v _ (w.u256-string tx.value v.value)) (
                      pair-Fails _ _ (as_u256 _ (w.bytes-string tx.input v.input)) (
                        Fails-append _
                          (r.u256.encode tx.v ++ (r.u256.encode tx.r ++ r.u256.encode tx.s))
                          (refused tx.access_list v.access_list))))))))))
