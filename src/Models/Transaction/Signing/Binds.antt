-- ===== src/Models/Transaction/Signing/Binds.antt =====
-- Signing hashes bind the contents of transactions.
use erigon_db.Prelude.{
  ℕ, ◌+◌, ◌^◌, ◌<◌, ◌≡◌, ◌≢◌, ◌⊎◌, inl, inr, refl, sym, ap, ◌∙◌, Option, none, some, true, List, [],
  ◌∷◌, ◌++◌, length, leb, arith, append-nil, length-append, bytes_eq, bytes_eq→eq, bytes_eq_self,
  Bool, false, Bool-cases,
}
use erigon_db.Outcome.{ok}
use erigon_db.Crates.{UintCrate, KeccakCrate, BufCrate, FixedHashCrate, RlpCrate}
use erigon_db.Crates.Derive.{
  VecCodec, list_of, list_of-injective, IsRlp-injective, DerivesEncoder-list,
}
use erigon_db.Models.Keys.{keccak256}
use erigon_db.Models.Transaction.Defs.{
  Transaction, LegacyAsHash, AccessListAsHash, DynamicFeeAsHash, HashEncoders, access_list_type,
  dynamic_fee_type,
}
use erigon_db.Models.Transaction.Defs.Hash.{hash}
use erigon_db.Models.Transaction.Codec.{TxItems}
use erigon_db.Models.Transaction.Codec.Fields.{DerivesTxs, IsAccesses}
use erigon_db.Models.Transaction.Codec.Derived.{access_vec-IsRlp}
use erigon_db.Models.Transaction.Signing.{
  Content, legacy_content, access_list_content, dynamic_fee_content, content, with_chain_id,
  sign_bytes, hash-content, legacy_hash_fields, chain_id_hash_fields, access_list_hash_fields,
  dynamic_fee_hash_fields, HashLaws,
}
use erigon_db.Models.Transaction.Signing.RoundTrip.{
  IsLegacyContent, IsAccessListContent, IsDynamicFeeContent, legacy_hash_fields-IsRlp,
  chain_id_hash_fields-IsRlp, access_list_hash_fields-IsRlp, dynamic_fee_hash_fields-IsRlp,
}

module _ ⦃r : RlpCrate⦄ ⦃b : BufCrate⦄ ⦃f : FixedHashCrate⦄ where
  -- Six fields never spell nine.
  no_chain_id :
      (a a' : LegacyAsHash) (n : ℕ)
      → IsLegacyContent a
      → IsLegacyContent a'
      → legacy_hash_fields.encode a ≢ chain_id_hash_fields.encode (with_chain_id a' n)
  unfolding chain_id_hash_fields
  no_chain_id a a' n v v' e =
      let tail = r.u256.encode n ++ (r.u8.encode 0 ++ r.u8.encode 0) in
      let d : legacy_hash_fields.decode (legacy_hash_fields.encode a) ≡ ok (a, []) =
        rw append-nil at (legacy_hash_fields-IsRlp.decode-encode a [] v) in
      let d' : legacy_hash_fields.decode (legacy_hash_fields.encode a' ++ tail) ≡ ok (a', tail) =
        legacy_hash_fields-IsRlp.decode-encode a' tail v' in
      let d'' : legacy_hash_fields.decode (legacy_hash_fields.encode a) ≡ ok (a', tail) = rw e d' in
      let empty : [] ≡ tail = cc in
      let long : length tail ≡ length (r.u256.encode n) + length (r.u8.encode 0 ++ r.u8.encode 0) =
        length-append (r.u256.encode n) _ in
      omega (arith, r.length-u256_pos n, long, ap length empty)

module _ ⦃r : RlpCrate⦄ ⦃b : BufCrate⦄ ⦃f : FixedHashCrate⦄ ⦃c : VecCodec⦄ ⦃t : TxItems⦄ where
  -- The ranges of the fields, in lists of less than 2 ^ 64 bytes.
  abbrev pub IsContent : Content → Type 0
  IsContent (legacy_content a none) =
      IsLegacyContent a × length (legacy_hash_fields.encode a) < 2 ^ 64
  IsContent (legacy_content a (some n)) =
      IsLegacyContent a
      × (n < 256 ^ 32)
      × length (chain_id_hash_fields.encode (with_chain_id a n)) < 2 ^ 64
  IsContent (access_list_content a) =
      IsAccessListContent IsAccesses a
      × length ((access_list_hash_fields (c.vec t.tuple_item)).encode a) < 2 ^ 64
  IsContent (dynamic_fee_content a) =
      IsDynamicFeeContent IsAccesses a
      × length ((dynamic_fee_hash_fields (c.vec t.tuple_item)).encode a) < 2 ^ 64

  module _ ⦃e : HashEncoders⦄ (derived : DerivesTxs) (laws : HashLaws) where
    legacy_bytes :
        (a : LegacyAsHash)
        → IsLegacyContent a
        → sign_bytes (legacy_content a none) ≡ list_of (legacy_hash_fields.encode a)
    unfolding sign_bytes
    legacy_bytes a v = DerivesEncoder-list laws.legacy legacy_hash_fields-IsRlp a v

    chain_id_bytes :
        (a : LegacyAsHash) (n : ℕ)
        → IsLegacyContent a
        → n < 256 ^ 32
        → sign_bytes (legacy_content a (some n))
          ≡ list_of (chain_id_hash_fields.encode (with_chain_id a n))
    unfolding sign_bytes
    chain_id_bytes a n v vn =
        DerivesEncoder-list laws.with_chain_id chain_id_hash_fields-IsRlp (with_chain_id a n)
          (v, (vn, (omega arith, omega arith)))

    access_list_bytes :
        (a : AccessListAsHash)
        → IsAccessListContent IsAccesses a
        → sign_bytes (access_list_content a)
          ≡ access_list_type ∷ list_of ((access_list_hash_fields (c.vec t.tuple_item)).encode a)
    unfolding sign_bytes
    access_list_bytes a v =
        ap (λ bs. access_list_type ∷ bs)
          (DerivesEncoder-list laws.access_list
            (access_list_hash_fields-IsRlp (access_vec-IsRlp derived)) a v)

    dynamic_fee_bytes :
        (a : DynamicFeeAsHash)
        → IsDynamicFeeContent IsAccesses a
        → sign_bytes (dynamic_fee_content a)
          ≡ dynamic_fee_type ∷ list_of ((dynamic_fee_hash_fields (c.vec t.tuple_item)).encode a)
    unfolding sign_bytes
    dynamic_fee_bytes a v =
        ap (λ bs. dynamic_fee_type ∷ bs)
          (DerivesEncoder-list laws.dynamic_fee
            (dynamic_fee_hash_fields-IsRlp (access_vec-IsRlp derived)) a v)

    -- The bytes of a legacy transaction start as a list, those of the others with their type.
    legacy_first :
        (a : LegacyAsHash) (o : Option ℕ)
        → IsContent (legacy_content a o)
        → (x : ℕ) × (xs : List ℕ) × (sign_bytes (legacy_content a o) ≡ x ∷ xs) × (leb 0xc0 x ≡ true)
    legacy_first a none v =
        let p = legacy_hash_fields.encode a in
        let (x, xs, q, big) =
          r.encode_header_first (record { list = true; payload_length = length p }) in
        (x, xs ++ p, legacy_bytes a v.0 ∙ (rw q refl), big)
    legacy_first a (some n) v =
        let p = chain_id_hash_fields.encode (with_chain_id a n) in
        let (x, xs, q, big) =
          r.encode_header_first (record { list = true; payload_length = length p }) in
        (x, xs ++ p, chain_id_bytes a n v.0 v.1 ∙ (rw q refl), big)

    legacy_not_typed :
        (a : LegacyAsHash) (o : Option ℕ) (ty : ℕ) (bs : List ℕ)
        → IsContent (legacy_content a o)
        → ty < 0xc0
        → sign_bytes (legacy_content a o) ≢ ty ∷ bs
    legacy_not_typed a o ty bs v low same =
        let (x, xs, q, big) = legacy_first a o v in let eq : x ≡ ty = cc in ground (arith, eq, big)

    list_pair :
        (p p' : List ℕ) (bs bs' : List ℕ)
        → bs ≡ list_of p
        → bs' ≡ list_of p'
        → length p < 2 ^ 64
        → length p' < 2 ^ 64
        → bs ≡ bs'
        → p ≡ p'
    list_pair p p' bs bs' q q' small small' same =
        list_of-injective p p' small small' (sym q ∙ same ∙ q')

    other_type : {x y : ℕ} {bs bs' : List ℕ} → x ∷ bs ≡ y ∷ bs' → x ≢ y → ⊥
    other_type e n = n cc

    rest_of : {x y : ℕ} {bs bs' : List ℕ} → x ∷ bs ≡ y ∷ bs' → bs ≡ bs'
    rest_of e = cc

    sign_bytes-injective :
        (x y : Content) → IsContent x → IsContent y → sign_bytes x ≡ sign_bytes y → x ≡ y
    sign_bytes-injective (legacy_content a none) (legacy_content a' none) v v' same =
        ap (λ z. legacy_content z none)
          (IsRlp-injective legacy_hash_fields-IsRlp a a' v.0 v'.0
            (list_pair _ _ _ _ (legacy_bytes a v.0) (legacy_bytes a' v'.0) v.1 v'.1 same))
    sign_bytes-injective (legacy_content a (some n)) (legacy_content a' (some n')) v v' same =
        let q : with_chain_id a n ≡ with_chain_id a' n' =
          IsRlp-injective chain_id_hash_fields-IsRlp (with_chain_id a n) (with_chain_id a' n')
            (v.0, (v.1, (omega arith, omega arith))) (v'.0, (v'.1, (omega arith, omega arith)))
            (list_pair _ _ _ _ (chain_id_bytes a n v.0 v.1) (chain_id_bytes a' n' v'.0 v'.1) v.2
              v'.2 same) in
        ap (λ z. legacy_content z.unsigned (some z.chain_id)) q
    sign_bytes-injective (legacy_content a none) (legacy_content a' (some n')) v v' same = absurd (
        no_chain_id a a' n' v.0 v'.0
          (list_pair _ _ _ _ (legacy_bytes a v.0) (chain_id_bytes a' n' v'.0 v'.1) v.1 v'.2 same))
    sign_bytes-injective (legacy_content a (some n)) (legacy_content a' none) v v' same = absurd (
        no_chain_id a' a n v'.0 v.0 (
          sym
            (list_pair _ _ _ _ (chain_id_bytes a n v.0 v.1) (legacy_bytes a' v'.0) v.2 v'.1 same)))
    sign_bytes-injective (access_list_content a) (access_list_content a') v v' same =
        ap access_list_content (
          IsRlp-injective (access_list_hash_fields-IsRlp (access_vec-IsRlp derived)) a a' v.0 v'.0 (
            list_of-injective _ _ v.1 v'.1
              (rest_of (sym (access_list_bytes a v.0) ∙ same ∙ access_list_bytes a' v'.0))))
    sign_bytes-injective (dynamic_fee_content a) (dynamic_fee_content a') v v' same =
        ap dynamic_fee_content (
          IsRlp-injective (dynamic_fee_hash_fields-IsRlp (access_vec-IsRlp derived)) a a' v.0 v'.0 (
            list_of-injective _ _ v.1 v'.1
              (rest_of (sym (dynamic_fee_bytes a v.0) ∙ same ∙ dynamic_fee_bytes a' v'.0))))
    sign_bytes-injective (legacy_content a o) (access_list_content a') v v' same =
        absurd (legacy_not_typed a o _ _ v (omega arith) (same ∙ access_list_bytes a' v'.0))
    sign_bytes-injective (legacy_content a o) (dynamic_fee_content a') v v' same =
        absurd (legacy_not_typed a o _ _ v (omega arith) (same ∙ dynamic_fee_bytes a' v'.0))
    sign_bytes-injective (access_list_content a) (legacy_content a' o) v v' same =
        absurd (legacy_not_typed a' o _ _ v' (omega arith) (sym same ∙ access_list_bytes a v.0))
    sign_bytes-injective (dynamic_fee_content a) (legacy_content a' o) v v' same =
        absurd (legacy_not_typed a' o _ _ v' (omega arith) (sym same ∙ dynamic_fee_bytes a v.0))
    sign_bytes-injective (access_list_content a) (dynamic_fee_content a') v v' same = absurd (
        other_type (sym (access_list_bytes a v.0) ∙ same ∙ dynamic_fee_bytes a' v'.0) (omega arith))
    sign_bytes-injective (dynamic_fee_content a) (access_list_content a') v v' same = absurd (
        other_type (sym (dynamic_fee_bytes a v.0) ∙ same ∙ access_list_bytes a' v'.0) (omega arith))

    -- Two transactions, of any kinds, with the same signing hash have the same signed content, that is kind,
    -- chain id and all fields but the signature, or else are a collision of keccak256: their bytes
    -- differ and have one digest. The contents are in range, and the derived encoders write the
    -- fields in their order.
    pub signing_hash_binds :
        ⦃u : UintCrate⦄ ⦃k : KeccakCrate⦄ (tx tx' : Transaction) (x y : Content)
        → content tx ≡ ok x
        → content tx' ≡ ok y
        → IsContent x
        → IsContent y
        → hash tx ≡ hash tx'
        → (x ≡ y)
          ⊎ ((sign_bytes x ≢ sign_bytes y) × (keccak256 (sign_bytes x) ≡ keccak256 (sign_bytes y)))
    signing_hash_binds tx tx' x y hx hy v v' same =
        elim (Bool-cases (bytes_eq (sign_bytes x) (sign_bytes y))) [
          | inl bytes ↦ inl (sign_bytes-injective x y v v' (bytes_eq→eq _ _ bytes))
          | inr differ ↦ inr (distinct differ, digests)
        ]
      where
        distinct : bytes_eq (sign_bytes x) (sign_bytes y) ≡ false → sign_bytes x ≢ sign_bytes y
        distinct differ p =
            let z : ◌≡◌ {A = Bool} true false =
              sym (bytes_eq_self (sign_bytes y)) ∙ (rw p at differ) in
            cc

        digests : keccak256 (sign_bytes x) ≡ keccak256 (sign_bytes y)
        digests =
            let p : hash tx ≡ ok (keccak256 (sign_bytes x)) = hash-content tx ∙ (rw hx refl) in
            let q : hash tx' ≡ ok (keccak256 (sign_bytes y)) = hash-content tx' ∙ (rw hy refl) in cc
