-- ===== src/Crates/Derive.antt =====
-- `fastrlp`: the codecs that `derive(RlpEncodable, RlpDecodable)` generates, and those of vectors.
use erigon_db.Prelude.{
  ℕ, ◌+◌, ◌^◌, ◌≤◌, ◌<◌, ◌≡◌, refl, ◌∙◌, true, inl, List, [], ◌∷◌, ◌++◌, length, leb, All, arith,
  length-append, append_assoc,
}
use erigon_db.Outcome.{DecodeError, ok, err, ◌>>=◌}
use erigon_db.Crates.Rlp.{RlpItem, IsRlp, RlpCrate}

-- Two items, one behind the other.
abbrev pub pair : {A B : Type 0} → RlpItem A → RlpItem B → RlpItem (A × B)
pair a b = record {
  encode = λ p. a.encode p.0 ++ b.encode p.1;
  rlp_length = λ p. a.rlp_length p.0 + b.rlp_length p.1;
  decode = λ bs. (do (x, bs1) ← a.decode bs; (y, bs2) ← b.decode bs1; ok ((x, y), bs2));
}

-- The same items for the fields of a struct.
abbrev pub convert : {A B : Type 0} → (A → B) → (B → A) → RlpItem A → RlpItem B
convert make fields item = record {
  encode = λ b. item.encode (fields b);
  rlp_length = λ b. item.rlp_length (fields b);
  decode = λ bs. (do (a, rest) ← item.decode bs; ok (make a, rest));
}

pub pair-IsRlp :
    {A B : Type 0} {a : RlpItem A} {b : RlpItem B} {V : A → Type 0} {W : B → Type 0}
    → IsRlp a V
    → IsRlp b W
    → IsRlp (pair a b) (λ p. V p.0 × W p.1)
pair-IsRlp {a = a} {b = b} ha hb = record {
  decode-encode = λ p rest v.
      rw (append_assoc (a.encode p.0) (b.encode p.1) rest)
        (rw (ha.decode-encode p.0 (b.encode p.1 ++ rest) v.0, hb.decode-encode p.1 rest v.1) refl);
  rlp_length_lem =
      λ p v. rw (length-append, ha.rlp_length_lem p.0 v.0, hb.rlp_length_lem p.1 v.1) refl;
}

pub convert-IsRlp :
    {A B : Type 0} (make : A → B) (fields : B → A) {item : RlpItem A} {V : A → Type 0}
    → ((b : B) → make (fields b) ≡ b)
    → IsRlp item V
    → IsRlp (convert make fields item) (λ b. V (fields b))
convert-IsRlp make fields back h = record {
  decode-encode = λ b rest v. rw (h.decode-encode (fields b) rest v, back b) refl;
  rlp_length_lem = λ b v. h.rlp_length_lem (fields b) v;
}

pub narrow-IsRlp :
    {A : Type 0} {item : RlpItem A} {V W : A → Type 0}
    → ((a : A) → W a → V a)
    → IsRlp item V
    → IsRlp item W
narrow-IsRlp only h = record {
  decode-encode = λ a rest v. h.decode-encode a rest (only a v);
  rlp_length_lem = λ a v. h.rlp_length_lem a (only a v);
}

module _ ⦃r : RlpCrate⦄ where
  abbrev pub list_of : List ℕ → List ℕ
  list_of payload =
      r.encode_header (record { list = true; payload_length = length payload }) ++ payload

  -- The derived codec of a struct: a list of the fields in their order.
  pub record Derives {A : Type 0} (item fields : RlpItem A) : Type 0 where
    pub encode_lem :
        (a : A)
        → item.encode a
          ≡ r.encode_header (record { list = true; payload_length = fields.rlp_length a })
            ++ fields.encode a
    pub rlp_length_lem :
        (a : A) → item.rlp_length a ≡ r.length_of_length (fields.rlp_length a) + fields.rlp_length a
    -- A list whose payload the fields fill, whatever follows, decodes to the struct.
    pub decode_lem :
        (payload rest : List ℕ) (a : A)
        → length payload < 2 ^ 64
        → ((more : List ℕ) → fields.decode (payload ++ more) ≡ ok (a, more))
        → item.decode (list_of payload ++ rest) ≡ ok (a, rest)
    -- An error of a field is the struct's.
    pub decode_err :
        (payload rest : List ℕ) (e : DecodeError)
        → length payload < 2 ^ 64
        → ((more : List ℕ) → fields.decode (payload ++ more) ≡ err e)
        → item.decode (list_of payload ++ rest) ≡ err e

  pub Derives-IsRlp :
      {A : Type 0} {item fields : RlpItem A} {V : A → Type 0}
      → Derives item fields
      → IsRlp fields V
      → IsRlp item (λ a. V a × fields.rlp_length a < 2 ^ 64)
  Derives-IsRlp {item = item} {fields = fields} d h = record {
    decode-encode = λ a rest v.
        rw (d.encode_lem a, h.rlp_length_lem a v.0)
          (d.decode_lem (fields.encode a) rest a (rw (← h.rlp_length_lem a v.0) (v.1))
            (λ more. h.decode-encode a more v.0));
    rlp_length_lem = λ a v.
        rw (d.encode_lem a, d.rlp_length_lem a, length-append)
          (rw (r.length-encode_header, h.rlp_length_lem a v.0) refl);
  }

  -- Its encoding is not empty, and its first byte says that it is a list.
  pub Derives-first :
      {A : Type 0} {item fields : RlpItem A}
      → Derives item fields
      → (a : A) → (b : ℕ) × (bs : List ℕ) × (item.encode a ≡ b ∷ bs) × (leb 0xc0 b ≡ true)
  Derives-first {fields = fields} d a =
      let (b, bs, e, list) =
        r.encode_header_first (record { list = true; payload_length = fields.rlp_length a }) in
      (b, bs ++ fields.encode a, d.encode_lem a ∙ rw e refl, list)

  -- The encoder alone, of a struct that is never decoded.
  pub record DerivesEncoder {A : Type 0} (encode : A → List ℕ) (fields : RlpItem A) : Type 0 where
    pub encode_lem :
        (a : A)
        → encode a
          ≡ r.encode_header (record { list = true; payload_length = fields.rlp_length a })
            ++ fields.encode a

  -- A list determines its payload.
  pub list_of-injective :
      (p p' : List ℕ) → length p < 2 ^ 64 → length p' < 2 ^ 64 → list_of p ≡ list_of p' → p ≡ p'
  list_of-injective p p' small small' e =
      let d =
        r.decode-encode_header (record { list = true; payload_length = length p }) p (omega arith)
          small (inl refl) in
      let d' =
        r.decode-encode_header (record { list = true; payload_length = length p' }) p' (omega arith)
          small' (inl refl) in
      let d'' = rw (← e) at d' in cc

  pub DerivesEncoder-list :
      {A : Type 0} {encode : A → List ℕ} {fields : RlpItem A} {V : A → Type 0}
      → DerivesEncoder encode fields
      → IsRlp fields V
      → (a : A) → V a
      → encode a ≡ list_of (fields.encode a)
  DerivesEncoder-list d h a v = d.encode_lem a ∙ (rw (h.rlp_length_lem a v) refl)

-- What decodes from its encoding is determined by that.
pub IsRlp-injective :
    {A : Type 0} {item : RlpItem A} {V : A → Type 0}
    → IsRlp item V
    → (a a' : A) → V a
    → V a'
    → item.encode a ≡ item.encode a'
    → a ≡ a'
IsRlp-injective {item = item} h a a' v v' e =
    let d = h.decode-encode a [] v in
    let d' = h.decode-encode a' [] v' in let d'' = rw (← e) at d' in cc

-- The items of a list's payload, each of at least a byte.
pub data Reads {A : Type 0} (item : RlpItem A) : List ℕ → List A → Type 0 where
  done : Reads item [] []
  more :
      (b : ℕ) (bs rest : List ℕ) (x : A) (xs : List A)
      → item.decode (b ∷ bs) ≡ ok (x, rest)
      → length rest ≤ length bs
      → Reads item rest xs
      → Reads item (b ∷ bs) (x ∷ xs)

abbrev pub encode_all : {A : Type 0} → RlpItem A → List A → List ℕ
encode_all item [] = []
encode_all item (x ∷ xs) = item.encode x ++ encode_all item xs

abbrev pub length_all : {A : Type 0} → RlpItem A → List A → ℕ
length_all item [] = 0
length_all item (x ∷ xs) = item.rlp_length x + length_all item xs

-- `Encodable` and `Decodable` of `Vec`.
pub record VecCodec ⦃r : RlpCrate⦄ : Type 1 where
  pub vec : {A : Type 0} → RlpItem A → RlpItem (List A)
  pub encode_lem :
      {A : Type 0} (item : RlpItem A) (xs : List A)
      → (vec item).encode xs
        ≡ r.encode_header (record { list = true; payload_length = length_all item xs })
          ++ encode_all item xs
  pub rlp_length_lem :
      {A : Type 0} (item : RlpItem A) (xs : List A)
      → (vec item).rlp_length xs ≡ r.length_of_length (length_all item xs) + length_all item xs
  -- Items are decoded until nothing is left of the payload.
  pub decode_lem :
      {A : Type 0} (item : RlpItem A) (payload rest : List ℕ) (xs : List A)
      → length payload < 2 ^ 64
      → Reads item payload xs
      → (vec item).decode (list_of payload ++ rest) ≡ ok (xs, rest)

abbrev pub IsVec : {A : Type 0} → RlpItem A → (A → Type 0) → List A → Type 0
IsVec item V xs = All V xs × length_all item xs < 2 ^ 64

module _ {A : Type 0} {item : RlpItem A} {V : A → Type 0} (h : IsRlp item V)
    (some_bytes : (a : A) → V a → (b : ℕ) × (bs : List ℕ) × (item.encode a ≡ b ∷ bs)) where
  pub length-encode_all :
      (xs : List A) → All V xs → length_all item xs ≡ length (encode_all item xs)
  length-encode_all [] v = refl
  length-encode_all (x ∷ xs) v =
      rw (length-append, h.rlp_length_lem x v.0, length-encode_all xs v.1) refl

  encode_all-Reads : (xs : List A) → All V xs → Reads item (encode_all item xs) xs
  encode_all-Reads [] v = done
  encode_all-Reads (x ∷ xs) v =
      let (b, bs, e) = some_bytes x v.0 in
      let first : item.decode (b ∷ bs ++ encode_all item xs) ≡ ok (x, encode_all item xs) =
        rw e at (h.decode-encode x (encode_all item xs) v.0) in
      rw e (
        more b (bs ++ encode_all item xs) (encode_all item xs) x xs first
          (rw length-append (omega arith)) (encode_all-Reads xs v.1))

  pub vec-IsRlp : ⦃r : RlpCrate⦄ ⦃c : VecCodec⦄ → IsRlp (c.vec item) (IsVec item V)
  vec-IsRlp ⦃r⦄ ⦃c⦄ = record {
    decode-encode = λ xs rest v.
        rw (c.encode_lem item xs, length-encode_all xs v.0)
          (c.decode_lem item (encode_all item xs) rest xs (rw (← length-encode_all xs v.0) (v.1))
            (encode_all-Reads xs v.0));
    rlp_length_lem = λ xs v.
        rw (c.encode_lem item xs, c.rlp_length_lem item xs, length-append)
          (rw (r.length-encode_header, length-encode_all xs v.0) refl);
  }
