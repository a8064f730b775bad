-- ===== src/Models/Block/Body.antt =====
-- Stored bodies through the codec that is derived for them: two numbers and the headers of uncles.
use erigon_db.Prelude.{ℕ, ◌^◌, ◌≤◌, ◌<◌, ◌≡◌, refl, ◌∙◌, none, List, [], ◌∷◌, ◌++◌, map, All, arith}
use erigon_db.Outcome.{ok, Profile}
use erigon_db.Crates.{RlpCrate, RlpItem, IsRlp}
use erigon_db.Crates.Derive.{
  pair, convert, pair-IsRlp, convert-IsRlp, VecCodec, vec-IsRlp, IsVec, encode_all, length_all,
  Derives, Derives-IsRlp,
}
use erigon_db.Models.Block.{
  BlockHeader, BodyForStorage, block_header_item, rlp_header, encode_block_header, encode_fields,
  block_header_length,
}
use erigon_db.Models.Block.Length.{IsBlockHeader, block_header_length_lem}
use erigon_db.Models.Block.RoundTrip.{block_header_round_trip}

abbrev pub without_seal : BlockHeader → BlockHeader
without_seal h = record h { seal = none }

abbrev pub without_seals : BodyForStorage → BodyForStorage
without_seals b = record b { uncles = map without_seal b.uncles }

module _ ⦃r : RlpCrate⦄ where
  abbrev pub IsShortHeader : BlockHeader → Type 0
  IsShortHeader h = IsBlockHeader h × (rlp_header h).payload_length < 2 ^ 64

module _ ⦃r : RlpCrate⦄ ⦃p : Profile⦄ ⦃c : VecCodec⦄ where
  unfoldable pub body_fields : RlpItem BodyForStorage
  body_fields =
      convert (λ p. record { base_tx_id = p.0; tx_amount = p.1.0; uncles = p.1.1 })
        (λ b. (b.base_tx_id, (b.tx_amount, b.uncles)))
        (pair r.u64 (pair r.u32 (c.vec block_header_item)))

  -- The ranges of the fields, in a list of less than 2 ^ 64 bytes.
  pub record IsBody (b : BodyForStorage) : Type 0 where
    pub base_tx_id : b.base_tx_id < 256 ^ 8
    pub tx_amount : b.tx_amount < 256 ^ 4
    pub uncles : All IsShortHeader b.uncles
    pub short : body_fields.rlp_length b < 2 ^ 64

  block_header_item-IsRlp : IsRlp block_header_item (λ h. IsShortHeader h × (h.seal ≡ none))
  unfolding block_header_item
  block_header_item-IsRlp = record {
    decode-encode = λ h rest v. block_header_round_trip h rest v.0.0 v.0.1 ∙ (rw (← v.1) refl);
    rlp_length_lem = λ h v. block_header_length_lem h v.0.0;
  }

  header_first : (h : BlockHeader) → (x : ℕ) × (bs : List ℕ) × (block_header_item.encode h ≡ x ∷ bs)
  unfolding block_header_item encode_block_header
  header_first h =
      let (x, bs, e, list) = r.encode_header_first (rlp_header h) in
      (x, bs ++ encode_fields h, rw e refl)

  -- Uncles without seals.
  abbrev AreUncles : List BlockHeader → Type 0
  AreUncles = IsVec block_header_item (λ h. IsShortHeader h × (h.seal ≡ none))

  body_fields-IsRlp :
      IsRlp body_fields
        (λ b. (b.base_tx_id < 256 ^ 8) × ((b.tx_amount < 256 ^ 4) × AreUncles b.uncles))
  unfolding body_fields
  body_fields-IsRlp =
      convert-IsRlp _ _ (λ b. refl)
        (pair-IsRlp r.u64-IsRlp
          (pair-IsRlp r.u32-IsRlp (vec-IsRlp block_header_item-IsRlp (λ h v. header_first h))))

  without_seal-encode :
      (h : BlockHeader)
      → (block_header_item.encode (without_seal h) ≡ block_header_item.encode h)
        × (block_header_item.rlp_length (without_seal h) ≡ block_header_item.rlp_length h)
  unfolding block_header_item encode_block_header encode_fields rlp_header block_header_length
  without_seal-encode h = (refl, refl)

  all_without_seal :
      (hs : List BlockHeader)
      → (encode_all block_header_item (map without_seal hs) ≡ encode_all block_header_item hs)
        × (length_all block_header_item (map without_seal hs) ≡ length_all block_header_item hs)
  all_without_seal [] = (refl, refl)
  all_without_seal (h ∷ hs) =
      let (e, n) = all_without_seal hs in
      let (e1, n1) = without_seal-encode h in (rw (e, e1) refl, rw (n, n1) refl)

  -- The seals of uncles are not written.
  without_seals-encode :
      (b : BodyForStorage)
      → (body_fields.encode (without_seals b) ≡ body_fields.encode b)
        × (body_fields.rlp_length (without_seals b) ≡ body_fields.rlp_length b)
  unfolding body_fields
  without_seals-encode b =
      let (e, n) = all_without_seal b.uncles in
      (
        rw
            (
              c.encode_lem block_header_item (map without_seal b.uncles),
              c.encode_lem block_header_item b.uncles,
              e,
              n,
            )
            refl,
        rw
            (
              c.rlp_length_lem block_header_item (map without_seal b.uncles),
              c.rlp_length_lem block_header_item b.uncles,
              n,
            )
            refl,
      )

  without_seal-IsShortHeader : (h : BlockHeader) → IsShortHeader h → IsShortHeader (without_seal h)
  unfolding rlp_header
  without_seal-IsShortHeader h (v, short) = (
    record {
      parent_hash = v.parent_hash;
      uncle_hash = v.uncle_hash;
      coinbase = v.coinbase;
      root = v.root;
      tx_hash = v.tx_hash;
      receipts_hash = v.receipts_hash;
      bloom = v.bloom;
      difficulty = v.difficulty;
      number = v.number;
      gas_limit = v.gas_limit;
      gas_used = v.gas_used;
      time = v.time;
      extra = v.extra;
      mix_digest = v.mix_digest;
      nonce = v.nonce;
      base_fee = v.base_fee;
    },
    short,
  )

  uncles_valid :
      (hs : List BlockHeader)
      → All IsShortHeader hs
      → All (λ h. IsShortHeader h × (h.seal ≡ none)) (map without_seal hs)
  uncles_valid [] v = tt
  uncles_valid (h ∷ hs) (w, v) = ((without_seal-IsShortHeader h w, refl), uncles_valid hs v)

  length-uncles :
      (b : BodyForStorage) → length_all block_header_item b.uncles ≤ body_fields.rlp_length b
  unfolding body_fields
  length-uncles b = omega (arith, c.rlp_length_lem block_header_item b.uncles)

  -- A body in range decodes from its encoding, whatever follows, without the seals of its uncles, if
  -- the derived codec writes and reads the fields in their order.
  pub body_round_trip :
      {item : RlpItem BodyForStorage} (derived : Derives item body_fields) (b : BodyForStorage)
      (rest : List ℕ)
      → IsBody b
      → item.decode (item.encode b ++ rest) ≡ ok (without_seals b, rest)
  body_round_trip derived b rest v =
      let (e, n) = without_seals-encode b in
      rw (derived.encode_lem b, ← e, ← n, ← derived.encode_lem (without_seals b))
        ((Derives-IsRlp derived body_fields-IsRlp).decode-encode (without_seals b) rest
          ((v.base_tx_id, (v.tx_amount, (uncles_valid b.uncles v.uncles, short))), rw n (v.short)))
    where
      short : length_all block_header_item (map without_seal b.uncles) < 2 ^ 64
      short = rw ((all_without_seal b.uncles).1) (omega (arith, length-uncles b, v.short))
