-- ===== src/Db/Spec/Values.antt =====
-- What the encodings of headers and bodies decode to.
use erigon_db.Prelude.{◌≡◌, refl, [], append-nil}
use erigon_db.Outcome.{ok, Profile}
use erigon_db.Crates.{FixedHashCrate, ArrayVecCrate, RlpCrate}
use erigon_db.Crates.Derive.{VecCodec, Derives}
use erigon_db.Models.Block.{
  BlockHeader, BodyForStorage, rlp_table_value, block_header_item, encode_block_header,
}
use erigon_db.Models.Block.Body.{
  IsShortHeader, IsBody, without_seal, without_seals, body_fields, body_round_trip,
}
use erigon_db.Models.Block.RoundTrip.{block_header_round_trip}
use erigon_db.Db.Tables

module _ ⦃f : FixedHashCrate⦄ ⦃v : ArrayVecCrate⦄ ⦃r : RlpCrate⦄ ⦃p : Profile⦄
    ⦃i : Tables.BodyItem⦄ where
  pub header_encoded :
      (h : BlockHeader) → Tables.header.object.encode h ≡ ok (encode_block_header h)
  unfolding rlp_table_value block_header_item
  header_encoded h = refl

  pub header_decoded :
      (h : BlockHeader)
      → IsShortHeader h
      → Tables.header.object.decode (encode_block_header h) ≡ ok (without_seal h)
  unfolding rlp_table_value block_header_item
  header_decoded h valid =
      rw (← append-nil (encode_block_header h), block_header_round_trip h [] valid.0 valid.1) refl

  pub body_encoded : (b : BodyForStorage) → Tables.block_body.object.encode b ≡ ok (i.item.encode b)
  unfolding rlp_table_value
  body_encoded b = refl

  pub body_decoded :
      ⦃c : VecCodec⦄ (derived : Derives i.item body_fields) (b : BodyForStorage)
      → IsBody b
      → Tables.block_body.object.decode (i.item.encode b) ≡ ok (without_seals b)
  unfolding rlp_table_value
  body_decoded derived b valid =
      rw (← append-nil (i.item.encode b), body_round_trip derived b [] valid) refl
