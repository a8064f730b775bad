-- ===== src/Kv/Values/Canonical.antt =====
-- What the basic decoders do on any input: they never panic, and those of a fixed length accept
-- only the encoding of a value.
use erigon_db.Prelude.{ℕ, ◌≡◌, inl, inr, List, length, arith, Bool-cases, ltb, ltb→lt, ◌<◌, lt→ltb}
use erigon_db.Prelude.Digits.{be_bytes-be_value}
use erigon_db.Outcome.{err, too_long}
use erigon_db.Crates.{UintCrate, FixedHashCrate, ArrayVecCrate}
use erigon_db.Kv.Traits.{NeverPanics, IsCanonical}
use erigon_db.Kv.Values.{h256_type, u256_type, address_type, uint_type}
use erigon_db.Kv.Values.RoundTrip.{decode_u256-eq}

module _ ⦃f : FixedHashCrate⦄ where
  pub h256-NeverPanics : NeverPanics h256_type.object
  unfolding h256_type
  h256-NeverPanics bs e = ground (arith, f.from_slice_fits 32 bs)

  pub address-NeverPanics : NeverPanics address_type.object
  unfolding address_type
  address-NeverPanics bs e = ground (arith, f.from_slice_fits 20 bs)

  pub h256-IsCanonical : IsCanonical h256_type.object
  unfolding h256_type
  h256-IsCanonical bs a h e = ground (arith, f.from_slice_fits 32 bs)

  pub address-IsCanonical : IsCanonical address_type.object
  unfolding address_type
  address-IsCanonical bs a h e = ground (arith, f.from_slice_fits 20 bs)

pub uint-NeverPanics : (w : ℕ) → NeverPanics (uint_type w).object
unfolding uint_type
uint-NeverPanics w bs e = ground arith

-- The bytes of an integer are determined by it.
pub uint-IsCanonical : (w : ℕ) → IsCanonical (uint_type w).object
unfolding uint_type
uint-IsCanonical w bs a h e = ground (arith, be_bytes-be_value bs w)

module _ ⦃u : UintCrate⦄ ⦃a : ArrayVecCrate⦄ where
  -- More than 32 bytes are an error that says how many there are.
  pub decode_u256_beyond :
      (bs : List ℕ) → 32 < length bs → u256_type.decode bs ≡ err (too_long 32 (length bs))
  unfolding u256_type
  decode_u256_beyond bs h = rw (lt→ltb 32 (length bs) h)

  pub u256-NeverPanics : NeverPanics u256_type.object
  u256-NeverPanics bs e = elim (Bool-cases (ltb 32 (length bs))) [
    | inl long ↦ cc (decode_u256_beyond bs (ltb→lt _ _ long))
    | inr short ↦ cc (decode_u256-eq bs (ground arith))
  ]
