-- ===== src/Models/Keys/RoundTrip.antt =====
-- Every key decodes from its encoding, and no input makes a key decoder panic.
use erigon_db.Prelude.{ℕ, ◌^◌, ◌<◌, arith}
use erigon_db.Crates.{FixedHashCrate, UintCrate, ArrayVecCrate, IsH256, IsAddress}
use erigon_db.Kv.Traits.{TableType, Fits, Fills, NeverPanics, IsCanonical}
use erigon_db.Kv.Values.{h256_type, u256_type, address_type, uint_type}
use erigon_db.Kv.Values.RoundTrip.{
  h256_type-Fills, address_type-Fills, uint-Fills, u256_type-Fits, IsU256,
}
use erigon_db.Kv.Values.Canonical
use erigon_db.Macros.{tuple_key2}
use erigon_db.Macros.Tuples.{tuple_key2-Fits, tuple_key3-Fits}
use erigon_db.Macros.Canonical.{
  tuple_key2-NeverPanics, tuple_key3-NeverPanics, tuple_key2-IsCanonical, tuple_key3-IsCanonical,
}
use erigon_db.Models.Keys

abbrev pub IsU64 : ℕ → Type 0
IsU64 n = n < 2 ^ 64

-- What fills its size fits it.
Fits-Fills : {A : Type 0} {t : TableType A} {V : A → Type 0} → Fills t V → Fits t V
Fits-Fills f = record { trip = λ a v. let (bs, e, d, l) = f.trip a v in (bs, e, d, omega arith) }

pub u64_key-Fills : Fills Keys.u64_key IsU64
unfolding Keys.u64_key
u64_key-Fills = record { trip = λ n v. (uint-Fills 8).trip n (omega arith) }

module _ ⦃f : FixedHashCrate⦄ ⦃v : ArrayVecCrate⦄ where
  pub header_key-Fits : Fits Keys.header_key (λ k. IsU64 k.0 × IsH256 k.1)
  unfolding Keys.header_key Keys.u64_key h256_type address_type
  header_key-Fits = tuple_key2-Fits _ _ (omega arith) u64_key-Fills (Fits-Fills h256_type-Fills)

  pub account_hist_key-Fits : Fits Keys.account_hist_key (λ k. IsAddress k.0 × IsU64 k.1)
  unfolding Keys.account_hist_key Keys.u64_key h256_type address_type
  account_hist_key-Fits =
      tuple_key2-Fits _ _ (omega arith) address_type-Fills (Fits-Fills u64_key-Fills)

  pub storage_key-Fits : Fits Keys.storage_key (λ k. IsAddress k.0 × IsU64 k.1)
  unfolding Keys.storage_key Keys.u64_key h256_type address_type
  storage_key-Fits = tuple_key2-Fits _ _ (omega arith) address_type-Fills (Fits-Fills u64_key-Fills)

  pub plain_code_key-Fits : Fits Keys.plain_code_key (λ k. IsAddress k.0 × IsU64 k.1)
  unfolding Keys.plain_code_key Keys.u64_key h256_type address_type
  plain_code_key-Fits =
      tuple_key2-Fits _ _ (omega arith) address_type-Fills (Fits-Fills u64_key-Fills)

  pub contract_code_key-Fits : Fits Keys.contract_code_key (λ k. IsH256 k.0 × IsU64 k.1)
  unfolding Keys.contract_code_key Keys.u64_key h256_type address_type
  contract_code_key-Fits =
      tuple_key2-Fits _ _ (omega arith) h256_type-Fills (Fits-Fills u64_key-Fills)

  pub logs_key-Fits : Fits Keys.logs_key (λ k. IsU64 k.0 × (k.1 < 256 ^ 4))
  unfolding Keys.logs_key Keys.u64_key uint_type
  logs_key-Fits = tuple_key2-Fits _ _ (omega arith) u64_key-Fills (Fits-Fills (uint-Fills 4))

  -- `StorageKey` takes 28 bytes, and 32 of memory: it fits where it stands last.
  pub storage_cs_key-Fits :
      Fits Keys.storage_cs_key (λ k. IsU64 k.0 × (IsAddress k.1.0 × IsU64 k.1.1))
  unfolding Keys.storage_cs_key Keys.storage_key Keys.u64_key tuple_key2 address_type
  storage_cs_key-Fits = tuple_key2-Fits _ _ (omega arith) u64_key-Fills storage_key-Fits

  pub storage_hist_key-Fits :
      Fits Keys.storage_hist_key (λ k. IsAddress k.0 × IsH256 k.1 × IsU64 k.2)
  unfolding Keys.storage_hist_key Keys.u64_key h256_type address_type
  storage_hist_key-Fits =
      tuple_key3-Fits _ _ _ (omega arith) address_type-Fills h256_type-Fills
        (Fits-Fills u64_key-Fills)

  pub hash_storage_key-Fits : Fits Keys.hash_storage_key (λ k. IsH256 k.0 × IsU64 k.1 × IsH256 k.2)
  unfolding Keys.hash_storage_key Keys.u64_key h256_type
  hash_storage_key-Fits =
      tuple_key3-Fits _ _ _ (omega arith) h256_type-Fills u64_key-Fills (Fits-Fills h256_type-Fills)

  -- Each of the nine keys of the tables, with its parts in range, is encoded to some bytes that
  -- decode to it.
  pub keys-Fits :
      Fits Keys.header_key (λ k. IsU64 k.0 × IsH256 k.1)
      × Fits Keys.account_hist_key (λ k. IsAddress k.0 × IsU64 k.1)
      × Fits Keys.storage_key (λ k. IsAddress k.0 × IsU64 k.1)
      × Fits Keys.plain_code_key (λ k. IsAddress k.0 × IsU64 k.1)
      × Fits Keys.contract_code_key (λ k. IsH256 k.0 × IsU64 k.1)
      × Fits Keys.logs_key (λ k. IsU64 k.0 × (k.1 < 256 ^ 4))
      × Fits Keys.storage_cs_key (λ k. IsU64 k.0 × (IsAddress k.1.0 × IsU64 k.1.1))
      × Fits Keys.storage_hist_key (λ k. IsAddress k.0 × IsH256 k.1 × IsU64 k.2)
      × Fits Keys.hash_storage_key (λ k. IsH256 k.0 × IsU64 k.1 × IsH256 k.2)
  keys-Fits = (
    header_key-Fits, account_hist_key-Fits, storage_key-Fits, plain_code_key-Fits,
    contract_code_key-Fits, logs_key-Fits, storage_cs_key-Fits, storage_hist_key-Fits,
    hash_storage_key-Fits,
  )

  -- Only the encoding of a key decodes to that key: header, account history, storage, storage change
  -- set and storage history keys.
  pub keys-IsCanonical :
      IsCanonical Keys.header_key.object
      × IsCanonical Keys.account_hist_key.object
      × IsCanonical Keys.storage_key.object
      × IsCanonical Keys.storage_cs_key.object
      × IsCanonical Keys.storage_hist_key.object
  unfolding Keys.header_key Keys.account_hist_key Keys.storage_key Keys.storage_cs_key
      Keys.storage_hist_key Keys.u64_key
  keys-IsCanonical =
      let u64 : IsCanonical (uint_type 8).object = Canonical.uint-IsCanonical 8 in
      let address_u64 : IsCanonical (tuple_key2 address_type (uint_type 8)).object =
        tuple_key2-IsCanonical _ _ Canonical.address-IsCanonical u64 in
      (
        tuple_key2-IsCanonical _ _ u64 Canonical.h256-IsCanonical,
        address_u64,
        address_u64,
        tuple_key2-IsCanonical _ _ u64 address_u64,
        tuple_key3-IsCanonical _ _ _ Canonical.address-IsCanonical Canonical.h256-IsCanonical u64,
      )

  -- No bytes make the decoder of one of these keys panic.
  pub keys-NeverPanic :
      NeverPanics Keys.header_key.object
      × NeverPanics Keys.account_hist_key.object
      × NeverPanics Keys.storage_key.object
      × NeverPanics Keys.storage_cs_key.object
      × NeverPanics Keys.storage_hist_key.object
  unfolding Keys.header_key Keys.account_hist_key Keys.storage_key Keys.storage_cs_key
      Keys.storage_hist_key Keys.u64_key
  keys-NeverPanic =
      let u64 : NeverPanics (uint_type 8).object = Canonical.uint-NeverPanics 8 in
      let address_u64 : NeverPanics (tuple_key2 address_type (uint_type 8)).object =
        tuple_key2-NeverPanics _ _ Canonical.address-NeverPanics u64 in
      (
        tuple_key2-NeverPanics _ _ u64 Canonical.h256-NeverPanics,
        address_u64,
        address_u64,
        tuple_key2-NeverPanics _ _ u64 address_u64,
        tuple_key3-NeverPanics _ _ _ Canonical.address-NeverPanics Canonical.h256-NeverPanics u64,
      )

-- A changed slot and its value.
pub storage_cs_val-Fits :
    ⦃u : UintCrate⦄ ⦃f : FixedHashCrate⦄ ⦃v : ArrayVecCrate⦄
    → Fits Keys.storage_cs_val (λ k. IsH256 k.0 × IsU256 k.1)
unfolding Keys.storage_cs_val h256_type u256_type
storage_cs_val-Fits = tuple_key2-Fits _ _ (omega arith) h256_type-Fills u256_type-Fits
