-- ===== src/Examples/Keys.antt =====
-- The keys of the tables at concrete inputs.
use erigon_db.Prelude.{ℕ, ◌≤◌, ◌≡◌, ◌≢◌, refl, arith, List, ◌++◌, replicate}
use erigon_db.Prelude.Digits.{be_bytes, be_value_from}
use erigon_db.Outcome.{ok, panic}
use erigon_db.Crates.Stand.{uint, fixed_hash, array_vec}
use erigon_db.Kv.Traits.{RoundTrip}
use erigon_db.Kv.Values.{h256_type, uint_type, split_at}
use erigon_db.Macros.{tuple_key2}
use erigon_db.Models.Keys.{header_key, u64_key}
use erigon_db.Models.Keys.RoundTrip.{keys-Fits, keys-IsCanonical, keys-NeverPanic}

abbrev low_hash : List ℕ
low_hash = replicate 32 3

abbrev high_hash : List ℕ
high_hash = replicate 32 4

abbrev owner : List ℕ
owner = replicate 20 7

keys-Fits_example : RoundTrip header_key.object (5, low_hash) (λ n. n ≤ header_key.size_of)
keys-Fits_example = keys-Fits.0.trip (5, low_hash) (omega arith, refl)

keys-IsCanonical_example : header_key.encode (5, low_hash) ≡ ok (be_bytes 8 5 ++ low_hash)
unfolding header_key u64_key tuple_key2 split_at h256_type uint_type be_value_from be_bytes
keys-IsCanonical_example =
    keys-IsCanonical.0 (be_bytes 8 5 ++ low_hash) (5, low_hash) (omega arith) refl

keys-NeverPanic_example : header_key.decode (replicate 9 1) ≢ panic
keys-NeverPanic_example = keys-NeverPanic.0 (replicate 9 1)
