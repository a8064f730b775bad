-- ===== src/Models/Senders.antt =====
-- erigon/models/mod.rs: the value of the TxSender table, 20 bytes for each address.
pub mod RoundTrip
use erigon_db.Prelude.{
  ℕ, zero, suc, ◌+◌, ◌-◌, ◌*◌, ◌/◌, ◌%◌, List, [], ◌∷◌, ◌++◌, length, take, drop, leb, ◌==◌, not,
  if◌then◌else◌,
}
use erigon_db.Outcome.{message, Result, ok, err, panic, ◌>>=◌}
use erigon_db.Crates.{FixedHashCrate, Address}
use erigon_db.Utils.{address_length}
use erigon_db.Kv.Traits.{TableObject}
use erigon_db.Kv.Values.{address_type}

-- `&b[lo..hi]`, which panics beyond the end.
unfoldable pub slice_range : ℕ → ℕ → List ℕ → Result (List ℕ)
slice_range lo hi b = if leb hi (length b) then ok (take (hi - lo) (drop lo b)) else panic

module _ ⦃f : FixedHashCrate⦄ where
  -- The loop of the encoder, with what is written so far.
  unfoldable pub encode_from : List ℕ → List Address → Result (List ℕ)
  encode_from v [] = ok v
  encode_from v (addr ∷ rest) = do e ← address_type.encode addr; encode_from (v ++ e) rest

  unfoldable pub encode_senders : List Address → Result (List ℕ)
  encode_senders = encode_from []

  -- The loop of the decoder: the rounds left, the round, the input, and what is read so far.
  unfoldable pub decode_from : ℕ → ℕ → List ℕ → List Address → Result (List Address)
  decode_from zero i b v = ok v
  decode_from (suc rounds) i b v = do
    let offset = i * address_length
    s ← slice_range offset (offset + address_length) b
    addr ← address_type.decode s
    decode_from rounds (i + 1) b (v ++ addr ∷ [])

  unfoldable pub decode_senders : List ℕ → Result (List Address)
  decode_senders b =
      if not (length b % address_length == 0)
      then err (message "Slice len should be divisible by 20")
      else decode_from (length b / address_length) 0 b []

  unfoldable pub senders_object : TableObject (List Address)
  unfolding encode_senders decode_senders
  senders_object = record { encode = encode_senders; decode = decode_senders }
