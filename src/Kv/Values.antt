-- ===== src/Kv/Values.antt =====
-- kv/tables.rs: the encodings of the basic keys and values.
pub mod RoundTrip
pub mod Canonical
use erigon_db.Prelude.{
  ℕ, ◌+◌, ◌-◌, not, List, [], ◌++◌, length, take, drop, replicate, leb, ltb, ◌==◌, if◌then◌else◌,
}
use erigon_db.Prelude.Digits.{be_bytes, be_value, strip_zeros}
use erigon_db.Outcome.{
  invalid_length, too_short, too_long, capacity, roaring, message, Result, ok, err, panic, ◌>>=◌,
  or_panic, ok_or, unwrap, map_err,
}
use erigon_db.Crates.{UintCrate, FixedHashCrate, ArrayVecCrate, RoaringCrate, H256, Address}
use erigon_db.Utils.{keccak_length, address_length, slice_to, is_empty}
use erigon_db.Kv.Traits.{TableObject, TableType}

unfoldable pub unit_object : TableObject (Unit {0})
unit_object = record {
  encode = λ u. ok [];
  decode = λ b. if is_empty b then ok tt else err (too_long 0 (length b));
}

-- `Vec<u8>`.
unfoldable pub vec_object : TableObject (List ℕ)
vec_object = record { encode = ok; decode = ok }

-- `bytes::Bytes`.
unfoldable pub bytes_object : TableObject (List ℕ)
bytes_object = record { encode = ok; decode = ok }

unfoldable pub variable_vec_object : ⦃a : ArrayVecCrate⦄ → ℕ → TableObject (List ℕ)
variable_vec_object ⦃a⦄ len = record {
  encode = ok;
  decode = λ b. ok_or (a.try_extend_from_slice len [] b) capacity;
}

unfoldable pub h256_type : ⦃f : FixedHashCrate⦄ → TableType H256
h256_type ⦃f⦄ = record {
  object = record {
    encode = ok;
    decode = λ b.
        if length b == keccak_length
        then or_panic (f.from_slice keccak_length b)
        else err (message "bad");
  };
  size_of = 32;
  align_of = 1;
}

unfoldable pub encode_u256 : ⦃u : UintCrate⦄ ⦃a : ArrayVecCrate⦄ → ℕ → Result (List ℕ)
encode_u256 ⦃u⦄ ⦃a⦄ n = or_panic (a.from_iter keccak_length (strip_zeros (u.to_big_endian n)))

-- `v[KECCAK_LENGTH - b.len()..].copy_from_slice(b)` on 32 zeros.
unfoldable pub decode_u256 : ⦃u : UintCrate⦄ → List ℕ → Result ℕ
decode_u256 ⦃u⦄ b =
    if ltb keccak_length (length b)
    then err (too_long keccak_length (length b))
    else or_panic (u.from_big_endian (replicate (keccak_length - length b) 0 ++ b))

unfoldable pub u256_type : ⦃u : UintCrate⦄ ⦃a : ArrayVecCrate⦄ → TableType ℕ
unfolding encode_u256 decode_u256
u256_type = record {
  object = record { encode = encode_u256; decode = decode_u256 };
  size_of = 32;
  align_of = 8;
}

unfoldable pub address_type : ⦃f : FixedHashCrate⦄ → TableType Address
address_type ⦃f⦄ = record {
  object = record {
    encode = ok;
    decode = λ b.
        if length b == address_length
        then or_panic (f.from_slice address_length b)
        else err (invalid_length address_length (length b));
  };
  size_of = 20;
  align_of = 1;
}

-- `out.try_extend_from_slice(..).unwrap()` on a `VariableVec` with room for `cap` bytes.
unfoldable pub extend : ⦃a : ArrayVecCrate⦄ → ℕ → List ℕ → List ℕ → Result (List ℕ)
extend ⦃a⦄ cap out s = or_panic (a.try_extend_from_slice cap out s)

-- `b.split_at(n)`, which panics beyond the end.
unfoldable pub split_at : ℕ → List ℕ → Result (List ℕ × List ℕ)
split_at n b = if leb n (length b) then ok (take n b, drop n b) else panic

unfoldable pub encode_slot :
    ⦃u : UintCrate⦄ ⦃a : ArrayVecCrate⦄ ⦃f : FixedHashCrate⦄ → H256 × ℕ → Result (List ℕ)
encode_slot (location, value) = do
  l ← h256_type.encode location
  out ← extend (keccak_length + keccak_length) [] l
  v ← u256_type.encode value
  extend (keccak_length + keccak_length) out v

unfoldable pub decode_slot :
    ⦃u : UintCrate⦄ ⦃a : ArrayVecCrate⦄ ⦃f : FixedHashCrate⦄ → List ℕ → Result (H256 × ℕ)
decode_slot b =
    if ltb (keccak_length + keccak_length) (length b)
    then err (too_long (keccak_length + keccak_length) (length b))
    else if ltb (length b) keccak_length
    then err (too_short keccak_length (length b))
    else do
      (l, v) ← split_at keccak_length b
      location ← h256_type.decode l
      value ← u256_type.decode v
      ok (location, value)

-- The pair `(H256, U256)` of a storage slot and its value.
unfoldable pub slot_object :
    ⦃u : UintCrate⦄ ⦃a : ArrayVecCrate⦄ ⦃f : FixedHashCrate⦄ → TableObject (H256 × ℕ)
unfolding encode_slot decode_slot
slot_object = record { encode = encode_slot; decode = decode_slot }

-- A pair of types whose encodings are arrays of `a_len` and `b_len` bytes.
module _ ⦃a : ArrayVecCrate⦄ {A B : Type 0} (ca : TableObject A) (cb : TableObject B)
    (a_len b_len : ℕ) where
  unfoldable pub encode_pair : A × B → Result (List ℕ)
  encode_pair (x, y) = do
    ex ← ca.encode x
    out ← extend 256 [] ex
    ey ← cb.encode y
    extend 256 out ey

  unfoldable pub decode_pair : List ℕ → Result (A × B)
  decode_pair v = if not (length v == a_len + b_len) then err (message "Invalid len") else do
    front ← slice_to a_len v
    x ← unwrap (ca.decode front)
    y ← unwrap (cb.decode (drop a_len v))
    ok (x, y)

  unfoldable pub pair_object : TableObject (A × B)
  unfolding encode_pair decode_pair
  pair_object = record { encode = encode_pair; decode = decode_pair }

unfoldable pub roaring_object : ⦃r : RoaringCrate⦄ → TableObject r.Treemap
roaring_object ⦃r⦄ = record {
  encode = λ m. ok (r.serialize m);
  decode = λ b. map_err roaring (r.deserialize_from b);
}

-- An integer of `w` bytes: `to_be_bytes` and `from_be_bytes`. `u32` is one of four.
unfoldable pub uint_type : ℕ → TableType ℕ
uint_type w = record {
  object = record {
    encode = λ n. ok (be_bytes w n);
    decode = λ b. if length b == w then ok (be_value b) else err (invalid_length w (length b));
  };
  size_of = w;
  align_of = w;
}
