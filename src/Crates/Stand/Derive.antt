-- ===== src/Crates/Stand/Derive.antt =====
-- Codecs of structs and vectors over the simple RLP.
use erigon_db.Prelude.{
  ℕ, suc, zero, ◌+◌, ◌^◌, ◌≤◌, ◌<◌, ◌≡◌, refl, true, List, [], ◌∷◌, ◌++◌, length, take, drop, arith,
  take-append, drop-append, append_assoc, length-append, if◌then◌else◌,
}
use erigon_db.Outcome.{DecodeError, input_too_short, unexpected_string, Outcome, ok, err, ◌>>=◌}
use erigon_db.Crates.Rlp.{RlpItem}
use erigon_db.Crates.Derive.{Derives, Reads, done, more, encode_all, length_all, VecCodec, list_of}
use erigon_db.Crates.Stand.Rlp.{
  simple_rlp, head_bytes, head_length, read_head, read_head-head_bytes,
}

abbrev pub struct_item : {A : Type 0} → RlpItem A → RlpItem A
struct_item fields = record {
  encode = λ a.
      head_bytes (record { list = true; payload_length = fields.rlp_length a }) ++ fields.encode a;
  rlp_length = λ a. head_length (fields.rlp_length a) + fields.rlp_length a;
  decode = λ bs. (do
    (h, rest) ← read_head bs
    if h.list then fields.decode rest else err unexpected_string);
}

pub list_trip :
    (payload rest : List ℕ)
    → length payload < 2 ^ 64
    → read_head (list_of payload ++ rest)
      ≡ ok (record { list = true; payload_length = length payload }, payload ++ rest)
list_trip payload rest small =
    rw
      (append_assoc (head_bytes (record { list = true; payload_length = length payload })) payload
        rest)
      (read_head-head_bytes true (length payload) (payload ++ rest) (rw length-append (omega arith))
        small)

pub struct_item-Derives : {A : Type 0} (fields : RlpItem A) → Derives (struct_item fields) fields
struct_item-Derives fields = record {
  encode_lem = λ a. refl;
  rlp_length_lem = λ a. refl;
  decode_lem = λ payload rest a small h. rw (list_trip payload rest small) (h rest);
  decode_err = λ payload rest e small h. rw (list_trip payload rest small) (h rest);
}

abbrev pub read_items : {A : Type 0} → RlpItem A → ℕ → List ℕ → Outcome DecodeError (List A)
read_items item fuel [] = ok []
read_items item zero (b ∷ bs) = err input_too_short
read_items item (suc fuel) (b ∷ bs) = do
  (x, rest) ← item.decode (b ∷ bs)
  xs ← read_items item fuel rest
  ok (x ∷ xs)

pub read_items-Reads :
    {A : Type 0} (item : RlpItem A) (fuel : ℕ) (payload : List ℕ) (xs : List A)
    → length payload ≤ fuel
    → Reads item payload xs
    → read_items item fuel payload ≡ ok xs
read_items-Reads item fuel _ _ h done = refl
read_items-Reads item zero _ _ h (more b bs rest x xs e shrinks tail) = absurd (omega arith)
read_items-Reads item (suc fuel) _ _ h (more b bs rest x xs e shrinks tail) =
    rw (e, read_items-Reads item fuel rest xs (omega arith) tail) refl

abbrev pub vec_item : {A : Type 0} → RlpItem A → RlpItem (List A)
vec_item item = record {
  encode = λ xs.
      head_bytes (record { list = true; payload_length = length_all item xs })
      ++ encode_all item xs;
  rlp_length = λ xs. head_length (length_all item xs) + length_all item xs;
  decode = λ bs. (do
    (h, rest) ← read_head bs
    xs ← read_items item h.payload_length (take h.payload_length rest)
    ok (xs, drop h.payload_length rest));
}

instance abbrev pub vectors : VecCodec
vectors = record {
  vec = vec_item;
  encode_lem = λ item xs. refl;
  rlp_length_lem = λ item xs. refl;
  decode_lem = λ item payload rest xs small h.
      rw
        (
          list_trip payload rest small,
          take-append payload rest (length payload) refl,
          drop-append payload rest (length payload) refl,
          read_items-Reads item (length payload) payload xs (omega arith) h,
        )
        refl;
}
