-- ===== src/Crates/Stand/Rlp.antt =====
-- A simple form of RLP that stands in for fastrlp: long lengths take eight bytes, and every string
-- has a header.
use erigon_db.Prelude.{
  ℕ, ◌+◌, ◌-◌, ◌^◌, ◌≤◌, ◌<◌, ◌≡◌, refl, ap, ◌∙◌, Bool, true, false, List, [], ◌∷◌, ◌++◌, length,
  take, drop, leb, ltb, if◌then◌else◌, le→leb, arith, inl, inr, Bool-cases, length-append,
  take-append, drop-append, append_assoc,
}
use erigon_db.Prelude.Digits.{
  be_bytes, be_value, strip_zeros, be_value-be_bytes, be_value-strip_zeros, length-strip_zeros,
  length-be_bytes,
}
use erigon_db.Outcome.{DecodeError, input_too_short, unexpected_list, Outcome, ok, err, ◌>>=◌}
use erigon_db.Crates.Rlp.{RlpItem, IsRlp, Header, RlpCrate}

abbrev pub head_bytes : Header → List ℕ
head_bytes h =
    if leb h.payload_length 55
    then ((if h.list then 0xc0 else 0x80) + h.payload_length) ∷ []
    else (if h.list then 0xff else 0xbf) ∷ be_bytes 8 h.payload_length

abbrev pub checked : Bool → ℕ → List ℕ → Outcome DecodeError (Header × List ℕ)
checked list n bs =
    if leb n (length bs)
    then ok (record { list = list; payload_length = n }, bs)
    else err input_too_short

abbrev pub read_head : List ℕ → Outcome DecodeError (Header × List ℕ)
read_head [] = err input_too_short
read_head (b ∷ bs) =
    if ltb b 0x80
    then checked false 1 (b ∷ bs)
    else if ltb b 0xb8
    then checked false (b - 0x80) bs
    else if ltb b 0xc0
    then checked false (be_value (take 8 bs)) (drop 8 bs)
    else if ltb b 0xf8
    then checked true (b - 0xc0) bs
    else checked true (be_value (take 8 bs)) (drop 8 bs)

abbrev pub head_length : ℕ → ℕ
head_length n = if leb n 55 then 1 else 9

pub length-head_bytes : (h : Header) → length (head_bytes h) ≡ head_length h.payload_length
length-head_bytes h = ground (arith, length-be_bytes 8 h.payload_length)

long_trip :
    (list : Bool) (n : ℕ) (rest : List ℕ)
    → n ≤ length rest
    → n < 2 ^ 64
    → checked list (be_value (take 8 (be_bytes 8 n ++ rest))) (drop 8 (be_bytes 8 n ++ rest))
      ≡ ok (record { list = list; payload_length = n }, rest)
long_trip list n rest h small = rw (
  take-append (be_bytes 8 n) rest 8 (length-be_bytes 8 n),
  drop-append (be_bytes 8 n) rest 8 (length-be_bytes 8 n),
  be_value-be_bytes 8 n (omega arith),
  le→leb _ _ h,
)

pub read_head-head_bytes :
    (list : Bool) (n : ℕ) (rest : List ℕ)
    → n ≤ length rest
    → n < 2 ^ 64
    → let h : Header = record { list = list; payload_length = n } in
      read_head (head_bytes h ++ rest) ≡ ok (h, rest)
read_head-head_bytes true n rest h small = elim (Bool-cases (leb n 55)) [
  | inl short ↦ ground arith
  | inr long ↦ rw long (long_trip true n rest h small)
]
read_head-head_bytes false n rest h small = elim (Bool-cases (leb n 55)) [
  | inl short ↦ ground arith
  | inr long ↦ rw long (long_trip false n rest h small)
]

abbrev pub string_bytes : List ℕ → List ℕ
string_bytes s = head_bytes (record { list = false; payload_length = length s }) ++ s

abbrev pub read_string : List ℕ → Outcome DecodeError (List ℕ × List ℕ)
read_string bs = do
  (h, rest) ← read_head bs
  if h.list
      then err unexpected_list
      else ok (take h.payload_length rest, drop h.payload_length rest)

abbrev pub string_item : {A : Type 0} → (A → List ℕ) → (List ℕ → A) → RlpItem A
string_item enc dec = record {
  encode = λ a. string_bytes (enc a);
  rlp_length = λ a. length (string_bytes (enc a));
  decode = λ bs. (do (s, rest) ← read_string bs; ok (dec s, rest));
}

pub string_trip :
    (s rest : List ℕ) → length s < 2 ^ 64 → read_string (string_bytes s ++ rest) ≡ ok (s, rest)
string_trip s rest h = rw (
  append_assoc (head_bytes (record { list = false; payload_length = length s })) s rest,
  read_head-head_bytes false (length s) (s ++ rest) (rw length-append (omega arith)) h,
  take-append s rest (length s) refl,
  drop-append s rest (length s) refl,
)

pub string_item-IsRlp :
    {A : Type 0} {V : A → Type 0} (enc : A → List ℕ) (dec : List ℕ → A)
    → ((a : A) → V a → (length (enc a) < 2 ^ 64) × (dec (enc a) ≡ a))
    → IsRlp (string_item enc dec) V
string_item-IsRlp enc dec h = record {
  decode-encode = λ a rest v. rw (string_trip (enc a) rest (h a v).0, (h a v).1);
  rlp_length_lem = λ a v. refl;
}

abbrev pub number_item : ℕ → RlpItem ℕ
number_item w = string_item (λ n. strip_zeros (be_bytes w n)) be_value

abbrev pub bytes_item : RlpItem (List ℕ)
bytes_item = string_item (λ s. s) (λ s. s)

pub number_item-IsRlp : (w : ℕ) → w ≤ 32 → IsRlp (number_item w) (λ n. n < 256 ^ w)
number_item-IsRlp w h =
    string_item-IsRlp (λ n. strip_zeros (be_bytes w n)) be_value
      (λ n v. (
        omega (arith, length-strip_zeros (be_bytes w n), length-be_bytes w n),
        be_value-strip_zeros (be_bytes w n) ∙ be_value-be_bytes w n v,
      ))

pub hash_item-IsRlp : (w : ℕ) → w ≤ 256 → IsRlp bytes_item (λ s. length s ≡ w)
hash_item-IsRlp w h = string_item-IsRlp (λ s. s) (λ s. s) (λ s v. (omega arith, refl))

length-string_bytes : (s : List ℕ) → length (string_bytes s) ≡ head_length (length s) + length s
length-string_bytes s =
    length-append (head_bytes (record { list = false; payload_length = length s })) s
    ∙ ap (λ n. n + length s)
        (length-head_bytes (record { list = false; payload_length = length s }))

pub length-hash_item :
    (w : ℕ) (s : List ℕ) → length s ≡ w → length (string_bytes s) ≡ head_length w + w
length-hash_item w s h = rw (length-string_bytes s, h)

pub refuses_list :
    (w n : ℕ) (bs : List ℕ)
    → n ≤ length bs
    → n < 2 ^ 64
    → (number_item w).decode (head_bytes (record { list = true; payload_length = n }) ++ bs)
      ≡ err unexpected_list
refuses_list w n bs h small = rw (read_head-head_bytes true n bs h small)

pub head_first :
    (h : Header) → (b : ℕ) × (bs : List ℕ) × (head_bytes h ≡ b ∷ bs) × (leb 0xc0 b ≡ h.list)
head_first h = elim (Bool-cases (leb h.payload_length 55)) [
  | inl short ↦ ((if h.list then 0xc0 else 0x80) + h.payload_length, [], rw short, ground arith)
  | inr long ↦ ((if h.list then 0xff else 0xbf), be_bytes 8 h.payload_length, rw long, ground arith)
]

pub length-number : (w n : ℕ) → w ≤ 55 → length ((number_item w).encode n) ≤ 1 + w
length-number w n h = omega (
  arith,
  length-string_bytes (strip_zeros (be_bytes w n)),
  short,
  length-strip_zeros (be_bytes w n),
  length-be_bytes w n,
)
  where
    short : head_length (length (strip_zeros (be_bytes w n))) ≤ 1
    short =
        rw
          (le→leb (length (strip_zeros (be_bytes w n))) 55
            (omega (arith, length-strip_zeros (be_bytes w n), length-be_bytes w n)))
          (omega arith)

pub number_pos : (w n : ℕ) → 0 < length ((number_item w).encode n)
number_pos w n = ground (arith, length-string_bytes (strip_zeros (be_bytes w n)))

instance abbrev pub simple_rlp : RlpCrate
simple_rlp = record {
  empty_string_code = 0x80;
  encode_header = head_bytes;
  decode_header = read_head;
  length_of_length = head_length;
  u8 = number_item 1;
  u32 = number_item 4;
  u64 = number_item 8;
  u256 = number_item 32;
  h256 = bytes_item;
  address = bytes_item;
  bloom = bytes_item;
  h64 = bytes_item;
  bytes = bytes_item;
  empty_string_code_lem = refl;
  encode_header_short = λ n h. rw (le→leb n 55 h);
  encode_header_first = head_first;
  length-encode_header = length-head_bytes;
  decode-encode_header =
      λ h rest room small kind. read_head-head_bytes h.list h.payload_length rest room small;
  u8-IsRlp = number_item-IsRlp 1 (omega arith);
  u32-IsRlp = number_item-IsRlp 4 (omega arith);
  u64-IsRlp = number_item-IsRlp 8 (omega arith);
  u256-IsRlp = number_item-IsRlp 32 (omega arith);
  h256-IsRlp = hash_item-IsRlp 32 (omega arith);
  address-IsRlp = hash_item-IsRlp 20 (omega arith);
  bloom-IsRlp = hash_item-IsRlp 256 (omega arith);
  h64-IsRlp = hash_item-IsRlp 8 (omega arith);
  bytes-IsRlp = string_item-IsRlp (λ s. s) (λ s. s) (λ s v. (omega arith, refl));
  length-u256_pos = number_pos 32;
  length-u256 = λ n h. length-number 32 n (omega arith);
  u256_refuses_list = refuses_list 32;
  length-h256 = length-hash_item 32;
  length-address = length-hash_item 20;
  length-bloom = λ s h. length-hash_item 256 s h ∙ omega arith;
  length-h64 = length-hash_item 8;
}
