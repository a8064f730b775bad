-- ===== src/Crates/Rlp.antt =====
-- `fastrlp`: the recursive length prefix encoding.
use erigon_db.Prelude.{
  ◌⊎◌, ◌≢◌, true, ℕ, ◌+◌, ◌^◌, ◌≤◌, ◌<◌, ◌≡◌, Bool, false, List, [], ◌∷◌, ◌++◌, length, leb,
}
use erigon_db.Outcome.{DecodeError, unexpected_list, Outcome, ok, err}

-- `Encodable` and `Decodable` of a type. A decoder takes its item from the front of the slice.
pub record RlpItem (A : Type 0) : Type 0 where
  pub encode : A → List ℕ
  pub rlp_length : A → ℕ
  pub decode : List ℕ → Outcome DecodeError (A × List ℕ)

-- An item decodes from its encoding, whatever follows, and `length` tells its size.
pub record IsRlp {A : Type 0} (item : RlpItem A) (Valid : A → Type 0) : Type 0 where
  pub decode-encode :
      (a : A) (rest : List ℕ) → Valid a → item.decode (item.encode a ++ rest) ≡ ok (a, rest)
  pub rlp_length_lem : (a : A) → Valid a → item.rlp_length a ≡ length (item.encode a)

-- `fastrlp::Header`
pub record Header : Type 0 where
  pub list : Bool
  pub payload_length : ℕ

pub record RlpCrate : Type 0 where
  pub empty_string_code : ℕ
  pub encode_header : Header → List ℕ
  pub decode_header : List ℕ → Outcome DecodeError (Header × List ℕ)
  pub length_of_length : ℕ → ℕ
  -- u8, u32, u64, U256, H256, Address, Bloom, H64 and Bytes.
  pub u8 : RlpItem ℕ
  pub u32 : RlpItem ℕ
  pub u64 : RlpItem ℕ
  pub u256 : RlpItem ℕ
  pub h256 : RlpItem (List ℕ)
  pub address : RlpItem (List ℕ)
  pub bloom : RlpItem (List ℕ)
  pub h64 : RlpItem (List ℕ)
  pub bytes : RlpItem (List ℕ)
  pub empty_string_code_lem : empty_string_code ≡ 0x80
  -- The header of a string of up to 55 bytes is a single byte.
  pub encode_header_short :
      (n : ℕ)
      → n ≤ 55
      → encode_header (record { list = false; payload_length = n }) ≡ (0x80 + n) ∷ []
  -- The first byte tells lists from strings.
  pub encode_header_first :
      (h : Header) → (b : ℕ) × (bs : List ℕ) × (encode_header h ≡ b ∷ bs) × (leb 0xc0 b ≡ h.list)
  pub length-encode_header :
      (h : Header) → length (encode_header h) ≡ length_of_length h.payload_length
  -- A string of one byte may be encoded as that byte, without a header.
  pub decode-encode_header :
      (h : Header) (rest : List ℕ)
      → h.payload_length ≤ length rest
      → h.payload_length < 2 ^ 64
      → (h.list ≡ true) ⊎ (h.payload_length ≢ 1)
      → decode_header (encode_header h ++ rest) ≡ ok (h, rest)
  pub u8-IsRlp : IsRlp u8 (λ n. n < 256)
  pub u32-IsRlp : IsRlp u32 (λ n. n < 256 ^ 4)
  pub u64-IsRlp : IsRlp u64 (λ n. n < 256 ^ 8)
  pub u256-IsRlp : IsRlp u256 (λ n. n < 256 ^ 32)
  pub h256-IsRlp : IsRlp h256 (λ h. length h ≡ 32)
  pub address-IsRlp : IsRlp address (λ h. length h ≡ 20)
  pub bloom-IsRlp : IsRlp bloom (λ h. length h ≡ 256)
  pub h64-IsRlp : IsRlp h64 (λ h. length h ≡ 8)
  pub bytes-IsRlp : IsRlp bytes (λ b. length b < 2 ^ 32)
  pub length-u256_pos : (n : ℕ) → 0 < length (u256.encode n)
  pub length-u256 : (n : ℕ) → n < 256 ^ 32 → length (u256.encode n) ≤ 33
  -- A number is a string, never a list.
  pub u256_refuses_list :
      (n : ℕ) (bs : List ℕ)
      → n ≤ length bs
      → n < 2 ^ 64
      → u256.decode (encode_header (record { list = true; payload_length = n }) ++ bs)
        ≡ err unexpected_list
  -- A fixed hash is a string of its bytes.
  pub length-h256 : (h : List ℕ) → length h ≡ 32 → length (h256.encode h) ≡ 33
  pub length-address : (h : List ℕ) → length h ≡ 20 → length (address.encode h) ≡ 21
  pub length-bloom :
      (h : List ℕ) → length h ≡ 256 → length (bloom.encode h) ≡ 256 + length_of_length 256
  pub length-h64 : (h : List ℕ) → length h ≡ 8 → length (h64.encode h) ≡ 9
