-- ===== src/Crates/Stand/Strings.antt =====
-- Strings of the simple RLP.
use erigon_db.Prelude.{
  ℕ, ◌+◌, ◌^◌, ◌<◌, ◌≤◌, ◌≡◌, ◌≢◌, ◌⊎◌, inl, inr, refl, List, ◌∷◌, ◌++◌, length, leb, arith,
  Bool-cases,
}
use erigon_db.Prelude.Digits.{be_bytes, be_value, strip_zeros, length-strip_zeros, length-be_bytes}
use erigon_db.Crates.Strings.{Handles, takes, IsString, StringLaws}
use erigon_db.Crates.Stand.Rlp.{simple_rlp, string_bytes, string_item, string_trip, number_item}

pub string_bytes_header :
    (s : List ℕ) → (length s ≡ 0) ⊎ (length s ≡ 20) → string_bytes s ≡ (0x80 + length s) ∷ s
string_bytes_header s (inl h) = rw h refl
string_bytes_header s (inr h) = rw h refl

pub string_bytes_first :
    (s : List ℕ)
    → length s ≢ 0
    → length s ≢ 20
    → (b : ℕ) × (bs : List ℕ) × (string_bytes s ≡ b ∷ bs) × (b ≢ 0x80) × (b ≢ 0x94)
string_bytes_first s n1 n2 = elim (Bool-cases (leb (length s) 55)) [
  | inl short ↦ (0x80 + length s, s, rw short refl, λ e. n1 (omega arith), λ e. n2 (omega arith))
  | inr long ↦ (0xbf, be_bytes 8 (length s) ++ s, rw long refl, λ e. omega arith, λ e. omega arith)
]

pub string_item-Handles :
    {A : Type 0} (enc : A → List ℕ) (dec : List ℕ → A) (s : List ℕ)
    → length s < 2 ^ 32
    → Handles (string_item enc dec) (string_bytes s)
string_item-Handles enc dec s h = takes (dec s) (λ more. rw (string_trip s more (omega arith)) refl)

pub number-IsString : (w n : ℕ) → w ≤ 32 → IsString string_bytes ((number_item w).encode n)
number-IsString w n h = (
  strip_zeros (be_bytes w n),
  omega (arith, length-strip_zeros (be_bytes w n), length-be_bytes w n),
  refl,
)

instance abbrev pub strings : StringLaws
strings = record {
  string = string_bytes;
  string_header = string_bytes_header;
  string_first = string_bytes_first;
  u64-string = λ n v. number-IsString 8 n (omega arith);
  u256-string = λ n v. number-IsString 32 n (omega arith);
  bytes-string = λ s v. (s, v, refl);
  u64-Handles = λ s h. string_item-Handles _ be_value s h;
  u256-Handles = λ s h. string_item-Handles _ be_value s h;
  bytes-Handles = λ s h. string_item-Handles (λ x. x) (λ x. x) s h;
}
