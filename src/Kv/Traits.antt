-- ===== src/Kv/Traits.antt =====
-- kv/traits.rs: what a table key or value is. The bytes of `Encoded` come as a list.
use erigon_db.Prelude.{ℕ, ◌≤◌, ◌≡◌, ◌≢◌, List, length, All}
use erigon_db.Prelude.Digits.{IsByte}
use erigon_db.Outcome.{Result, ok, panic}

-- `TableEncode` and `TableDecode`, together `TableObject`. An encoder can panic.
pub record TableObject (A : Type 0) : Type 0 where
  pub encode : A → Result (List ℕ)
  pub decode : List ℕ → Result A

-- A type that a `tuple_key!` can hold: its codec, and its `size_of` and `align_of`.
pub record TableType (A : Type 0) : Type 0 where
  pub object : TableObject A
  pub open object use *
  pub size_of : ℕ
  pub align_of : ℕ

-- The value is encoded to some bytes, which decode to it.
abbrev pub RoundTrip : {A : Type 0} → TableObject A → A → (ℕ → Type 0) → Type 0
RoundTrip c a P = (bs : List ℕ) × (c.encode a ≡ ok bs) × (c.decode bs ≡ ok a) × P (length bs)

-- Valid values round trip in at most `size_of` bytes, and in exactly as many.
pub record Fits {A : Type 0} (t : TableType A) (Valid : A → Type 0) : Type 0 where
  pub trip : (a : A) → Valid a → RoundTrip t.object a (λ n. n ≤ t.size_of)

pub record Fills {A : Type 0} (t : TableType A) (Valid : A → Type 0) : Type 0 where
  pub trip : (a : A) → Valid a → RoundTrip t.object a (λ n. n ≡ t.size_of)

-- No input makes the decoder panic.
abbrev pub NeverPanics : {A : Type 0} → TableObject A → Type 0
NeverPanics c = (bs : List ℕ) → c.decode bs ≢ panic

-- Only the encoding of a value decodes to it.
abbrev pub IsCanonical : {A : Type 0} → TableObject A → Type 0
IsCanonical {A} c = (bs : List ℕ) (a : A) → All IsByte bs → c.decode bs ≡ ok a → c.encode a ≡ ok bs
