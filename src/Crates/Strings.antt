-- ===== src/Crates/Strings.antt =====
-- `fastrlp`: decoders on encodings that another type wrote.
use erigon_db.Prelude.{ℕ, ◌+◌, ◌^◌, ◌<◌, ◌≡◌, ◌≢◌, ◌⊎◌, refl, List, ◌∷◌, ◌++◌, length, append_assoc}
use erigon_db.Outcome.{DecodeError, ok, err}
use erigon_db.Crates.Rlp.{RlpItem, IsRlp, RlpCrate}
use erigon_db.Crates.Derive.{pair, convert, Derives, list_of}

-- The decoder refuses the bytes, whatever follows them.
pub record Fails {A : Type 0} (item : RlpItem A) (bs : List ℕ) : Type 0 where
  pub error : DecodeError
  pub fails : (more : List ℕ) → item.decode (bs ++ more) ≡ err error

-- The decoder refuses the bytes or takes just them, whatever follows.
pub data Handles {A : Type 0} (item : RlpItem A) (bs : List ℕ) : Type 0 where
  refuses : Fails item bs → Handles item bs
  takes : (a : A) → ((more : List ℕ) → item.decode (bs ++ more) ≡ ok (a, more)) → Handles item bs

abbrev pub IsString : (List ℕ → List ℕ) → List ℕ → Type 0
IsString string bs = (s : List ℕ) × (length s < 2 ^ 32) × (bs ≡ string s)

-- A string of RLP: numbers, hashes and bytes are written as one, and a decoder of one of these types
-- takes or refuses a string as a whole.
pub record StringLaws ⦃r : RlpCrate⦄ : Type 0 where
  pub string : List ℕ → List ℕ
  pub string_header :
      (s : List ℕ) → (length s ≡ 0) ⊎ (length s ≡ 20) → string s ≡ (0x80 + length s) ∷ s
  pub string_first :
      (s : List ℕ)
      → length s ≢ 0
      → length s ≢ 20
      → (b : ℕ) × (bs : List ℕ) × (string s ≡ b ∷ bs) × (b ≢ 0x80) × (b ≢ 0x94)
  pub u64-string : (n : ℕ) → n < 256 ^ 8 → IsString string (r.u64.encode n)
  pub u256-string : (n : ℕ) → n < 256 ^ 32 → IsString string (r.u256.encode n)
  pub bytes-string : (b : List ℕ) → length b < 2 ^ 32 → IsString string (r.bytes.encode b)
  pub u64-Handles : (s : List ℕ) → length s < 2 ^ 32 → Handles r.u64 (string s)
  pub u256-Handles : (s : List ℕ) → length s < 2 ^ 32 → Handles r.u256 (string s)
  pub bytes-Handles : (s : List ℕ) → length s < 2 ^ 32 → Handles r.bytes (string s)

module _ {A B : Type 0} {a : RlpItem A} where
  pub Fails-pair : (b : RlpItem B) (bs cs : List ℕ) → Fails a bs → Fails (pair a b) (bs ++ cs)
  Fails-pair b bs cs f = record {
    error = f.error;
    fails = λ more. rw (append_assoc bs cs more, f.fails (cs ++ more)) refl;
  }

  -- The second item fails behind bytes that the first handles.
  pub pair-Fails :
      {b : RlpItem B} (bs cs : List ℕ) → Handles a bs → Fails b cs → Fails (pair a b) (bs ++ cs)
  pair-Fails {b} bs cs (refuses failed) f = Fails-pair b bs cs failed
  pair-Fails bs cs (takes x h) f = record {
    error = f.error;
    fails = λ more. rw (append_assoc bs cs more, h (cs ++ more), f.fails more) refl;
  }

pub convert-Fails :
    {A B : Type 0} {a : RlpItem A} (make : A → B) (fields : B → A) (bs : List ℕ)
    → Fails a bs
    → Fails (convert make fields a) bs
convert-Fails make fields bs f = record { error = f.error; fails = λ more. rw (f.fails more) refl }

pub Fails-append :
    {A : Type 0} {item : RlpItem A} (bs cs : List ℕ) → Fails item bs → Fails item (bs ++ cs)
Fails-append bs cs f = record {
  error = f.error;
  fails = λ more. rw (append_assoc bs cs more) (f.fails (cs ++ more));
}

pub encode-Handles :
    {A : Type 0} {item : RlpItem A} {V : A → Type 0}
    → IsRlp item V
    → (a : A) → V a
    → Handles item (item.encode a)
encode-Handles h a v = takes a (λ more. h.decode-encode a more v)

pub string-Handles :
    {A : Type 0} {item : RlpItem A} {string : List ℕ → List ℕ}
    → ((s : List ℕ) → length s < 2 ^ 32 → Handles item (string s))
    → (bs : List ℕ) → IsString string bs
    → Handles item bs
string-Handles h bs (s, small, e) = rw e (h s small)

pub Derives-Fails :
    ⦃r : RlpCrate⦄ {A : Type 0} {item fields : RlpItem A}
    → Derives item fields
    → (payload : List ℕ) → length payload < 2 ^ 64
    → Fails fields payload
    → Fails item (list_of payload)
Derives-Fails d payload small f = record {
  error = f.error;
  fails = λ more. d.decode_err payload more f.error small f.fails;
}
