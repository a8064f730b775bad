-- ===== src/Outcome.antt =====
-- Fallible code: a value, an error of type `E`, or a panic.
use erigon_db.Prelude.{ℕ, ◌+◌, ◌-◌, ◌^◌, String, Bool, Option, none, some, leb, ltb, if◌then◌else◌}

-- `fastrlp::DecodeError`: the cases that the code names, and all others by a number.
pub data DecodeError : Type 0 where
  input_too_short unexpected_length unexpected_string unexpected_list : DecodeError
  custom : String → DecodeError
  other : ℕ → DecodeError

-- What an `eyre::Report` of this library holds: the errors of kv/tables.rs with their bound and
-- `got`, those of other crates, and texts (`eyre!`, `bail!`).
pub data Error : Type 0 where
  invalid_length too_short too_long : ℕ → ℕ → Error
  capacity : Error
  rlp : DecodeError → Error
  cbor roaring mdbx : ℕ → Error
  message : String → Error

pub data Outcome {ℓ} (E : Type 0) (A : Type ℓ) : Type ℓ where
  ok : A → Outcome E A
  err : E → Outcome E A
  panic : Outcome E A

-- `eyre::Result`
abbrev pub Result {ℓ} : Type ℓ → Type ℓ
Result A = Outcome Error A

infixl 5 ◌>>=◌ ◌>>◌
abbrev pub ◌>>=◌ {ℓ κ} :
    {E : Type 0} {A : Type ℓ} {B : Type κ} → Outcome E A → (A → Outcome E B) → Outcome E B
ok a >>= f = f a
err e >>= f = err e
panic >>= f = panic

abbrev pub ◌>>◌ {ℓ} : {E : Type 0} {B : Type ℓ} → Outcome E (Unit {0}) → Outcome E B → Outcome E B
m >> k = m >>= λ _. k

-- `Result::map` and `Result::map_err`.
abbrev pub map_ok {ℓ κ} :
    {E : Type 0} {A : Type ℓ} {B : Type κ} → (A → B) → Outcome E A → Outcome E B
map_ok f (ok a) = ok (f a)
map_ok f (err e) = err e
map_ok f panic = panic

abbrev pub map_err {ℓ} : {E F : Type 0} {A : Type ℓ} → (E → F) → Outcome E A → Outcome F A
map_err f (ok a) = ok a
map_err f (err e) = err (f e)
map_err f panic = panic

-- `Result::unwrap` and `expect`.
abbrev pub unwrap {ℓ} : {E F : Type 0} {A : Type ℓ} → Outcome E A → Outcome F A
unwrap (ok a) = ok a
unwrap (err e) = panic
unwrap panic = panic

-- `Option::ok_or`.
abbrev pub ok_or {ℓ} : {E : Type 0} {A : Type ℓ} → Option A → E → Outcome E A
ok_or none e = err e
ok_or (some a) e = ok a

-- `.map(f).transpose()` on an `Option` with a fallible `f`.
abbrev pub traverse {ℓ κ} :
    {E : Type 0} {A : Type ℓ} {B : Type κ} → (A → Outcome E B) → Option A → Outcome E (Option B)
traverse f none = ok none
traverse f (some a) = map_ok some (f a)

-- A call that panics on `none`.
abbrev pub or_panic {ℓ} : {E : Type 0} {A : Type ℓ} → Option A → Outcome E A
or_panic none = panic
or_panic (some a) = ok a

-- The build: in a debug build an arithmetic overflow is a panic, in a release build it wraps.
pub record Profile : Type 0 where
  pub overflow_checks : Bool

abbrev pub overflow {ℓ} : ⦃p : Profile⦄ {E : Type 0} {A : Type ℓ} → A → Outcome E A
overflow ⦃p⦄ wrapped = if p.overflow_checks then panic else ok wrapped

-- `a - b` on usize and `a + b` on u64.
unfoldable pub sub_usize : ⦃p : Profile⦄ {E : Type 0} → ℕ → ℕ → Outcome E ℕ
sub_usize a b = if leb b a then ok (a - b) else overflow (a + 2 ^ 64 - b)

unfoldable pub add_u64 : ⦃p : Profile⦄ {E : Type 0} → ℕ → ℕ → Outcome E ℕ
add_u64 a b = if ltb (a + b) (2 ^ 64) then ok (a + b) else overflow (a + b - 2 ^ 64)
