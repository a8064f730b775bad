-- ===== src/Crates/Cbor.antt =====
-- `serde_cbor` on a type with the codec that `derive(Serialize, Deserialize)` generates for it. An
-- error is its code.
use erigon_db.Prelude.{ℕ, ◌≡◌, List}
use erigon_db.Outcome.{Outcome, ok}

pub record CborItem (A : Type 0) : Type 0 where
  pub to_vec : A → Outcome ℕ (List ℕ)
  pub from_slice : List ℕ → Outcome ℕ A

-- A value that is written can be read.
pub record IsCbor {A : Type 0} (item : CborItem A) (Valid : A → Type 0) : Type 0 where
  pub from_slice-to_vec :
      (a : A) → Valid a → (bs : List ℕ) × (item.to_vec a ≡ ok bs) × (item.from_slice bs ≡ ok a)
