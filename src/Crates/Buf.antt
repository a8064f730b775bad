-- ===== src/Crates/Buf.antt =====
-- `bytes::Buf` on a `&[u8]`: reads advance the slice, and panic where it is too short.
use erigon_db.Prelude.{ℕ, ◌≤◌, ◌<◌, ◌≡◌, Option, none, some, List, [], ◌∷◌, length, drop}

pub record BufCrate : Type 0 where
  pub get_u8 : List ℕ → Option (ℕ × List ℕ)
  pub advance : ℕ → List ℕ → Option (List ℕ)
  pub get_u8-nil : get_u8 [] ≡ none
  pub get_u8-cons : (b : ℕ) (bs : List ℕ) → get_u8 (b ∷ bs) ≡ some (b, bs)
  pub advance_within : (n : ℕ) (bs : List ℕ) → n ≤ length bs → advance n bs ≡ some (drop n bs)
  pub advance_beyond : (n : ℕ) (bs : List ℕ) → length bs < n → advance n bs ≡ none
