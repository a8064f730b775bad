-- ===== src/Db/Spec/HeaderKeys.antt =====
-- Header keys and their encodings are equal together.
use erigon_db.Prelude.{
  ℕ, ◌≡◌, refl, sym, ◌∙◌, ◌⊎◌, inl, inr, Bool, true, false, List, ◌==◌, ==_self, ==_iff, bytes_eq,
  bytes_eq_self, bytes_eq→eq, Bool-cases, if◌then◌else◌,
}
use erigon_db.Outcome.{ok}
use erigon_db.Crates.{FixedHashCrate, ArrayVecCrate}
use erigon_db.Models.Keys.{HeaderKey, header_key}
use erigon_db.Models.Keys.RoundTrip.{header_key-Fits}
use erigon_db.Db.Spec.{IsHeaderKey, same_key}

same_key-eq : (k' k : HeaderKey) → same_key k' k ≡ true → k' ≡ k
same_key-eq (n', h') (n, h) same = elim (Bool-cases (n' == n)) [
  | inl e ↦
      let p : n' ≡ n = (==_iff n' n).0 e in
      let q : h' ≡ h = bytes_eq→eq h' h (rw e at same) in rw (p, q) refl
  | inr e ↦ absurd (refute (rw e at same))
]
  where
    refute : ◌≡◌ {A = Bool} false true → ⊥
    refute e = cc

-- The encodings of two keys are equal just if the keys are.
pub pick_key :
    ⦃f : FixedHashCrate⦄ ⦃v : ArrayVecCrate⦄ {A : Type 0} (k' k : HeaderKey) (bs' bs : List ℕ)
    → IsHeaderKey k'
    → IsHeaderKey k
    → header_key.encode k' ≡ ok bs'
    → header_key.encode k ≡ ok bs
    → (x y : A) → (if bytes_eq bs' bs then x else y) ≡ (if same_key k' k then x else y)
pick_key k' k bs' bs valid' valid e' e x y = elim (Bool-cases (bytes_eq bs' bs)) [
  | inl same ↦
      let p : k' ≡ k = decoded (bytes_eq→eq bs' bs same) in
      rw (same, p, ==_self k.0, bytes_eq_self k.1) refl
  | inr other ↦ rw (other, different other (Bool-cases (same_key k' k))) refl
]
  where
    decoded : bs' ≡ bs → k' ≡ k
    decoded p =
        let (ks', e1', d', l') = header_key-Fits.trip k' valid' in
        let (ks, e1, d, l) = header_key-Fits.trip k valid in cc

    differ : bs' ≡ bs → bytes_eq bs' bs ≡ false → ⊥
    differ p other =
        let z : ◌≡◌ {A = Bool} true false = sym (bytes_eq_self bs) ∙ (rw p at other) in cc

    different :
        bytes_eq bs' bs ≡ false
        → (same_key k' k ≡ true) ⊎ (same_key k' k ≡ false)
        → same_key k' k ≡ false
    different other (inr h) = h
    different other (inl h) =
        let q : k' ≡ k = same_key-eq k' k h in let p : bs' ≡ bs = cc in absurd (differ p other)
