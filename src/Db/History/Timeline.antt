-- ===== src/Db/History/Timeline.antt =====
-- The past of an account or slot: a value at first, and the blocks that changed it with the values
-- that they left.
use erigon_db.Prelude.{
  ℕ, ◌<◌, ◌≡◌, refl, sym, ap, inl, inr, Option, none, some, Bool, true, false, List, [], ◌∷◌, arith,
  All, ltb, leb, ltb-eq-false, lt→ltb, Bool-cases, ◌||◌, if◌then◌else◌,
}
use erigon_db.Crates.Roaring.{IsAscending}
use erigon_db.Models.Keys.{BlockNumber}
use erigon_db.Utils.Bitmap.{Elem, IsLeastGte}

pub record Timeline (A : Type 0) : Type 0 where
  pub initial : A
  pub changes : List (BlockNumber × A)

Elem-above : (k n : ℕ) (xs : List ℕ) → All (λ y. n < y) xs → Elem k xs → n < k
Elem-above k n [] h e = elim e [ ]
Elem-above k n (x ∷ xs) h (inl e) = omega (arith, h.0)
Elem-above k n (x ∷ xs) h (inr e) = Elem-above k n xs h.1 e

module _ {A : Type 0} where
  abbrev pub blocks_of : List (BlockNumber × A) → List BlockNumber
  blocks_of [] = []
  blocks_of ((n, w) ∷ ws) = n ∷ blocks_of ws

  -- The value before block `b`, which the changes of the earlier blocks left.
  abbrev pub before : A → List (BlockNumber × A) → BlockNumber → A
  before v [] b = v
  before v ((n, w) ∷ ws) b = if ltb n b then before w ws b else v

  abbrev pub last_value : A → List (BlockNumber × A) → A
  last_value v [] = v
  last_value v ((n, w) ∷ ws) = last_value w ws

  abbrev pub changes_from : BlockNumber → List (BlockNumber × A) → Bool
  changes_from b [] = false
  changes_from b ((n, w) ∷ ws) = leb b n || changes_from b ws

  -- The value before a block, if a change from that block on has put it into the history.
  abbrev pub past : Timeline A → BlockNumber → Option A
  past t b = if changes_from b t.changes then some (before t.initial t.changes b) else none

  -- Between a block and the next change nothing changes.
  pub before-least :
      (v : A) (ws : List (BlockNumber × A)) (b n : BlockNumber)
      → IsAscending (blocks_of ws)
      → IsLeastGte b (blocks_of ws) (some n)
      → (changes_from b ws ≡ true) × (before v ws n ≡ before v ws b)
  before-least v [] b n asc l = elim l.0 [ ]
  before-least v ((k, w) ∷ ws) b n asc (inl e, ge, least) = (
    ground (arith, e, ge),
    rw (ltb-eq-false k n (omega (arith, e)), ltb-eq-false k b (omega (arith, e, ge))) refl,
  )
  before-least v ((k, w) ∷ ws) b n asc (inr e, ge, least) =
      let above : k < n = Elem-above n k (blocks_of ws) asc.0 e in
      let low : k < b = ground (arith, least.0) in
      let (later, same) = before-least w ws b n asc.1 (e, ge, least.1) in
      (rw later (ground arith), rw (lt→ltb k n above, lt→ltb k b low) same)

  -- Behind the last change there is the last value.
  pub before-last :
      (v : A) (ws : List (BlockNumber × A)) (b : BlockNumber)
      → IsLeastGte b (blocks_of ws) none
      → (changes_from b ws ≡ false) × (before v ws b ≡ last_value v ws)
  before-last v [] b l = (refl, refl)
  before-last v ((k, w) ∷ ws) b l =
      let (later, same) = before-last w ws b l.1 in
      (rw later (ground (arith, l.0)), rw (lt→ltb k b l.0) same)

  pub before-no_change :
      (v : A) (ws : List (BlockNumber × A)) (b : BlockNumber)
      → changes_from b ws ≡ false
      → before v ws b ≡ last_value v ws
  before-no_change v [] b h = refl
  before-no_change v ((k, w) ∷ ws) b h =
      let low : k < b = ground (arith, h) in
      rw (lt→ltb k b low) (before-no_change w ws b (ground (arith, h)))

  -- The value before any block is in the past, or is the last one.
  pub in_past_or_last :
      (v : A) (ws : List (BlockNumber × A)) (b : BlockNumber)
      → (elim (if changes_from b ws then some (before v ws b) else none) [
        | none ↦ some (last_value v ws)
        | some x ↦ some x
      ])
        ≡ some (before v ws b)
  in_past_or_last v ws b = elim (Bool-cases (changes_from b ws)) [
    | inl later ↦ rw later refl
    | inr no_more ↦ rw no_more (ap some (sym (before-no_change v ws b no_more)))
  ]
