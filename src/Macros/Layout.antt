-- ===== src/Macros/Layout.antt =====
-- The padding of a struct.
use erigon_db.Prelude.{ℕ, ◌+◌, ◌-◌, ◌≤◌, ◌<◌, arith}
use native.Mathlib.Nat.{div-add-mod, mod-lt}
use erigon_db.Macros.{round_up}

-- Padding does not shrink a struct, and adds less than the alignment.
pub le-round_up : (n a : ℕ) → 0 < a → (n ≤ round_up n a) × (round_up n a < n + a)
unfolding round_up
le-round_up n a h = omega (arith, div-add-mod (n + (a - 1)) a, mod-lt (n + (a - 1)) h)
