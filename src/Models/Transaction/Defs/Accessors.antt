-- ===== src/Models/Transaction/Defs/Accessors.antt =====
-- Which accessors have a value for which kind of transaction.
use erigon_db.Prelude.{◌≡◌, refl, Option, none, some, Bool, true, false, not}
use erigon_db.Models.Transaction.Defs.{
  Transaction, legacy, access_list, dynamic_fee, tx_type, gas_price, tip, fee_cap, accesses,
}

abbrev has_value {ℓ} : {A : Type ℓ} → Option A → Bool
has_value none = false
has_value (some a) = true

-- A transaction has a gas price or else a tip and a fee cap, and an access list exactly if it has a
-- type.
pub fee_fields :
    (t : Transaction)
    → (has_value (tip t) ≡ has_value (fee_cap t))
      × (has_value (gas_price t) ≡ not (has_value (tip t)))
      × (has_value (accesses t) ≡ has_value (tx_type t))
unfolding tip fee_cap gas_price accesses tx_type
fee_fields (legacy tx) = (refl, refl, refl)
fee_fields (access_list tx) = (refl, refl, refl)
fee_fields (dynamic_fee tx) = (refl, refl, refl)
