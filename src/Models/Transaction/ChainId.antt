-- ===== src/Models/Transaction/ChainId.antt =====
-- `VPackChainId`: the chain id that the `v` of a legacy transaction packs.
use erigon_db.Prelude.{
  ℕ, ◌+◌, ◌-◌, ◌*◌, ◌/◌, ◌<◌, ◌≡◌, ap, ◌∙◌, ◌||◌, Option, none, some, arith, ltb, ◌==◌,
  if◌then◌else◌, lt→ltb, le→leb,
}
use erigon_db.Outcome.{Result, ok, panic, ◌>>=◌, or_panic}
use erigon_db.Crates.{UintCrate, u256_mod}

module _ ⦃u : UintCrate⦄ where
  -- `checked_sub(35).expect(..) / 2`
  unfoldable pub unpack : ℕ → Result (Option ℕ)
  unpack v = do d ← or_panic (u.checked_sub v 35); c ← or_panic (u.div d 2); ok (some c)

  unfoldable pub derive_chain_id : ℕ → Result (Option ℕ)
  unfolding unpack
  derive_chain_id v = if v == 27 || v == 28 then ok none else unpack v

  -- `self.0 - (chain_id * 2 + 35)`
  unfoldable pub parity : ℕ → Option ℕ → Result ℕ
  parity v none = ok v
  parity v (some chain_id) = do
    twice ← or_panic (u.mul chain_id 2)
    base ← or_panic (u.add twice 35)
    or_panic (u.sub v base)

  unfoldable pub derive_v : ℕ → Result ℕ
  derive_v v = do chain_id ← derive_chain_id v; parity v chain_id

  -- 27 and 28 pack no chain id, from 35 on it is half of what is above 35, and any other `v` is a
  -- panic.
  pub derive_chain_id_lem :
      (v : ℕ)
      → derive_chain_id v ≡ (
          if v == 27 || v == 28
          then ok none
          else if ltb v 35
          then panic
          else ok (some ((v - 35) / 2)))
  unfolding derive_chain_id
  derive_chain_id_lem v = ground (arith, u.checked_sub_lem v 35, u.div_lem (v - 35) 2)

  parity_packed :
      (c y : ℕ) → y < 2 → c * 2 + 35 + y < u256_mod → parity (c * 2 + 35 + y) (some c) ≡ ok y
  unfolding parity
  parity_packed c y hy h =
      rw
        (
          u.mul_lem c 2,
          lt→ltb (c * 2) u256_mod (omega arith),
          u.add_lem (c * 2) 35,
          lt→ltb (c * 2 + 35) u256_mod (omega arith),
          u.sub_lem (c * 2 + 35 + y) (c * 2 + 35),
          le→leb (c * 2 + 35) (c * 2 + 35 + y) (omega arith),
        )
        (ap ok (omega arith))

  -- `v` packs the chain id `c` and the parity `y` of a signature as EIP 155 says: both come back.
  pub derive_packed :
      (c y : ℕ)
      → y < 2
      → c * 2 + 35 + y < u256_mod
      → (derive_chain_id (c * 2 + 35 + y) ≡ ok (some c)) × (derive_v (c * 2 + 35 + y) ≡ ok y)
  unfolding derive_v
  derive_packed c y hy h = (unpacked, rw unpacked (parity_packed c y hy h))
    where
      unpacked : derive_chain_id (c * 2 + 35 + y) ≡ ok (some c)
      unpacked = derive_chain_id_lem (c * 2 + 35 + y) ∙ ground arith

  -- Without a chain id `derive_v` returns `v` itself, 27 or 28.
  pub derive_v_unpacked : (v : ℕ) → derive_chain_id v ≡ ok none → derive_v v ≡ ok v
  unfolding derive_v parity
  derive_v_unpacked v e = rw e
