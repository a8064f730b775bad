-- ===== src/Examples/Failure.antt =====
-- A store in memory that has room for two entries.
use text.Mathlib.Text.{◌==◌}
use erigon_db.Prelude.{
  ℕ, ◌≡◌, refl, some, List, [], ◌∷◌, String, true, ◌&&◌, length, ltb, bytes_eq, if◌then◌else◌,
  Bool-cases, inl, inr,
}
use erigon_db.Outcome.{Outcome, ok, err}
use erigon_db.Crates.Mdbx.{MdbxCrate, TxLaws}
use erigon_db.Crates.Stand.{uint, fixed_hash, array_vec}
use erigon_db.Crates.Stand.Store
use erigon_db.Crates.Stand.Store.{Log, Handle, lookup}
use erigon_db.Crates.Stand.Rlp.{simple_rlp}
use erigon_db.Crates.Stand.Derive.{vectors}
use erigon_db.Examples.Chain.{body_codec}
use erigon_db.Examples.Encodings.{debug}
use erigon_db.Kv.Tx
use erigon_db.Kv.Tx.{pure, ◌>>=◌}
use erigon_db.Db.Spec.{Command, set_head_header, set_head_block, set_number}
use erigon_db.Examples.Store.{slot_two}

abbrev put_small : Log → Handle → List ℕ → List ℕ → Outcome ℕ (Unit {0}) × Log
put_small tx db k v = if ltb (length tx) 2 then (ok tt, (db.0, (k, v)) ∷ tx) else (err 5, tx)

instance abbrev small : MdbxCrate
small = record Store.mdbx { put = put_small }

put_small_lem :
    (tx : Log) (db : Handle) (k v : List ℕ) (n : String) (k' : List ℕ)
    → (put_small tx db k v).0 ≡ ok tt
    → lookup (put_small tx db k v).1 n k'
      ≡ (if n == db.0 && bytes_eq k' k then some v else lookup tx n k')
put_small_lem tx db k v n k' done = elim (Bool-cases (ltb (length tx) 2)) [
  | inl room ↦ rw room refl
  | inr full ↦ absurd (refused (rw full at done))
]
  where
    refused : ◌≡◌ {A = Outcome ℕ (Unit {0})} (err 5) (ok tt) → ⊥
    refused e = cc

abbrev small_laws : TxLaws small
small_laws = record {
  value = lookup;
  can_open = λ tx n fl. true;
  name_of = λ db. db.0;
  has_dups = λ db. db.1;
  open_lem = λ tx n fl h. ((n, fl.dup_sort), refl, refl, refl);
  open_keeps = λ tx n n' fl k. refl;
  open_can_open = λ tx n n' fl fl' h. refl;
  get_lem = λ tx db k. refl;
  put_lem = λ tx db k v n' k' single done. put_small_lem tx db k v n' k' done;
  put_can_open = λ tx db k v n fl h. refl;
}

abbrev three_writes : List Command
three_writes = set_number slot_two 3 ∷ set_head_header slot_two ∷ set_head_block slot_two ∷ []
