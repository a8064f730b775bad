-- ===== src/Db/Spec/Opens.antt =====
-- The typed writes close no table.
use erigon_db.Prelude.{◌≡◌, List, [], ◌∷◌, All, String, true}
use erigon_db.Outcome.{ok, Profile}
use erigon_db.Crates.{
  MdbxCrate, TxLaws, UintCrate, FixedHashCrate, ArrayVecCrate, RlpCrate, DatabaseFlags,
}
use erigon_db.Crates.Derive.{VecCodec, Derives}
use erigon_db.Kv.Env.{rw_mode}
use erigon_db.Models.Block.Body.{body_fields}
use erigon_db.Db.Access.Laws.{write_can_open}
use erigon_db.Db.Spec.{Spec, Command, IsCommand, apply, perform, perform_all}
use erigon_db.Db.Spec.Refinement.{Refines}
use erigon_db.Db.Spec.Commands.{first_done, perform-Refines}
use erigon_db.Db.Spec.Writing.{written, perform-written}
use erigon_db.Db.Tables

module _ ⦃m : MdbxCrate⦄ ⦃f : FixedHashCrate⦄ ⦃u : UintCrate⦄ ⦃v : ArrayVecCrate⦄ ⦃r : RlpCrate⦄
    ⦃p : Profile⦄ ⦃i : Tables.BodyItem⦄ ⦃c : VecCodec⦄ (laws : TxLaws m) (n : String)
    (fl : DatabaseFlags) where
  perform-opens :
      (derived : Derives i.item body_fields) (cmd : Command) (tx : m.Transaction) (s : Spec)
      → IsCommand cmd
      → Refines laws rw_mode tx s
      → (perform cmd tx).0 ≡ ok tt
      → laws.can_open tx n fl ≡ true
      → laws.can_open (perform cmd tx).1 n fl ≡ true
  perform-opens derived cmd tx s valid before done can =
      let w = written laws derived cmd tx s valid before done in
      rw (perform-written laws derived cmd tx s valid before done)
        (write_can_open laws w.t w.key w.val w.k w.bs tx n fl w.can w.encoded_key w.encoded can)

  pub perform_all-opens :
      (derived : Derives i.item body_fields) (cs : List Command) (tx : m.Transaction) (s : Spec)
      → All IsCommand cs
      → Refines laws rw_mode tx s
      → (perform_all cs tx).0 ≡ ok tt
      → laws.can_open tx n fl ≡ true
      → laws.can_open (perform_all cs tx).1 n fl ≡ true
  unfolding perform_all
  perform_all-opens derived [] tx s valid before done can = can
  perform_all-opens derived (cmd ∷ cs) tx s valid before done can =
      let first = first_done (perform cmd tx).0 (perform_all cs) (perform cmd tx).1 done in
      let later : (perform_all cs (perform cmd tx).1).0 ≡ ok tt = rw first at done in
      rw first (
        perform_all-opens derived cs (perform cmd tx).1 (apply cmd s) valid.1
          (perform-Refines laws derived cmd tx s valid.0 before first) later
          (perform-opens derived cmd tx s valid.0 before first can))
