-- ===== src/Db/Spec/Commands.antt =====
-- The typed writes update the maps.
use erigon_db.Prelude.{
  ℕ, ◌≡◌, refl, ap, ◌∙◌, List, [], ◌∷◌, All, bytes_eq, bytes_eq_self, if◌then◌else◌,
}
use erigon_db.Outcome.{Result, ok, err, panic, Profile}
use erigon_db.Crates.Derive.{VecCodec, Derives}
use erigon_db.Crates.{MdbxCrate, TxLaws, UintCrate, FixedHashCrate, ArrayVecCrate, RlpCrate}
use erigon_db.Kv.Env.{rw_mode}
use erigon_db.Kv.Tx.{Action, continue}
use erigon_db.Models.Keys.RoundTrip.{header_key-Fits}
use erigon_db.Models.Block.Body.{body_fields}
use erigon_db.Db.Reads.{
  read_head_header_hash, read_head_block_hash, read_incarnation, read_header_number,
  read_transaction_block_number, read_header,
}
use erigon_db.Db.Reads.Laws.{h256-bytes}
use erigon_db.Db.History.Accounts.{address-bytes}
use erigon_db.Db.Writes.{
  write_head_header_hash, write_head_block_hash, write_incarnation, write_header_number,
  write_transaction_block_number, write_header, write_body_for_storage,
}
use erigon_db.Db.Spec.{
  Spec, Command, set_head_header, set_head_block, set_incarnation, set_number, set_block_of_tx,
  set_header, set_body, IsCommand, apply, apply_all, perform, perform_all,
}
use erigon_db.Db.Spec.Refinement.{
  Refines, read-write_if, still_opened, still_head_header, still_head_block, still_incarnation,
  still_number, still_block_of_tx, still_header, still_body,
}
use erigon_db.Db.Spec.HeaderKeys.{pick_key}
use erigon_db.Db.Spec.Writing.{prepared, written}
use erigon_db.Db.Tables

pick_self : {A : Type 0} (k : List ℕ) (x y : A) → (if bytes_eq k k then x else y) ≡ x
pick_self k x y = rw (bytes_eq_self k)

-- A sequence that succeeds has a first action that did.
pub first_done :
    ⦃m : MdbxCrate⦄ (r : Result (Unit {0})) (g : Action (Unit {0})) (tx : m.Transaction)
    → (continue r (λ _. g) tx).0 ≡ ok tt
    → r ≡ ok tt
first_done (ok tt) g tx h = refl
first_done (err e) g tx h = cc
first_done panic g tx h = cc

module _ ⦃m : MdbxCrate⦄ ⦃f : FixedHashCrate⦄ ⦃u : UintCrate⦄ ⦃v : ArrayVecCrate⦄ ⦃r : RlpCrate⦄
    ⦃p : Profile⦄ ⦃i : Tables.BodyItem⦄ ⦃c : VecCodec⦄ (laws : TxLaws m)
    (derived : Derives i.item body_fields) where
  pub perform-Refines :
      (c : Command) (tx : m.Transaction) (s : Spec)
      → IsCommand c
      → Refines laws rw_mode tx s
      → (perform c tx).0 ≡ ok tt
      → Refines laws rw_mode (perform c tx).1 (apply c s)
  unfolding perform write_head_header_hash write_head_block_hash write_incarnation
      write_header_number write_transaction_block_number write_header write_body_for_storage
      read_header read_head_header_hash read_head_block_hash read_incarnation read_header_number
      read_transaction_block_number prepared written
  perform-Refines (set_head_header h) tx s valid before done =
      let w = written laws derived (set_head_header h) tx s valid before done in
      record {
        opened = still_opened laws tx s w before;
        head_header =
            read-write_if laws tx w tt _ _ refl before.head_header ∙ ap ok (pick_self _ _ _);
        head_block = still_head_block laws tx s w before refl;
        incarnation = still_incarnation laws tx s w before refl;
        number = still_number laws tx s w before refl;
        block_of_tx = still_block_of_tx laws tx s w before refl;
        header = still_header laws tx s w before refl;
        body = still_body laws tx s w before refl;
      }
  perform-Refines (set_head_block h) tx s valid before done =
      let w = written laws derived (set_head_block h) tx s valid before done in
      record {
        opened = still_opened laws tx s w before;
        head_header = still_head_header laws tx s w before refl;
        head_block =
            read-write_if laws tx w tt _ _ refl before.head_block ∙ ap ok (pick_self _ _ _);
        incarnation = still_incarnation laws tx s w before refl;
        number = still_number laws tx s w before refl;
        block_of_tx = still_block_of_tx laws tx s w before refl;
        header = still_header laws tx s w before refl;
        body = still_body laws tx s w before refl;
      }
  perform-Refines (set_incarnation a n) tx s valid before done =
      let w = written laws derived (set_incarnation a n) tx s valid before done in
      record {
        opened = still_opened laws tx s w before;
        head_header = still_head_header laws tx s w before refl;
        head_block = still_head_block laws tx s w before refl;
        incarnation =
            λ x h'. read-write_if laws tx w x x _ (address-bytes x) (before.incarnation x h');
        number = still_number laws tx s w before refl;
        block_of_tx = still_block_of_tx laws tx s w before refl;
        header = still_header laws tx s w before refl;
        body = still_body laws tx s w before refl;
      }
  perform-Refines (set_number h n) tx s valid before done =
      let w = written laws derived (set_number h n) tx s valid before done in
      record {
        opened = still_opened laws tx s w before;
        head_header = still_head_header laws tx s w before refl;
        head_block = still_head_block laws tx s w before refl;
        incarnation = still_incarnation laws tx s w before refl;
        number = λ x h'. read-write_if laws tx w x x _ (h256-bytes x) (before.number x h');
        block_of_tx = still_block_of_tx laws tx s w before refl;
        header = still_header laws tx s w before refl;
        body = still_body laws tx s w before refl;
      }
  perform-Refines (set_block_of_tx h n) tx s valid before done =
      let w = written laws derived (set_block_of_tx h n) tx s valid before done in
      record {
        opened = still_opened laws tx s w before;
        head_header = still_head_header laws tx s w before refl;
        head_block = still_head_block laws tx s w before refl;
        incarnation = still_incarnation laws tx s w before refl;
        number = still_number laws tx s w before refl;
        block_of_tx =
            λ x h'. read-write_if laws tx w x x _ (h256-bytes x) (before.block_of_tx x h');
        header = still_header laws tx s w before refl;
        body = still_body laws tx s w before refl;
      }
  perform-Refines (set_header k h) tx s valid before done =
      let (ks, ek, dk, lk) = header_key-Fits.trip k valid.0 in
      let w = written laws derived (set_header k h) tx s valid before done in
      record {
        opened = still_opened laws tx s w before;
        head_header = still_head_header laws tx s w before refl;
        head_block = still_head_block laws tx s w before refl;
        incarnation = still_incarnation laws tx s w before refl;
        number = still_number laws tx s w before refl;
        block_of_tx = still_block_of_tx laws tx s w before refl;
        header = λ k' valid'.
            let e = header_key-Fits.trip k' valid' in
            read-write_if laws tx w k' e.0 _ e.1 (before.header k' valid')
            ∙ ap ok (pick_key k' k e.0 ks valid' valid.0 e.1 ek _ _);
        body = still_body laws tx s w before refl;
      }
  perform-Refines (set_body k b) tx s valid before done =
      let (ks, ek, dk, lk) = header_key-Fits.trip k valid.0 in
      let w = written laws derived (set_body k b) tx s valid before done in
      record {
        opened = still_opened laws tx s w before;
        head_header = still_head_header laws tx s w before refl;
        head_block = still_head_block laws tx s w before refl;
        incarnation = still_incarnation laws tx s w before refl;
        number = still_number laws tx s w before refl;
        block_of_tx = still_block_of_tx laws tx s w before refl;
        header = still_header laws tx s w before refl;
        body = λ k' valid'.
            let e = header_key-Fits.trip k' valid' in
            read-write_if laws tx w k' e.0 _ e.1 (before.body k' valid')
            ∙ ap ok (pick_key k' k e.0 ks valid' valid.0 e.1 ek _ _);
      }

  -- A sequence of writes of the seven tables, with values in the ranges of their Rust types, that returns no
  -- error takes a transaction that refines the seven maps to one that refines the maps after the
  -- same updates in the same order.
  pub perform_all-Refines :
      (cs : List Command) (tx : m.Transaction) (s : Spec)
      → All IsCommand cs
      → Refines laws rw_mode tx s
      → (perform_all cs tx).0 ≡ ok tt
      → Refines laws rw_mode (perform_all cs tx).1 (apply_all cs s)
  unfolding perform_all
  perform_all-Refines [] tx s valid before done = before
  perform_all-Refines (c ∷ cs) tx s valid before done =
      let first = first_done (perform c tx).0 (perform_all cs) (perform c tx).1 done in
      let later : (perform_all cs (perform c tx).1).0 ≡ ok tt = rw first at done in
      rw first (
        perform_all-Refines cs (perform c tx).1 (apply c s) valid.1
          (perform-Refines c tx s valid.0 before first) later)
