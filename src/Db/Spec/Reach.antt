-- ===== src/Db/Spec/Reach.antt =====
-- Transactions that the typed operations reach, in any order.
use erigon_db.Prelude.{ℕ, ◌≡◌, List, [], ◌∷◌, String, true}
use erigon_db.Outcome.{ok, Profile}
use erigon_db.Crates.{
  MdbxCrate, TxLaws, UintCrate, FixedHashCrate, ArrayVecCrate, RlpCrate, DatabaseFlags,
}
use erigon_db.Crates.Derive.{VecCodec, Derives}
use erigon_db.Models.Block.Body.{body_fields}
use erigon_db.Kv.Env.{Access, rw_mode}
use erigon_db.Kv.Tx
use erigon_db.Kv.Tx.{Table}
use erigon_db.Utils.Bitmap.{All-weaken}
use erigon_db.Db.Access.{read, cursor}
use erigon_db.Db.Access.Laws.{flags_of, read-keeps}
use erigon_db.Db.Spec.{Spec, Command, IsCommand, apply, perform}
use erigon_db.Db.Spec.Refinement.{Refines, cells}
use erigon_db.Db.Spec.Same.{same_values}
use erigon_db.Db.Spec.Commands.{perform-Refines}
use erigon_db.Db.Tables

-- The maps after commands that are listed with the newest first.
abbrev pub applied : List Command → Spec → Spec
applied [] s = s
applied (c ∷ cs) s = apply c (applied cs s)

module _ ⦃m : MdbxCrate⦄ ⦃f : FixedHashCrate⦄ ⦃u : UintCrate⦄ ⦃v : ArrayVecCrate⦄ ⦃r : RlpCrate⦄
    ⦃p : Profile⦄ ⦃i : Tables.BodyItem⦄ ⦃c : VecCodec⦄ (laws : TxLaws m) where
  -- The transactions that `start` reaches by writes that succeed, reads of any table and new cursors,
  -- with the writes so far, the newest first.
  pub data Reach (start : m.Transaction) : List Command → m.Transaction → Type 1 where
    here : Reach start [] start
    did_write :
        {cs : List Command} {tx : m.Transaction} (c : Command)
        → Reach start cs tx
        → IsCommand c
        → (perform c tx).0 ≡ ok tt
        → Reach start (c ∷ cs) (perform c tx).1
    did_read :
        {cs : List Command} {tx : m.Transaction} (access : Access) (t : Table) (key : t.Key)
        (k : List ℕ)
        → Reach start cs tx
        → laws.can_open tx t.name (flags_of access t) ≡ true
        → t.encode_key key ≡ ok k
        → Reach start cs (read access t key tx).1
    made_cursor :
        {cs : List Command} {tx : m.Transaction} (access : Access) (t : Table)
        → Reach start cs tx
        → laws.can_open tx t.name (flags_of access t) ≡ true
        → Reach start cs (cursor access t tx).1

  -- No value changed and no table was closed.
  record IsSame (tx tx' : m.Transaction) : Type 0 where
    values : (n : String) (k : List ℕ) → laws.value tx' n k ≡ laws.value tx n k
    opens :
        (n : String) (fl : DatabaseFlags)
        → laws.can_open tx n fl ≡ true
        → laws.can_open tx' n fl ≡ true

  IsSame-Refines :
      (tx tx' : m.Transaction) (s : Spec)
      → IsSame tx tx'
      → Refines laws rw_mode tx s
      → Refines laws rw_mode tx' s
  IsSame-Refines tx tx' s h before =
      same_values laws rw_mode rw_mode tx tx' s h.values
        (All-weaken _ _ (cells laws) (λ t can. h.opens t.name (flags_of rw_mode t) can)
          before.opened)
        before

  cursor-IsSame :
      (access : Access) (t : Table) (tx : m.Transaction)
      → laws.can_open tx t.name (flags_of access t) ≡ true
      → IsSame tx (cursor access t tx).1
  unfolding cursor Tx.open_db Tx.cursor
  cursor-IsSame access t tx can =
      let (db, opened, name, dups) = laws.open_lem tx t.name (flags_of access t) can in
      record {
        values = λ n k. rw opened (laws.open_keeps tx t.name n (flags_of access t) k);
        opens = λ n fl h. rw opened (laws.open_can_open tx t.name n (flags_of access t) fl h);
      }

  -- In every transaction that valid typed writes that succeed, reads of any table and new cursors reach, in any
  -- order, from one that refines the seven maps, the typed reads still refine them, after the updates
  -- of the writes alone.
  pub Reach-Refines :
      (derived : Derives i.item body_fields) (start tx : m.Transaction) (cs : List Command)
      (s : Spec)
      → Refines laws rw_mode start s
      → Reach start cs tx
      → Refines laws rw_mode tx (applied cs s)
  Reach-Refines derived start tx cs s before here = before
  Reach-Refines derived start tx cs s before (did_write c reach valid done) =
      perform-Refines laws derived c _ _ valid (Reach-Refines derived start _ _ s before reach) done
  Reach-Refines derived start tx cs s before (did_read access t key k reach can ek) =
      let (values, opens) = read-keeps laws access t key k _ can ek in
      IsSame-Refines _ _ _ (record { values = values; opens = opens })
        (Reach-Refines derived start _ _ s before reach)
  Reach-Refines derived start tx cs s before (made_cursor access t reach can) =
      IsSame-Refines _ _ _ (cursor-IsSame access t _ can)
        (Reach-Refines derived start _ _ s before reach)
