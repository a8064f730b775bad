-- ===== src/Db/Reads/Laws.antt =====
-- What `read_storage` finds, by the entries of its table.
use erigon_db.Prelude.{
  ℕ, ◌≡◌, refl, ◌∙◌, sym, bytes_eq, if◌then◌else◌, Option, none, some, List, ◌++◌, true, arith,
}
use erigon_db.Prelude.Digits.{be_bytes, length-be_bytes}
use erigon_db.Outcome.{Result, ok, err, panic, traverse, map_ok}
use erigon_db.Crates.{
  MdbxCrate, CursorLaws, TxLaws, ScanLaws, UintCrate, FixedHashCrate, ArrayVecCrate, H256, Address,
  IsH256, IsAddress,
}
use erigon_db.Kv.Tx.{pure, continue}
use erigon_db.Kv.Env.{Access}
use erigon_db.Kv.Values.{h256_type, address_type, uint_type, slot_object}
use erigon_db.Kv.Values.RoundTrip.{IsU256, slot_round_trip}
use erigon_db.Macros.Tuples.{tuple_key2-append}
use erigon_db.Models.Keys.{Incarnation, storage_key, u64_key}
use erigon_db.Db.Access.Laws.{flags_of}
use erigon_db.Db.Access.Cursors.{cursor-entries, seek_dup-first, first_dup}
use erigon_db.Db.Reads.{only_slot, read_storage}
use erigon_db.Db.Tables

module _ ⦃f : FixedHashCrate⦄ ⦃v : ArrayVecCrate⦄ where
  pub storage_key-bytes :
      (a : Address) (n : Incarnation)
      → IsAddress a
      → storage_key.encode (a, n) ≡ ok (a ++ be_bytes 8 n)
  unfolding storage_key u64_key address_type uint_type
  storage_key-bytes a n h =
      tuple_key2-append _ _ a n a _ refl refl (omega (arith, length-be_bytes 8 n))

pub h256-bytes : ⦃f : FixedHashCrate⦄ (h : H256) → h256_type.encode h ≡ ok h
unfolding h256_type
h256-bytes h = refl

abbrev pub Stored :
    ⦃u : UintCrate⦄ ⦃a : ArrayVecCrate⦄ ⦃f : FixedHashCrate⦄
    → Option (H256 × ℕ)
    → Option (List ℕ)
    → Type 0
Stored none bytes = bytes ≡ none
Stored (some p) bytes =
    (bs : List ℕ) × (bytes ≡ some bs) × (slot_object.encode p ≡ ok bs) × IsH256 p.0 × IsU256 p.1

pub continue-pure :
    ⦃m : MdbxCrate⦄ {A B : Type 0} (g : A → B) (r : Result A) (tx : m.Transaction)
    → (continue r (λ a. pure (g a)) tx).0 ≡ map_ok g r
continue-pure g (ok a) tx = refl
continue-pure g (err e) tx = refl
continue-pure g panic tx = refl

pub ok-injective : {x y : List ℕ} → ◌≡◌ {A = Result (List ℕ)} (ok x) (ok y) → x ≡ y
ok-injective e = cc

module _ ⦃m : MdbxCrate⦄ ⦃f : FixedHashCrate⦄ ⦃v : ArrayVecCrate⦄ ⦃u : UintCrate⦄ (tl : TxLaws m)
    (cl : CursorLaws m) (laws : ScanLaws m tl cl) where
  -- `read_storage` decodes the first duplicate of the account's key from the slot on, and returns its
  -- value where it is that of the slot itself.
  read_storage-first :
      (access : Access) (adr : Address) (inc : Incarnation) (slot : H256) (tx : m.Transaction)
      → IsAddress adr
      → tl.can_open tx "PlainState" (flags_of access Tables.storage) ≡ true
      → (read_storage access adr inc slot tx).0
        ≡ map_ok (only_slot slot) (
            traverse slot_object.decode
              (first_dup (adr ++ be_bytes 8 inc) slot (laws.scan tx "PlainState")))
  unfolding read_storage
  read_storage-first access adr inc slot tx ha can =
      let (cur, tx', made, es, same, kept, opens) =
        cursor-entries tl cl laws access Tables.storage tx can in
      rw
        (
          made,
          seek_dup-first tl cl laws Tables.storage h256_type.encode (adr, inc) slot
              (adr ++ be_bytes 8 inc) slot cur (storage_key-bytes adr inc ha) (h256-bytes slot),
          es,
        )
        (continue-pure (only_slot slot) _ tx')

  -- If the entries of the account's key have from the slot on the pair `o` first, or none, the value
  -- is that of `o` if it is of that very slot, and else there is none. The address has 20 bytes, `o` is
  -- in range, and the table can be opened.
  pub read_storage_lem :
      (access : Access) (adr : Address) (inc : Incarnation) (slot : H256) (o : Option (H256 × ℕ))
      (tx : m.Transaction)
      → IsAddress adr
      → tl.can_open tx "PlainState" (flags_of access Tables.storage) ≡ true
      → Stored o (first_dup (adr ++ be_bytes 8 inc) slot (laws.scan tx "PlainState"))
      → (read_storage access adr inc slot tx).0
        ≡ ok (elim o [ none ↦ none | some p ↦ if bytes_eq p.0 slot then some p.1 else none ])
  unfolding only_slot
  read_storage_lem access adr inc slot none tx ha can h =
      read_storage-first access adr inc slot tx ha can ∙ rw h
  read_storage_lem access adr inc slot (some p) tx ha can (bs, at_first, encoded, hh, hu) =
      let (bs', e, d, l) = slot_round_trip p hh hu in
      let same : bs ≡ bs' = ok-injective (sym encoded ∙ e) in
      read_storage-first access adr inc slot tx ha can ∙ rw (at_first, same, d)
