-- ===== src/Db/Spec/Refinement.antt =====
-- When a transaction refines the maps, and what one write keeps of that.
use text.Mathlib.Text.{◌==◌}
use text.Mathlib.TextPositions.{eq_refl}
use erigon_db.Prelude.{
  ℕ, ◌≡◌, refl, sym, ◌∙◌, inl, inr, Bool-cases, Option, some, true, false, List, [], ◌∷◌, All,
  bytes_eq, if◌then◌else◌,
}
use erigon_db.Outcome.{Result, ok, Profile}
use erigon_db.Crates.{
  MdbxCrate, TxLaws, UintCrate, FixedHashCrate, ArrayVecCrate, RlpCrate, H256, Address, IsH256,
  IsAddress,
}
use erigon_db.Kv.Env.{Access, rw_mode}
use erigon_db.Kv.Tx.{Table}
use erigon_db.Utils.Bitmap.{All-weaken}
use erigon_db.Db.Access.{read, write}
use erigon_db.Db.Access.Laws.{flags_of, read-value, write_can_open, put_value, read-write_ne}
use erigon_db.Db.Reads.{
  read_head_header_hash, read_head_block_hash, read_incarnation, read_header_number,
  read_transaction_block_number, read_header,
}
use erigon_db.Db.Reads.Laws.{h256-bytes}
use erigon_db.Db.History.Accounts.{address-bytes}
use erigon_db.Models.Keys.{HeaderKey}
use erigon_db.Models.Keys.RoundTrip.{header_key-Fits}
use erigon_db.Db.Spec.{Spec, IsHeaderKey}
use erigon_db.Db.Tables

module _ ⦃m : MdbxCrate⦄ (laws : TxLaws m) where
  abbrev pub IsOpen : Table → m.Transaction → Type 0
  IsOpen t tx = laws.can_open tx t.name (flags_of rw_mode t) ≡ true

  abbrev pub IsOpenIn : Access → Table → m.Transaction → Type 0
  IsOpenIn access t tx = laws.can_open tx t.name (flags_of access t) ≡ true

  -- A write of a value to a table that can be opened, and what its encoding decodes to.
  pub record Prepared (tx : m.Transaction) (out : Result (Unit {0}) × m.Transaction) : Type 1 where
    pub t : Table
    pub key : t.Key
    pub val : t.Value
    pub k : List ℕ
    pub back : t.Value
    pub bs : List ℕ
    pub single : t.dup_sort ≡ false
    pub can : IsOpen t tx
    pub encoded_key : t.encode_key key ≡ ok k
    pub encoded : t.object.encode val ≡ ok bs
    pub decoded : t.object.decode bs ≡ ok back
    pub is_write : out ≡ write t key val tx

  -- A successful write of a value, and what its encoding decodes to.
  pub record Written (tx : m.Transaction) : Type 1 where
    pub t : Table
    pub key : t.Key
    pub val : t.Value
    pub k : List ℕ
    pub back : t.Value
    pub bs : List ℕ
    pub single : t.dup_sort ≡ false
    pub can : IsOpen t tx
    pub encoded_key : t.encode_key key ≡ ok k
    pub encoded : t.object.encode val ≡ ok bs
    pub decoded : t.object.decode bs ≡ ok back
    pub done : (write t key val tx).0 ≡ ok tt

  module _ (tx : m.Transaction) (w : Written tx) where
    abbrev pub behind : m.Transaction
    behind = (write w.t w.key w.val tx).1

    still-IsOpen : (ts : List Table) → All (λ t. IsOpen t tx) ts → All (λ t. IsOpen t behind) ts
    still-IsOpen ts h =
        All-weaken _ _ ts
          (λ t c.
            write_can_open laws w.t w.key w.val w.k w.bs tx t.name (flags_of rw_mode t) w.can
              w.encoded_key w.encoded c)
          h

    -- A read of the table that was written, at any key.
    pub read-write_if :
        (key : w.t.Key) (k : List ℕ) (o : Option w.t.Value)
        → w.t.encode_key key ≡ ok k
        → (read rw_mode w.t key tx).0 ≡ ok o
        → (read rw_mode w.t key behind).0 ≡ ok (if bytes_eq k w.k then some w.back else o)
    read-write_if key k o ek before =
        read-value laws rw_mode w.t key k behind
          (write_can_open laws w.t w.key w.val w.k w.bs tx w.t.name (flags_of rw_mode w.t) w.can
            w.encoded_key w.encoded w.can)
          ek
        ∙ rw
            (
              put_value laws w.t w.key w.val w.k w.bs tx w.t.name k w.single w.can w.encoded_key
                  w.encoded w.done,
              eq_refl w.t.name,
            )
            (elim (Bool-cases (bytes_eq k w.k)) [
              | inl same ↦ rw (same, w.decoded)
              | inr other ↦ rw other (sym (read-value laws rw_mode w.t key k tx w.can ek) ∙ before)
            ])

    -- A read of another table.
    kept :
        (t : Table) (key : t.Key) (k : List ℕ) (o : Option t.Value)
        → t.encode_key key ≡ ok k
        → (t.name == w.t.name) ≡ false
        → IsOpen t tx
        → (read rw_mode t key tx).0 ≡ ok o
        → (read rw_mode t key behind).0 ≡ ok o
    kept t key k o ek ne can before =
        read-write_ne laws w.t w.key w.val w.k w.bs t key k tx w.single w.can can w.encoded_key
          w.encoded ek w.done (rw ne)
        ∙ before

module _ ⦃m : MdbxCrate⦄ ⦃f : FixedHashCrate⦄ ⦃u : UintCrate⦄ ⦃v : ArrayVecCrate⦄ ⦃r : RlpCrate⦄
    ⦃p : Profile⦄ ⦃i : Tables.BodyItem⦄ (laws : TxLaws m) where
  abbrev pub cells : List Table
  cells =
      Tables.last_header ∷ Tables.last_block ∷ Tables.incarnation_map ∷ Tables.header_number
      ∷ Tables.block_transaction_lookup ∷ Tables.header ∷ Tables.block_body ∷ []

  -- The tables can be opened, and each typed read, at a key in range, returns what the maps have.
  pub record Refines (access : Access) (tx : m.Transaction) (s : Spec) : Type 0 where
    pub opened : All (λ t. IsOpenIn laws access t tx) cells
    pub head_header : (read_head_header_hash access tx).0 ≡ ok s.head_header
    pub head_block : (read_head_block_hash access tx).0 ≡ ok s.head_block
    pub incarnation :
        (a : Address) → IsAddress a → (read_incarnation access a tx).0 ≡ ok (s.incarnation a)
    pub number : (h : H256) → IsH256 h → (read_header_number access h tx).0 ≡ ok (s.number h)
    pub block_of_tx :
        (h : H256) → IsH256 h → (read_transaction_block_number access h tx).0 ≡ ok (s.block_of_tx h)
    pub header : (k : HeaderKey) → IsHeaderKey k → (read_header access k tx).0 ≡ ok (s.header k)
    -- Bodies as they are stored, which `read_body_for_storage` strips of system transactions.
    pub body :
        (k : HeaderKey) → IsHeaderKey k → (read access Tables.block_body k tx).0 ≡ ok (s.body k)

  -- What a write of another table leaves as it was.
  module _ (tx : m.Transaction) (s : Spec) (w : Written laws tx)
      (refined : Refines rw_mode tx s) where
    pub still_opened : All (λ t. IsOpen laws t (behind laws tx w)) cells
    still_opened = still-IsOpen laws tx w cells refined.opened

    pub still_head_header :
        ("LastHeader" == w.t.name) ≡ false
        → (read_head_header_hash rw_mode (behind laws tx w)).0 ≡ ok s.head_header
    unfolding read_head_header_hash
    still_head_header ne =
        kept laws tx w Tables.last_header tt _ _ refl ne refined.opened.0 refined.head_header

    pub still_head_block :
        ("LastBlock" == w.t.name) ≡ false
        → (read_head_block_hash rw_mode (behind laws tx w)).0 ≡ ok s.head_block
    unfolding read_head_block_hash
    still_head_block ne =
        kept laws tx w Tables.last_block tt _ _ refl ne refined.opened.1.0 refined.head_block

    pub still_incarnation :
        ("IncarnationMap" == w.t.name) ≡ false
        → (a : Address) → IsAddress a
        → (read_incarnation rw_mode a (behind laws tx w)).0 ≡ ok (s.incarnation a)
    unfolding read_incarnation
    still_incarnation ne a h =
        kept laws tx w Tables.incarnation_map a a _ (address-bytes a) ne refined.opened.1.1.0
          (refined.incarnation a h)

    pub still_number :
        ("HeaderNumber" == w.t.name) ≡ false
        → (h : H256) → IsH256 h
        → (read_header_number rw_mode h (behind laws tx w)).0 ≡ ok (s.number h)
    unfolding read_header_number
    still_number ne h v =
        kept laws tx w Tables.header_number h h _ (h256-bytes h) ne refined.opened.1.1.1.0
          (refined.number h v)

    pub still_block_of_tx :
        ("BlockTransactionLookup" == w.t.name) ≡ false
        → (h : H256) → IsH256 h
        → (read_transaction_block_number rw_mode h (behind laws tx w)).0 ≡ ok (s.block_of_tx h)
    unfolding read_transaction_block_number
    still_block_of_tx ne h v =
        kept laws tx w Tables.block_transaction_lookup h h _ (h256-bytes h) ne
          refined.opened.1.1.1.1.0 (refined.block_of_tx h v)

    pub still_header :
        ("Header" == w.t.name) ≡ false
        → (k : HeaderKey) → IsHeaderKey k
        → (read_header rw_mode k (behind laws tx w)).0 ≡ ok (s.header k)
    unfolding read_header
    still_header ne k valid =
        kept laws tx w Tables.header k _ _ ((header_key-Fits.trip k valid).1) ne
          refined.opened.1.1.1.1.1.0 (refined.header k valid)

    pub still_body :
        ("BlockBody" == w.t.name) ≡ false
        → (k : HeaderKey) → IsHeaderKey k
        → (read rw_mode Tables.block_body k (behind laws tx w)).0 ≡ ok (s.body k)
    still_body ne k valid =
        kept laws tx w Tables.block_body k _ _ ((header_key-Fits.trip k valid).1) ne
          refined.opened.1.1.1.1.1.1.0 (refined.body k valid)
