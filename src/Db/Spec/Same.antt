-- ===== src/Db/Spec/Same.antt =====
-- Transactions that hold the same values read alike, in either mode.
use erigon_db.Prelude.{ℕ, ◌≡◌, refl, sym, ◌∙◌, List, All, String}
use erigon_db.Outcome.{ok, Profile}
use erigon_db.Crates.{MdbxCrate, TxLaws, UintCrate, FixedHashCrate, ArrayVecCrate, RlpCrate}
use erigon_db.Kv.Env.{Access}
use erigon_db.Kv.Tx.{Table}
use erigon_db.Models.Keys.RoundTrip.{header_key-Fits}
use erigon_db.Db.Access.{read}
use erigon_db.Db.Access.Laws.{read-value}
use erigon_db.Db.Reads.{
  read_head_header_hash, read_head_block_hash, read_incarnation, read_header_number,
  read_transaction_block_number, read_header,
}
use erigon_db.Db.Reads.Laws.{h256-bytes}
use erigon_db.Db.History.Accounts.{address-bytes}
use erigon_db.Db.Spec.{Spec}
use erigon_db.Db.Spec.Refinement.{IsOpenIn, Refines, cells}
use erigon_db.Db.Tables

module _ ⦃m : MdbxCrate⦄ ⦃f : FixedHashCrate⦄ ⦃u : UintCrate⦄ ⦃v : ArrayVecCrate⦄ ⦃r : RlpCrate⦄
    ⦃p : Profile⦄ ⦃i : Tables.BodyItem⦄ (laws : TxLaws m) (access access' : Access)
    (tx tx' : m.Transaction) (s : Spec)
    (values : (n : String) (k : List ℕ) → laws.value tx' n k ≡ laws.value tx n k)
    (opened : All (λ t. IsOpenIn laws access' t tx') (cells laws)) where
  same_read :
      (t : Table) (key : t.Key) (k : List ℕ)
      → IsOpenIn laws access t tx
      → IsOpenIn laws access' t tx'
      → t.encode_key key ≡ ok k
      → (read access' t key tx').0 ≡ (read access t key tx).0
  same_read t key k can can' e =
      read-value laws access' t key k tx' can' e
      ∙ rw (values t.name k) (sym (read-value laws access t key k tx can e))

  pub same_values : Refines laws access tx s → Refines laws access' tx' s
  unfolding read_head_header_hash read_head_block_hash read_incarnation read_header_number
      read_transaction_block_number read_header
  same_values before =
      let o = before.opened in
      record {
        opened = opened;
        head_header = same_read Tables.last_header tt _ o.0 opened.0 refl ∙ before.head_header;
        head_block = same_read Tables.last_block tt _ o.1.0 opened.1.0 refl ∙ before.head_block;
        incarnation = λ a v'.
            same_read Tables.incarnation_map a a o.1.1.0 opened.1.1.0 (address-bytes a)
            ∙ before.incarnation a v';
        number = λ x v'.
            same_read Tables.header_number x x o.1.1.1.0 opened.1.1.1.0 (h256-bytes x)
            ∙ before.number x v';
        block_of_tx = λ x v'.
            same_read Tables.block_transaction_lookup x x o.1.1.1.1.0 opened.1.1.1.1.0
              (h256-bytes x)
            ∙ before.block_of_tx x v';
        header = λ k v'.
            same_read Tables.header k _ o.1.1.1.1.1.0 opened.1.1.1.1.1.0
              (header_key-Fits.trip k v').1
            ∙ before.header k v';
        body = λ k v'.
            same_read Tables.block_body k _ o.1.1.1.1.1.1.0 opened.1.1.1.1.1.1.0
              (header_key-Fits.trip k v').1
            ∙ before.body k v';
      }
