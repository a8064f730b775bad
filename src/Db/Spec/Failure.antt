-- ===== src/Db/Spec/Failure.antt =====
-- Where a sequence of typed writes stops, and why.
use erigon_db.Prelude.{ℕ, ◌≡◌, ◌≢◌, String, List, [], ◌∷◌, ◌++◌}
use erigon_db.Outcome.{Result, ok, Profile, map_err, mdbx}
use erigon_db.Crates.{MdbxCrate, TxLaws, UintCrate, FixedHashCrate, ArrayVecCrate, RlpCrate}
use erigon_db.Crates.Derive.{VecCodec, Derives}
use erigon_db.Prelude.Digits.{be_bytes}
use erigon_db.Models.Block.Body.{body_fields}
use erigon_db.Db.Tables
use erigon_db.Db.Spec.{
  Spec, Command, set_head_header, set_head_block, set_incarnation, set_number, set_block_of_tx,
  set_header, set_body,
}

-- The table that a command writes.
abbrev pub table_of : Command → String
table_of (set_head_header h) = "LastHeader"
table_of (set_head_block h) = "LastBlock"
table_of (set_incarnation a n) = "IncarnationMap"
table_of (set_number h n) = "HeaderNumber"
table_of (set_block_of_tx h n) = "BlockTransactionLookup"
table_of (set_header k h) = "Header"
table_of (set_body k b) = "BlockBody"

-- The bytes of its key.
abbrev pub key_of : Command → List ℕ
key_of (set_head_header h) =
    b'L' ∷ b'a' ∷ b's' ∷ b't' ∷ b'H' ∷ b'e' ∷ b'a' ∷ b'd' ∷ b'e' ∷ b'r' ∷ []
key_of (set_head_block h) = b'L' ∷ b'a' ∷ b's' ∷ b't' ∷ b'B' ∷ b'l' ∷ b'o' ∷ b'c' ∷ b'k' ∷ []
key_of (set_incarnation a n) = a
key_of (set_number h n) = h
key_of (set_block_of_tx h n) = h
key_of (set_header k h) = be_bytes 8 k.0 ++ k.1
key_of (set_body k b) = be_bytes 8 k.0 ++ k.1

module _ ⦃m : MdbxCrate⦄ ⦃f : FixedHashCrate⦄ ⦃u : UintCrate⦄ ⦃v : ArrayVecCrate⦄ ⦃r : RlpCrate⦄
    ⦃p : Profile⦄ ⦃i : Tables.BodyItem⦄ ⦃c : VecCodec⦄ (laws : TxLaws m)
    (derived : Derives i.item body_fields) where
  -- A result that is that of a call of `put` that fails, on the table `name` at the key `key`, made while
  -- all values are as in `tx`.
  pub record PutFails (name : String) (key : List ℕ) (tx : m.Transaction)
      (out : Result (Unit {0}) × m.Transaction) : Type 0 where
    pub opened : m.Transaction
    pub db : m.Database
    pub value_bytes : List ℕ
    pub in_table : laws.name_of db ≡ name
    pub values : (n : String) (k : List ℕ) → laws.value opened n k ≡ laws.value tx n k
    pub failed : (m.put opened db key value_bytes).0 ≢ ok tt
    pub is_put : out ≡ (let (r, tx') = m.put opened db key value_bytes in (map_err mdbx r, tx'))
