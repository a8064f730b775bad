-- ===== src/Db/Spec.antt =====
-- What the typed writes and reads of the single-valued tables promise: maps of typed values.
mod HeaderKeys
mod Values
pub mod Refinement
mod Same
mod Writing
pub mod Commands
pub mod Failure
pub mod Reach
mod Opens
pub mod Session
use erigon_db.Prelude.{
  ℕ, ◌≡◌, Option, none, some, List, [], ◌∷◌, Bool, ◌==◌, ◌&&◌, bytes_eq, if◌then◌else◌,
}
use erigon_db.Outcome.{Result, Profile}
use erigon_db.Crates.{
  MdbxCrate, UintCrate, FixedHashCrate, ArrayVecCrate, RlpCrate, H256, Address, IsH256, IsAddress,
}
use erigon_db.Crates.Derive.{VecCodec}
use erigon_db.Kv.Tx.{Action, pure, ◌>>=◌}
use erigon_db.Kv.Values.RoundTrip.{IsU256}
use erigon_db.Models.Keys.{BlockNumber, Incarnation, HeaderKey}
use erigon_db.Models.Keys.RoundTrip.{IsU64}
use erigon_db.Models.Block.{BlockHeader, BodyForStorage}
use erigon_db.Models.Block.Body.{IsShortHeader, IsBody, without_seal, without_seals}
use erigon_db.Db.Tables
use erigon_db.Db.Writes.{
  write_head_header_hash, write_head_block_hash, write_incarnation, write_header_number,
  write_transaction_block_number, write_header, write_body_for_storage,
}

pub record Spec : Type 0 where
  pub head_header : Option H256
  pub head_block : Option H256
  pub incarnation : Address → Option Incarnation
  pub number : H256 → Option BlockNumber
  pub block_of_tx : H256 → Option ℕ
  pub header : HeaderKey → Option BlockHeader
  pub body : HeaderKey → Option BodyForStorage

pub data Command : Type 0 where
  set_head_header set_head_block : H256 → Command
  set_incarnation : Address → Incarnation → Command
  set_number : H256 → BlockNumber → Command
  set_block_of_tx : H256 → ℕ → Command
  set_header : HeaderKey → BlockHeader → Command
  set_body : HeaderKey → BodyForStorage → Command

abbrev pub IsHeaderKey : HeaderKey → Type 0
IsHeaderKey k = IsU64 k.0 × IsH256 k.1

abbrev pub IsCommand : ⦃r : RlpCrate⦄ ⦃p : Profile⦄ ⦃c : VecCodec⦄ → Command → Type 0
IsCommand (set_head_header h) = IsH256 h
IsCommand (set_head_block h) = IsH256 h
IsCommand (set_incarnation a n) = IsAddress a × IsU64 n
IsCommand (set_number h n) = IsH256 h × IsU64 n
IsCommand (set_block_of_tx h n) = IsH256 h × IsU256 n
IsCommand (set_header k h) = IsHeaderKey k × IsShortHeader h
IsCommand (set_body k b) = IsHeaderKey k × IsBody b

abbrev pub update : {V : Type 0} → (List ℕ → Option V) → List ℕ → V → List ℕ → Option V
update f k v k' = if bytes_eq k' k then some v else f k'

abbrev pub same_key : HeaderKey → HeaderKey → Bool
same_key k' k = k'.0 == k.0 && bytes_eq k'.1 k.1

abbrev pub update_key : {V : Type 0} → (HeaderKey → Option V) → HeaderKey → V → HeaderKey → Option V
update_key f k v k' = if same_key k' k then some v else f k'

-- Seals are not stored.
abbrev pub apply : Command → Spec → Spec
apply (set_head_header h) s = record s { head_header = some h }
apply (set_head_block h) s = record s { head_block = some h }
apply (set_incarnation a n) s = record s { incarnation = update s.incarnation a n }
apply (set_number h n) s = record s { number = update s.number h n }
apply (set_block_of_tx h n) s = record s { block_of_tx = update s.block_of_tx h n }
apply (set_header k h) s = record s { header = update_key s.header k (without_seal h) }
apply (set_body k b) s = record s { body = update_key s.body k (without_seals b) }

abbrev pub apply_all : List Command → Spec → Spec
apply_all [] s = s
apply_all (c ∷ cs) s = apply_all cs (apply c s)

module _ ⦃m : MdbxCrate⦄ ⦃f : FixedHashCrate⦄ ⦃u : UintCrate⦄ ⦃v : ArrayVecCrate⦄ ⦃r : RlpCrate⦄
    ⦃p : Profile⦄ ⦃i : Tables.BodyItem⦄ where
  unfoldable pub perform : Command → Action (Unit {0})
  perform (set_head_header h) = write_head_header_hash h
  perform (set_head_block h) = write_head_block_hash h
  perform (set_incarnation a n) = write_incarnation a n
  perform (set_number h n) = write_header_number h n
  perform (set_block_of_tx h n) = write_transaction_block_number h n
  perform (set_header k h) = write_header k h
  perform (set_body k b) = write_body_for_storage k b

  -- The first error ends the sequence.
  unfoldable pub perform_all : List Command → Action (Unit {0})
  perform_all [] = pure tt
  perform_all (c ∷ cs) = perform c >>= λ _. perform_all cs
