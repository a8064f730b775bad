-- ===== src/Db/Reads/BlockTxs.antt =====
-- The transactions of a block: from its stored body to the walk over the table of transactions.
use erigon_db.Prelude.{
  ℕ, suc, ◌+◌, ◌-◌, ◌^◌, ◌≤◌, ◌<◌, ◌≡◌, refl, ap, ◌∙◌, sym, inl, inr, Bool-cases, some, List, [],
  ◌∷◌, ◌++◌, All, All-append, map, take, length, ltb, lt→ltb, le→leb, true, if◌then◌else◌,
  ltb-eq-false, arith, append-nil,
}
use erigon_db.Prelude.Digits.{be_bytes}
use erigon_db.Prelude.Lex.{lex_ltb-be_bytes}
use erigon_db.Outcome.{Result, ok, Profile, add_u64}
use erigon_db.Crates.{
  MdbxCrate, CursorLaws, TxLaws, ScanLaws, BufCrate, FixedHashCrate, ArrayVecCrate, RlpCrate, Entry,
}
use erigon_db.Crates.Derive.{VecCodec}
use erigon_db.Crates.Mdbx.{from_key}
use erigon_db.Kv.Env.{Access}
use erigon_db.Kv.Cursor.{decode}
use erigon_db.Kv.Walk.{next_entry, Walker, collect}
use erigon_db.Kv.Walk.Laws.{walk-entries}
use erigon_db.Models.Keys.{TxIndex, HeaderKey, u64_key}
use erigon_db.Models.Keys.RoundTrip.{IsU64, u64_key-Fills}
use erigon_db.Models.Block.{BodyForStorage}
use erigon_db.Models.Transaction.Defs.{Transaction}
use erigon_db.Models.Transaction.Codec.{TxItems, transaction_object}
use erigon_db.Models.Transaction.Codec.Fields.{DerivesTxs}
use erigon_db.Models.Transaction.Codec.Stored.{stored, IsTransaction, stored_round_trip}
use erigon_db.Db.Access.{read}
use erigon_db.Db.Access.Laws.{flags_of}
use erigon_db.Db.Access.Cursors.{cursor-entries}
use erigon_db.Db.History.Accounts.{u64-bytes}
use erigon_db.Db.Reads.{walk_txs_canonical, read_body_for_storage, skip_system_txs}
use erigon_db.Db.Reads.Laws.{ok-injective}
use erigon_db.Db.Tables

-- The entries from the first id on that is at least `n`.
abbrev pub from_id : TxIndex → List (TxIndex × Transaction) → List (TxIndex × Transaction)
from_id n [] = []
from_id n (p ∷ ps) = let rest = from_id n ps in if ltb p.0 n then rest else p ∷ ps

-- Transactions under ids that follow each other.
abbrev pub numbered : TxIndex → List Transaction → List (TxIndex × Transaction)
numbered n [] = []
numbered n (t ∷ ts) = (n, t) ∷ numbered (suc n) ts

from_id-above :
    (n : ℕ) (ps : List (TxIndex × Transaction)) (q : TxIndex × Transaction)
    (qs : List (TxIndex × Transaction))
    → All (λ p. p.0 < n) ps
    → n ≤ q.0
    → from_id n (ps ++ (q ∷ qs)) ≡ q ∷ qs
from_id-above n [] q qs h k = rw (ltb-eq-false q.0 n k) refl
from_id-above n (p ∷ ps) q qs h k = rw (lt→ltb p.0 n h.0) (from_id-above n ps q qs h.1 k)

length-numbered : (n : ℕ) (ts : List Transaction) → length (numbered n ts) ≡ length ts
length-numbered n [] = refl
length-numbered n (t ∷ ts) = ap suc (length-numbered (suc n) ts)

numbered-append :
    (n : ℕ) (ts : List Transaction) (back : List (TxIndex × Transaction))
    → take (length ts) (map {B = Result (TxIndex × Transaction)} ok (numbered n ts ++ back))
      ≡ map ok (numbered n ts)
numbered-append n [] back = refl
numbered-append n (t ∷ ts) back = ap (λ l. ok (n, t) ∷ l) (numbered-append (suc n) ts back)

module _ ⦃f : FixedHashCrate⦄ ⦃b : BufCrate⦄ ⦃r : RlpCrate⦄ ⦃c : VecCodec⦄ ⦃t : TxItems⦄ where
  -- The entry of a transaction, in the form in which Erigon stores it.
  abbrev pub tx_entry : TxIndex × Transaction → Entry
  tx_entry p = (be_bytes 8 p.0, stored p.1)

  abbrev pub IsTxEntry : TxIndex × Transaction → Type 0
  IsTxEntry p = IsU64 p.0 × IsTransaction p.1

  numbered-IsTxEntry :
      (n : ℕ) (ts : List Transaction)
      → n + length ts ≤ 2 ^ 64
      → All IsTransaction ts
      → All IsTxEntry (numbered n ts)
  numbered-IsTxEntry n [] small valid = tt
  numbered-IsTxEntry n (x ∷ ts) small valid =
      ((omega arith, valid.0), numbered-IsTxEntry (suc n) ts (omega arith) valid.1)

  module _ ⦃m : MdbxCrate⦄ (derived : DerivesTxs) where
    decode_entry :
        (p : TxIndex × Transaction)
        → IsTxEntry p
        → decode Tables.block_transaction u64_key.decode (tx_entry p) ≡ ok p
    unfolding decode transaction_object
    decode_entry p valid =
        let (bs, e, d, l) = u64_key-Fills.trip p.0 valid.0 in
        let same : bs ≡ be_bytes 8 p.0 = ok-injective (sym e ∙ u64-bytes p.0) in
        rw (← same, d, ← append-nil (stored p.1), stored_round_trip derived p.1 [] valid.1) refl

    decode_entries :
        (ps : List (TxIndex × Transaction))
        → All IsTxEntry ps
        → map (decode Tables.block_transaction u64_key.decode) (map tx_entry ps) ≡ map ok ps
    decode_entries [] valid = refl
    decode_entries (p ∷ ps) valid = rw (decode_entry p valid.0, decode_entries ps valid.1) refl

    from_key-id :
        (n : ℕ) (ps : List (TxIndex × Transaction))
        → IsU64 n
        → All IsTxEntry ps
        → map
            (decode Tables.block_transaction u64_key.decode)
            (from_key (be_bytes 8 n) (map tx_entry ps))
          ≡ map ok (from_id n ps)
    unfolding from_key
    from_key-id n [] small valid = refl
    from_key-id n (p ∷ ps) small valid = elim (Bool-cases (ltb p.0 n)) [
      | inl below ↦
          rw (lex_ltb-be_bytes 8 p.0 n (omega (arith, valid.0.0)) (omega arith), below)
            (from_key-id n ps small valid.1)
      | inr from ↦
          rw (lex_ltb-be_bytes 8 p.0 n (omega (arith, valid.0.0)) (omega arith), from)
            (decode_entries (p ∷ ps) valid)
    ]

-- The ids of the table around those of a block.
pub record Around ⦃f : FixedHashCrate⦄ ⦃b : BufCrate⦄ ⦃r : RlpCrate⦄ ⦃c : VecCodec⦄ ⦃t : TxItems⦄
    (first : TxIndex) (txs : List Transaction) (entries : List Entry) : Type 0 where
  pub front : List (TxIndex × Transaction)
  pub back : List (TxIndex × Transaction)
  pub split : entries ≡ map tx_entry (front ++ (numbered first txs ++ back))
  pub below : All (λ p. p.0 < first) front
  pub front_valid : All IsTxEntry front
  pub txs_valid : All IsTransaction txs
  pub back_valid : All IsTxEntry back
  pub small : first + length txs < 2 ^ 64

module _ ⦃m : MdbxCrate⦄ ⦃f : FixedHashCrate⦄ ⦃b : BufCrate⦄ ⦃r : RlpCrate⦄ ⦃c : VecCodec⦄
    ⦃t : TxItems⦄ (tl : TxLaws m) (cl : CursorLaws m) (laws : ScanLaws m tl cl)
    (derived : DerivesTxs) where
  -- The items of the walk from the id of the first transaction.
  from_first :
      (first : TxIndex) (txs : List Transaction) (entries : List Entry)
      → Around first txs entries
      → take (length txs) (
          map
            (decode Tables.block_transaction u64_key.decode)
            (from_key (be_bytes 8 first) entries))
        ≡ map ok (numbered first txs)
  from_first first [] entries a = refl
  from_first first (x ∷ txs) entries a =
      let ps = a.front ++ (numbered first (x ∷ txs) ++ a.back) in
      let valid : All IsTxEntry ps = All-append _ a.front _ a.front_valid (
        All-append _ (numbered first (x ∷ txs)) a.back
          (numbered-IsTxEntry first (x ∷ txs) (omega (arith, a.small)) a.txs_valid) a.back_valid) in
      rw (a.split, from_key-id derived first ps (omega (arith, a.small)) valid)
        (rw
          (from_id-above first a.front (first, x) (numbered (suc first) txs ++ a.back) a.below
            (omega arith))
          (numbered-append first (x ∷ txs) a.back))

  -- Where a body is stored whose ids, less the system transactions at its two ends, are those of `txs` in the
  -- table of transactions, as Erigon stores them, `read_body_for_storage` returns a body from which
  -- `walk_txs_canonical`, from the first id on, hands out just these transactions under their ids, in
  -- as many calls as the body has transactions. The tables can be opened, transactions and ids are in
  -- range, and the derived codecs write and read fields in their order.
  pub block_transactions :
      ⦃v : ArrayVecCrate⦄ ⦃p : Profile⦄ ⦃i : Tables.BodyItem⦄ (access : Access) (k : HeaderKey)
      (body : BodyForStorage) (txs : List Transaction) (tx : m.Transaction)
      → (read access Tables.block_body k tx).0 ≡ ok (some body)
      → body.tx_amount ≡ length txs + 2
      → tl.can_open tx "BlockTransaction" (flags_of access Tables.block_transaction) ≡ true
      → Around (body.base_tx_id + 1) txs (laws.scan tx "BlockTransaction")
      → (found : BodyForStorage) × (w : Walker m.Cursor (TxIndex × Transaction))
        × ((read_body_for_storage access k tx).0 ≡ ok (some found))
        × ((walk_txs_canonical access (some found.base_tx_id) tx).0 ≡ ok w)
        × (collect (next_entry Tables.block_transaction u64_key.decode) found.tx_amount w
            ≡ map ok (numbered found.base_tx_id txs))
  unfolding read_body_for_storage walk_txs_canonical skip_system_txs add_u64
  block_transactions access k body txs tx stored_body amount can a =
      let first = body.base_tx_id + 1 in
      let count : body.tx_amount - 2 ≡ length txs = omega (arith, amount) in
      let (cur, tx', made, es, scans, values, opens) =
        cursor-entries tl cl laws access Tables.block_transaction tx can in
      let (w, walked, collected) =
        walk-entries cl Tables.block_transaction u64_key.decode first (be_bytes 8 first) cur
          (length txs) (u64-bytes first) in
      (
        record body { base_tx_id = first; tx_amount = body.tx_amount - 2 },
        w,
        rw
            (
              stored_body,
              lt→ltb first (2 ^ 64) (omega (arith, a.small)),
              le→leb 2 body.tx_amount (omega (arith, amount)),
            )
            refl,
        rw made walked,
        rw count (collected ∙ rw es (from_first first txs (laws.scan tx "BlockTransaction") a)),
      )
