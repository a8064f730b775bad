-- ===== src/Db/Access/Headers.antt =====
-- The seek of a header by its block number, from the keys and values down to the cursor.
use erigon_db.Prelude.{
  ℕ, ◌<◌, ◌^◌, ◌≡◌, refl, ap, ◌∙◌, sym, inl, inr, Bool-cases, Option, none, some, List, [], ◌∷◌,
  ◌++◌, All, map, ltb, if◌then◌else◌, append-nil, arith,
}
use erigon_db.Prelude.Digits.{be_bytes}
use erigon_db.Prelude.Lex.{lex_ltb, lex_ltb-nil}
use erigon_db.Outcome.{ok, traverse, Profile}
use erigon_db.Crates.{
  MdbxCrate, CursorLaws, TxLaws, ScanLaws, FixedHashCrate, ArrayVecCrate, RlpCrate, IsH256, Entry,
  head?,
}
use erigon_db.Crates.Mdbx.{from_key}
use erigon_db.Kv.Cursor.{decode, seek}
use erigon_db.Models.Keys.{BlockNumber, HeaderKey, header_key}
use erigon_db.Models.Keys.Order.{header_key-bytes, front_order}
use erigon_db.Models.Keys.RoundTrip.{IsU64, header_key-Fits}
use erigon_db.Models.Block.{
  BlockHeader, rlp_header, rlp_table_value, block_header_item, encode_block_header,
}
use erigon_db.Models.Block.Length.{IsBlockHeader}
use erigon_db.Models.Block.RoundTrip.{block_header_round_trip}
use erigon_db.Db.Access.Cursors.{seek-first}
use erigon_db.Db.History.Accounts.{u64-bytes}
use erigon_db.Db.Reads.Laws.{ok-injective}
use erigon_db.Db.Tables

-- Strings in front of a block number are below it if their own number is.
number_order :
    (n m : BlockNumber) (hash : List ℕ)
    → IsU64 n
    → IsU64 m
    → lex_ltb (be_bytes 8 m ++ hash) (be_bytes 8 n) ≡ ltb m n
number_order n m hash vn vm =
    ap (lex_ltb (be_bytes 8 m ++ hash)) (sym (append-nil (be_bytes 8 n)))
    ∙ front_order m n hash [] vm vn
    ∙ rw (lex_ltb-nil hash) (ground arith)

module _ ⦃m : MdbxCrate⦄ ⦃f : FixedHashCrate⦄ ⦃v : ArrayVecCrate⦄ ⦃r : RlpCrate⦄ ⦃p : Profile⦄ where
  pub record IsStored (kh : HeaderKey × BlockHeader) : Type 0 where
    pub number : IsU64 kh.0.0
    pub hash : IsH256 kh.0.1
    pub header : IsBlockHeader kh.1
    pub small : (rlp_header kh.1).payload_length < 2 ^ 64

  abbrev pub header_entry : HeaderKey × BlockHeader → Entry
  header_entry kh = (be_bytes 8 kh.0.0 ++ kh.0.1, encode_block_header kh.1)

  -- The first header with a number from `n` on, without its seal, which is not stored.
  abbrev pub first_from :
      BlockNumber → List (HeaderKey × BlockHeader) → Option (HeaderKey × BlockHeader)
  first_from n [] = none
  first_from n (kh ∷ khs) =
      let rest = first_from n khs in
      if ltb kh.0.0 n then rest else some (kh.0, record kh.1 { seal = none })

  decode_entry :
      (kh : HeaderKey × BlockHeader)
      → IsStored kh
      → decode Tables.header header_key.decode (header_entry kh)
        ≡ ok (kh.0, record kh.1 { seal = none })
  unfolding decode rlp_table_value block_header_item
  decode_entry kh h =
      let (ks, e, d, l) = header_key-Fits.trip kh.0 (h.number, h.hash) in
      let same : be_bytes 8 kh.0.0 ++ kh.0.1 ≡ ks =
        ok-injective (sym (header_key-bytes kh.0.0 kh.0.1 h.hash) ∙ e) in
      rw (
        same,
        d,
        ← append-nil (encode_block_header kh.1),
        block_header_round_trip kh.1 [] h.header h.small,
      )

  seek_entries :
      (n : BlockNumber) (khs : List (HeaderKey × BlockHeader))
      → IsU64 n
      → All IsStored khs
      → traverse
          (decode Tables.header header_key.decode)
          (head? (from_key (be_bytes 8 n) (map header_entry khs)))
        ≡ ok (first_from n khs)
  unfolding from_key
  seek_entries n [] vn h = refl
  seek_entries n (kh ∷ khs) vn h = elim (Bool-cases (ltb kh.0.0 n)) [
    | inl low ↦ rw (number_order n kh.0.0 kh.0.1 vn h.0.number, low) (seek_entries n khs vn h.1)
    | inr from ↦ rw (number_order n kh.0.0 kh.0.1 vn h.0.number, from, decode_entry kh h.0)
  ]

  -- Where the `Header` table holds the encodings of some headers in range, in the order of the table, `seek`
  -- with a block number returns the first of them with that number or a greater one, with its key and
  -- decoded, or nothing if there is none.
  pub seek-header :
      (tl : TxLaws m) (cl : CursorLaws m) (laws : ScanLaws m tl cl) (n : BlockNumber)
      (khs : List (HeaderKey × BlockHeader)) (cur : m.Cursor)
      → IsU64 n
      → All IsStored khs
      → cl.entries cur ≡ map header_entry khs
      → (seek Tables.header header_key.decode n cur).0 ≡ ok (first_from n khs)
  seek-header tl cl laws n khs cur vn h es =
      seek-first tl cl laws Tables.header header_key.decode n (be_bytes 8 n) cur (u64-bytes n)
      ∙ rw es (seek_entries n khs vn h)
