-- ===== src/Db/Writes/Blocks.antt =====
-- What is read of a block's header and body after they were written.
use erigon_db.Prelude.{
  ◌+◌, ◌-◌, ◌^◌, ◌<◌, ◌≡◌, refl, Bool, none, some, true, false, [], leb, lt→ltb, if◌then◌else◌,
  append-nil,
}
use erigon_db.Outcome.{message, ok, err, Profile, add_u64, map_ok}
use erigon_db.Crates.{MdbxCrate, TxLaws, FixedHashCrate, ArrayVecCrate, RlpCrate, IsH256}
use erigon_db.Crates.Derive.{VecCodec, Derives}
use erigon_db.Kv.Env.{rw_mode}
use erigon_db.Models.Keys.{HeaderKey}
use erigon_db.Models.Keys.RoundTrip.{IsU64, header_key-Fits}
use erigon_db.Models.Block.{
  BlockHeader, BodyForStorage, rlp_header, rlp_table_value, block_header_item, encode_block_header,
}
use erigon_db.Models.Block.Length.{IsBlockHeader}
use erigon_db.Models.Block.Body.{IsBody, body_fields, without_seals, body_round_trip}
use erigon_db.Models.Block.RoundTrip.{block_header_round_trip}
use erigon_db.Db.Access.{read, write}
use erigon_db.Db.Access.Laws.{flags_of, read-write_as}
use erigon_db.Db.Reads.{read_header, read_body_for_storage, skip_system_txs}
use erigon_db.Db.Writes.{write_header, write_body_for_storage}
use erigon_db.Db.Tables

module _ ⦃m : MdbxCrate⦄ ⦃f : FixedHashCrate⦄ ⦃v : ArrayVecCrate⦄ ⦃r : RlpCrate⦄ ⦃p : Profile⦄
    (laws : TxLaws m) where
  -- After a successful `write_header`, `read_header` at that key returns the header without its seal,
  -- which is not stored, where key and header are in range and the table can be opened.
  pub read-write_header :
      (k : HeaderKey) (h : BlockHeader) (tx : m.Transaction)
      → IsU64 k.0
      → IsH256 k.1
      → IsBlockHeader h
      → (rlp_header h).payload_length < 2 ^ 64
      → laws.can_open tx "Header" (flags_of rw_mode Tables.header) ≡ true
      → (write_header k h tx).0 ≡ ok tt
      → (read_header rw_mode k (write_header k h tx).1).0 ≡ ok (some (record h { seal = none }))
  unfolding write_header read_header
  read-write_header k h tx hn hh valid small can done =
      let (ks, ek, dk, lk) = header_key-Fits.trip k (hn, hh) in
      read-write_as laws Tables.header k h (record h { seal = none }) ks (encode_block_header h) tx
        refl can ek (unfold rlp_table_value block_header_item in refl)
        (unfold rlp_table_value block_header_item in rw (decoded) refl) done
    where
      decoded : block_header_item.decode (encode_block_header h) ≡ ok (record h { seal = none }, [])
      decoded =
          unfold block_header_item in
          rw (← append-nil (encode_block_header h)) (block_header_round_trip h [] valid small)

  -- After a successful `write_body_for_storage`, `read_body_for_storage` at that key returns the body
  -- without the system transactions at its ends, its first id one more and its amount two less, and
  -- without the seals of its uncles. A body with fewer than two transactions is an error. Key and body
  -- are in range, the derived codec of bodies writes and reads the fields in their order, and the
  -- table can be opened.
  pub read-write_body :
      ⦃i : Tables.BodyItem⦄ ⦃c : VecCodec⦄ (derived : Derives i.item body_fields) (k : HeaderKey)
      (body : BodyForStorage) (tx : m.Transaction)
      → IsU64 k.0
      → IsH256 k.1
      → IsBody body
      → body.base_tx_id + 1 < 2 ^ 64
      → laws.can_open tx "BlockBody" (flags_of rw_mode Tables.block_body) ≡ true
      → (write_body_for_storage k body tx).0 ≡ ok tt
      → (read_body_for_storage rw_mode k (write_body_for_storage k body tx).1).0 ≡ (
          if leb 2 body.tx_amount
          then ok (
              some (record (without_seals body) {
                base_tx_id = body.base_tx_id + 1;
                tx_amount = body.tx_amount - 2;
              }))
          else err (message "Block body has too few txs"))
  unfolding write_body_for_storage read_body_for_storage
  read-write_body ⦃i⦄ derived k body tx hn hh valid small can done =
      let (ks, ek, dk, lk) = header_key-Fits.trip k (hn, hh) in
      let back : (read rw_mode Tables.block_body k (write Tables.block_body k body tx).1).0
          ≡ ok (some (without_seals body)) =
        read-write_as laws Tables.block_body k body (without_seals body) ks (i.item.encode body) tx
          refl can ek (unfold rlp_table_value in refl) (unfold rlp_table_value in rw decoded refl)
          done in
      rw back (skipped (leb 2 body.tx_amount) refl)
    where
      decoded : i.item.decode (i.item.encode body) ≡ ok (without_seals body, [])
      decoded = rw (← append-nil (i.item.encode body)) (body_round_trip derived body [] valid)

      skipped :
          (enough : Bool)
          → leb 2 body.tx_amount ≡ enough
          → map_ok some (skip_system_txs (without_seals body)) ≡ (
              if enough
              then ok (
                  some (record (without_seals body) {
                    base_tx_id = body.base_tx_id + 1;
                    tx_amount = body.tx_amount - 2;
                  }))
              else err (message "Block body has too few txs"))
      skipped true e = unfold skip_system_txs add_u64 in rw (lt→ltb _ _ small, e) refl
      skipped false e = unfold skip_system_txs add_u64 in rw (lt→ltb _ _ small, e) refl
