-- ===== src/Examples/Headers.antt =====
-- A table of two headers.
use erigon_db.Prelude.{◌<◌, ◌^◌, ◌≡◌, refl, arith, some, List, [], ◌∷◌, map}
use erigon_db.Prelude.Digits.{be_bytes, strip_zeros}
use erigon_db.Outcome.{ok}
use erigon_db.Crates.Stand.{fixed_hash, array_vec}
use erigon_db.Crates.Stand.Rlp.{simple_rlp}
use erigon_db.Crates.Stand.Store.{mdbx, cursor_laws, tx_laws, scan_laws}
use erigon_db.Kv.Cursor.{seek}
use erigon_db.Models.Keys.{HeaderKey, header_key}
use erigon_db.Models.Block.{BlockHeader, rlp_header, fee_length}
use erigon_db.Db.Access.Headers.{header_entry, seek-header}
use erigon_db.Db.Tables
use erigon_db.Examples.Store.{slot_two, slot_four, start}
use erigon_db.Examples.Encodings.{sample, sample-IsBlockHeader, debug}

abbrev stored_headers : List (HeaderKey × BlockHeader)
stored_headers = ((7, slot_two), sample) ∷ ((9, slot_four), sample) ∷ []

sample_small : (rlp_header sample).payload_length < 2 ^ 64
sample_small = unfold rlp_header fee_length strip_zeros be_bytes in omega arith

seek-header_example :
    (seek Tables.header header_key.decode 8 (start (map header_entry stored_headers))).0
    ≡ ok (some ((9, slot_four), sample))
seek-header_example =
    seek-header tx_laws cursor_laws scan_laws 8 stored_headers
      (start (map header_entry stored_headers)) (omega arith)
      (
        record {
          number = omega arith;
          hash = refl;
          header = sample-IsBlockHeader;
          small = sample_small;
        },
        (
          record {
            number = omega arith;
            hash = refl;
            header = sample-IsBlockHeader;
            small = sample_small;
          },
          tt,
        ),
      )
      refl
