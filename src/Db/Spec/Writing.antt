-- ===== src/Db/Spec/Writing.antt =====
-- Each typed write, as the write of a value that decodes from its encoding.
use erigon_db.Prelude.{◌≡◌, refl}
use erigon_db.Outcome.{ok, Profile}
use erigon_db.Crates.Derive.{VecCodec, Derives}
use erigon_db.Crates.{MdbxCrate, TxLaws, UintCrate, FixedHashCrate, ArrayVecCrate, RlpCrate}
use erigon_db.Kv.Env.{rw_mode}
use erigon_db.Kv.Values.RoundTrip.{h256_type-Fills, u256_type-Fits}
use erigon_db.Models.Keys.RoundTrip.{u64_key-Fills, header_key-Fits}
use erigon_db.Models.Block.Body.{without_seal, without_seals, body_fields}
use erigon_db.Db.Access.{write}
use erigon_db.Db.Reads.Laws.{h256-bytes}
use erigon_db.Db.History.Accounts.{address-bytes}
use erigon_db.Db.Writes.{
  write_head_header_hash, write_head_block_hash, write_incarnation, write_header_number,
  write_transaction_block_number, write_header, write_body_for_storage,
}
use erigon_db.Db.Spec.{
  Spec, Command, set_head_header, set_head_block, set_incarnation, set_number, set_block_of_tx,
  set_header, set_body, IsCommand, perform,
}
use erigon_db.Db.Spec.Refinement.{Refines, Prepared, Written}
use erigon_db.Db.Spec.Values.{header_encoded, header_decoded, body_encoded, body_decoded}
use erigon_db.Db.Tables

module _ ⦃m : MdbxCrate⦄ ⦃f : FixedHashCrate⦄ ⦃u : UintCrate⦄ ⦃v : ArrayVecCrate⦄ ⦃r : RlpCrate⦄
    ⦃p : Profile⦄ ⦃i : Tables.BodyItem⦄ ⦃c : VecCodec⦄ (laws : TxLaws m)
    (derived : Derives i.item body_fields) where
  unfoldable pub prepared :
      (c : Command) (tx : m.Transaction) (s : Spec)
      → IsCommand c
      → Refines laws rw_mode tx s
      → Prepared laws tx (perform c tx)
  unfolding perform write_head_header_hash write_head_block_hash write_incarnation
      write_header_number write_transaction_block_number write_header write_body_for_storage
  prepared (set_head_header h) tx s valid before =
      let (bs, e, d, l) = h256_type-Fills.trip h valid in
      record {
        t = Tables.last_header;
        key = tt;
        val = h;
        back = h;
        k = _;
        bs = bs;
        single = refl;
        can = before.opened.0;
        encoded_key = refl;
        encoded = e;
        decoded = d;
        is_write = refl;
      }
  prepared (set_head_block h) tx s valid before =
      let (bs, e, d, l) = h256_type-Fills.trip h valid in
      record {
        t = Tables.last_block;
        key = tt;
        val = h;
        back = h;
        k = _;
        bs = bs;
        single = refl;
        can = before.opened.1.0;
        encoded_key = refl;
        encoded = e;
        decoded = d;
        is_write = refl;
      }
  prepared (set_incarnation a n) tx s valid before =
      let (bs, e, d, l) = u64_key-Fills.trip n valid.1 in
      record {
        t = Tables.incarnation_map;
        key = a;
        val = n;
        back = n;
        k = a;
        bs = bs;
        single = refl;
        can = before.opened.1.1.0;
        encoded_key = address-bytes a;
        encoded = e;
        decoded = d;
        is_write = refl;
      }
  prepared (set_number h n) tx s valid before =
      let (bs, e, d, l) = u64_key-Fills.trip n valid.1 in
      record {
        t = Tables.header_number;
        key = h;
        val = n;
        back = n;
        k = h;
        bs = bs;
        single = refl;
        can = before.opened.1.1.1.0;
        encoded_key = h256-bytes h;
        encoded = e;
        decoded = d;
        is_write = refl;
      }
  prepared (set_block_of_tx h n) tx s valid before =
      let (bs, e, d, l) = u256_type-Fits.trip n valid.1 in
      record {
        t = Tables.block_transaction_lookup;
        key = h;
        val = n;
        back = n;
        k = h;
        bs = bs;
        single = refl;
        can = before.opened.1.1.1.1.0;
        encoded_key = h256-bytes h;
        encoded = e;
        decoded = d;
        is_write = refl;
      }
  prepared (set_header k h) tx s valid before =
      let (ks, ek, dk, lk) = header_key-Fits.trip k valid.0 in
      record {
        t = Tables.header;
        key = k;
        val = h;
        back = without_seal h;
        k = ks;
        bs = _;
        single = refl;
        can = before.opened.1.1.1.1.1.0;
        encoded_key = ek;
        encoded = header_encoded h;
        decoded = header_decoded h valid.1;
        is_write = refl;
      }
  prepared (set_body k b) tx s valid before =
      let (ks, ek, dk, lk) = header_key-Fits.trip k valid.0 in
      record {
        t = Tables.block_body;
        key = k;
        val = b;
        back = without_seals b;
        k = ks;
        bs = _;
        single = refl;
        can = before.opened.1.1.1.1.1.1.0;
        encoded_key = ek;
        encoded = body_encoded b;
        decoded = body_decoded derived b valid.1;
        is_write = refl;
      }

  unfoldable pub written :
      (c : Command) (tx : m.Transaction) (s : Spec)
      → IsCommand c
      → Refines laws rw_mode tx s
      → (perform c tx).0 ≡ ok tt
      → Written laws tx
  written c tx s valid before done =
      let w = prepared c tx s valid before in
      record {
        t = w.t;
        key = w.key;
        val = w.val;
        back = w.back;
        k = w.k;
        bs = w.bs;
        single = w.single;
        can = w.can;
        encoded_key = w.encoded_key;
        encoded = w.encoded;
        decoded = w.decoded;
        done = rw w.is_write at done;
      }

  pub perform-written :
      (c : Command) (tx : m.Transaction) (s : Spec) (valid : IsCommand c)
      (before : Refines laws rw_mode tx s) (done : (perform c tx).0 ≡ ok tt)
      → perform c tx ≡ (let w = written c tx s valid before done in write w.t w.key w.val tx)
  unfolding written
  perform-written c tx s valid before done = (prepared c tx s valid before).is_write
