-- ===== src/Db/Writes/Laws.antt =====
-- What the typed reads return after the typed writes.
use erigon_db.Prelude.{◌≡◌, refl, some, true, bytes_eq_self}
use erigon_db.Outcome.{ok}
use erigon_db.Crates.{MdbxCrate, TxLaws, FixedHashCrate, H256, Address, IsH256, IsAddress}
use erigon_db.Kv.Env.{rw_mode}
use erigon_db.Kv.Values.RoundTrip.{h256_type-Fills, address_type-Fills}
use erigon_db.Models.Keys.{BlockNumber, Incarnation}
use erigon_db.Models.Keys.RoundTrip.{u64_key-Fills, IsU64}
use erigon_db.Db.Access.{read, write}
use erigon_db.Db.Access.Laws.{
  flags_of, read-write, read-value, read-keeps, write_can_open, put_value,
}
use erigon_db.Db.Reads.{
  read_head_header_hash, read_incarnation, read_header_number, read_head_block_number,
}
use erigon_db.Db.Writes.{write_head_header_hash, write_incarnation, write_header_number}
use erigon_db.Db.Tables

module _ ⦃m : MdbxCrate⦄ ⦃f : FixedHashCrate⦄ (laws : TxLaws m) where
  -- After a successful `write_head_header_hash`, `read_head_header_hash` returns the hash.
  pub read-write_head_header_hash :
      (h : H256) (tx : m.Transaction)
      → IsH256 h
      → laws.can_open tx "LastHeader" (flags_of rw_mode Tables.last_header) ≡ true
      → (write_head_header_hash h tx).0 ≡ ok tt
      → (read_head_header_hash rw_mode (write_head_header_hash h tx).1).0 ≡ ok (some h)
  unfolding write_head_header_hash read_head_header_hash
  read-write_head_header_hash h tx v can done =
      let (bs, e, d, l) = h256_type-Fills.trip h v in
      read-write laws Tables.last_header tt h _ bs tx refl can refl e d done

  -- After a successful `write_header_number`, `read_header_number` returns the number.
  pub read-write_header_number :
      (h : H256) (n : BlockNumber) (tx : m.Transaction)
      → IsH256 h
      → IsU64 n
      → laws.can_open tx "HeaderNumber" (flags_of rw_mode Tables.header_number) ≡ true
      → (write_header_number h n tx).0 ≡ ok tt
      → (read_header_number rw_mode h (write_header_number h n tx).1).0 ≡ ok (some n)
  unfolding write_header_number read_header_number
  read-write_header_number h n tx v vn can done =
      let (ks, ke, kd, kl) = h256_type-Fills.trip h v in
      let (bs, e, d, l) = u64_key-Fills.trip n vn in
      read-write laws Tables.header_number h n ks bs tx refl can ke e d done

  -- After a successful `write_incarnation`, `read_incarnation` returns the incarnation, where it is
  -- below 2 ^ 64, the address has 20 bytes, and the table can be opened.
  pub read-write_incarnation :
      (a : Address) (n : Incarnation) (tx : m.Transaction)
      → IsAddress a
      → IsU64 n
      → laws.can_open tx "IncarnationMap" (flags_of rw_mode Tables.incarnation_map) ≡ true
      → (write_incarnation a n tx).0 ≡ ok tt
      → (read_incarnation rw_mode a (write_incarnation a n tx).1).0 ≡ ok (some n)
  unfolding write_incarnation read_incarnation
  read-write_incarnation a n tx v vn can done =
      let (ks, ke, kd, kl) = address_type-Fills.trip a v in
      let (bs, e, d, l) = u64_key-Fills.trip n vn in
      read-write laws Tables.incarnation_map a n ks bs tx refl can ke e d done

  -- After successful writes of a header's number and then of that header as the head, the number of
  -- the head block is the number written, where the hash has 32 bytes, the number 64 bits, and both
  -- tables can be opened.
  pub read-write_head_block_number :
      (h : H256) (n : BlockNumber) (tx : m.Transaction)
      → IsH256 h
      → IsU64 n
      → laws.can_open tx "HeaderNumber" (flags_of rw_mode Tables.header_number) ≡ true
      → laws.can_open tx "LastHeader" (flags_of rw_mode Tables.last_header) ≡ true
      → (write_header_number h n tx).0 ≡ ok tt
      → (write_head_header_hash h (write_header_number h n tx).1).0 ≡ ok tt
      → (read_head_block_number rw_mode
          (write_head_header_hash h (write_header_number h n tx).1).1).0
        ≡ ok (some n)
  unfolding write_header_number write_head_header_hash read_head_block_number read_head_header_hash
      read_header_number
  read-write_head_block_number h n tx v vn can_n can_h done_n done_h =
      let number = Tables.header_number in
      let head = Tables.last_header in
      let tx1 = (write number h n tx).1 in
      let tx2 = (write head tt h tx1).1 in
      let (hs, he, hd, hl) = h256_type-Fills.trip h v in
      let (ns, ne, nd, nl) = u64_key-Fills.trip n vn in
      let open1 =
        write_can_open laws number h n hs ns tx "LastHeader" (flags_of rw_mode head) can_n he ne
          can_h in
      let open2 =
        write_can_open laws head tt h _ hs tx1 "HeaderNumber" (flags_of rw_mode number) open1 refl
          he
          (write_can_open laws number h n hs ns tx "HeaderNumber" (flags_of rw_mode number) can_n he
            ne can_n) in
      let open2' =
        write_can_open laws head tt h _ hs tx1 "LastHeader" (flags_of rw_mode head) open1 refl he
          open1 in
      let (same, opens) = read-keeps laws rw_mode head tt _ tx2 open2' refl in
      rw (
        read-write laws head tt h _ hs tx1 refl open1 refl he hd done_h,
        read-value laws rw_mode number h hs (read rw_mode head tt tx2).1
            (opens "HeaderNumber" _ open2) he,
        same "HeaderNumber" hs,
        put_value laws head tt h _ hs tx1 "HeaderNumber" hs refl open1 refl he done_h,
        put_value laws number h n hs ns tx "HeaderNumber" hs refl can_n he ne done_n,
        bytes_eq_self hs,
        nd,
      )
