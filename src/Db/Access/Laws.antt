-- ===== src/Db/Access/Laws.antt =====
-- What is written is read back, and no other entry changes.
use text.Mathlib.Text.{◌==◌}
use text.Mathlib.TextPositions.{eq_refl}
use erigon_db.Prelude.{
  ℕ, ◌≡◌, refl, ◌∙◌, sym, some, List, String, true, false, ◌&&◌, bytes_eq, bytes_eq_self,
  if◌then◌else◌,
}
use erigon_db.Outcome.{Outcome, ok, err, panic, traverse, map_err, mdbx}
use erigon_db.Crates.{MdbxCrate, TxLaws, DatabaseFlags}
use erigon_db.Kv.Env.{Access, rw_mode, is_writeable}
use erigon_db.Kv.Tx
use erigon_db.Kv.Tx.{Table, Action, ◌>>=◌}
use erigon_db.Db.Access.{read, write}

abbrev pub flags_of : Access → Table → DatabaseFlags
flags_of access t = record { dup_sort = t.dup_sort; create = is_writeable access }

pub unwrap_ok : {A : Type 0} (o : Outcome ℕ A) (a : A) → map_err mdbx o ≡ ok a → o ≡ ok a
unwrap_ok (ok a') a h = cc
unwrap_ok (err e) a h = cc
unwrap_ok panic a h = cc

module _ ⦃m : MdbxCrate⦄ (laws : TxLaws m) where
  -- A read of a table that can be opened decodes the value that stands under the encoded key.
  pub read-value :
      (access : Access) (t : Table) (key : t.Key) (k : List ℕ) (tx : m.Transaction)
      → laws.can_open tx t.name (flags_of access t) ≡ true
      → t.encode_key key ≡ ok k
      → (read access t key tx).0 ≡ traverse t.object.decode (laws.value tx t.name k)
  unfolding read Tx.open_db Tx.get
  read-value access t key k tx can e =
      let (db, opened, name, dups) = laws.open_lem tx t.name (flags_of access t) can in
      rw (
        opened,
        e,
        laws.get_lem (m.open_db_with_flags tx t.name (flags_of access t)).1 db k,
        name,
        laws.open_keeps tx t.name t.name (flags_of access t) k,
      )

  -- A read changes no value and closes no table.
  pub read-keeps :
      (access : Access) (t : Table) (key : t.Key) (k : List ℕ) (tx : m.Transaction)
      → laws.can_open tx t.name (flags_of access t) ≡ true
      → t.encode_key key ≡ ok k
      → ((n : String) (k' : List ℕ) → laws.value (read access t key tx).1 n k' ≡ laws.value tx n k')
        × ((n : String) (fl : DatabaseFlags)
            → laws.can_open tx n fl ≡ true
            → laws.can_open (read access t key tx).1 n fl ≡ true)
  unfolding read Tx.open_db Tx.get
  read-keeps access t key k tx can e =
      let fl = flags_of access t in
      let (db, opened, name, dups) = laws.open_lem tx t.name fl can in
      let got = laws.get_lem (m.open_db_with_flags tx t.name fl).1 db k in
      (
        λ n k'. rw (opened, e, got) (laws.open_keeps tx t.name n fl k'),
        λ n fl' h. rw (opened, e, got) (laws.open_can_open tx t.name n fl fl' h),
      )

  pub write_can_open :
      (t : Table) (key : t.Key) (val : t.Value) (k v : List ℕ) (tx : m.Transaction) (n : String)
      (fl : DatabaseFlags)
      → laws.can_open tx t.name (flags_of rw_mode t) ≡ true
      → t.encode_key key ≡ ok k
      → t.object.encode val ≡ ok v
      → laws.can_open tx n fl ≡ true
      → laws.can_open (write t key val tx).1 n fl ≡ true
  unfolding write Tx.open_db Tx.put
  write_can_open t key val k v tx n fl can ek ev h =
      let (db, opened, name, dups) = laws.open_lem tx t.name (flags_of rw_mode t) can in
      rw (opened, ek, ev)
        (laws.put_can_open _ db k v n fl (laws.open_can_open tx t.name n (flags_of rw_mode t) fl h))

  -- A write whose key and value encode is a call of `put`, with the table open.
  pub write_puts :
      (t : Table) (key : t.Key) (val : t.Value) (k v : List ℕ) (tx : m.Transaction)
      → laws.can_open tx t.name (flags_of rw_mode t) ≡ true
      → t.encode_key key ≡ ok k
      → t.object.encode val ≡ ok v
      → let tx1 = (m.open_db_with_flags tx t.name (flags_of rw_mode t)).1 in
        (db : m.Database) × (laws.name_of db ≡ t.name)
        × (write t key val tx ≡ (map_err mdbx (m.put tx1 db k v).0, (m.put tx1 db k v).1))
  unfolding write Tx.open_db Tx.put
  write_puts t key val k v tx can ek ev =
      let (db, opened, name, dups) = laws.open_lem tx t.name (flags_of rw_mode t) can in
      (db, name, rw (opened, ek, ev) refl)

  pub put_value :
      (t : Table) (key : t.Key) (val : t.Value) (k v : List ℕ) (tx : m.Transaction) (n' : String)
      (k' : List ℕ)
      → t.dup_sort ≡ false
      → laws.can_open tx t.name (flags_of rw_mode t) ≡ true
      → t.encode_key key ≡ ok k
      → t.object.encode val ≡ ok v
      → (write t key val tx).0 ≡ ok tt
      → laws.value (write t key val tx).1 n' k'
        ≡ (if n' == t.name && bytes_eq k' k then some v else laws.value tx n' k')
  unfolding write Tx.open_db Tx.put
  put_value t key val k v tx n' k' single can ek ev done =
      let fl = flags_of rw_mode t in
      let (db, opened, name, dups) = laws.open_lem tx t.name fl can in
      let tx1 = (m.open_db_with_flags tx t.name fl).1 in
      let done' : map_err mdbx (m.put tx1 db k v).0 ≡ ok tt = rw (opened, ek, ev) at done in
      rw (
        opened,
        ek,
        ev,
        laws.put_lem tx1 db k v n' k' (dups ∙ single) (unwrap_ok (m.put tx1 db k v).0 tt done'),
        name,
        laws.open_keeps tx t.name n' fl k',
      )

  -- The read after a write returns what the encoding decodes to.
  pub read-write_as :
      (t : Table) (key : t.Key) (val val' : t.Value) (k v : List ℕ) (tx : m.Transaction)
      → t.dup_sort ≡ false
      → laws.can_open tx t.name (flags_of rw_mode t) ≡ true
      → t.encode_key key ≡ ok k
      → t.object.encode val ≡ ok v
      → t.object.decode v ≡ ok val'
      → (write t key val tx).0 ≡ ok tt
      → (read rw_mode t key (write t key val tx).1).0 ≡ ok (some val')
  read-write_as t key val val' k v tx single can ek ev dv done =
      read-value rw_mode t key k (write t key val tx).1
        (write_can_open t key val k v tx t.name (flags_of rw_mode t) can ek ev can) ek
      ∙ rw (
        put_value t key val k v tx t.name k single can ek ev done,
        eq_refl t.name,
        bytes_eq_self k,
        dv,
      )

  -- After a successful write to a table without duplicates that can be opened, the table reads back
  -- the value at that key, if key and value encode and the value decodes from its encoding.
  pub read-write :
      (t : Table) (key : t.Key) (val : t.Value) (k v : List ℕ) (tx : m.Transaction)
      → t.dup_sort ≡ false
      → laws.can_open tx t.name (flags_of rw_mode t) ≡ true
      → t.encode_key key ≡ ok k
      → t.object.encode val ≡ ok v
      → t.object.decode v ≡ ok val
      → (write t key val tx).0 ≡ ok tt
      → (read rw_mode t key (write t key val tx).1).0 ≡ ok (some val)
  read-write t key val k v tx single can ek ev dv done =
      read-write_as t key val val k v tx single can ek ev dv done

  -- After a successful write to a table without duplicates, reads of another table, or at another
  -- encoded key of the same one, are as before, where both tables can be opened and the keys and the
  -- value encode.
  pub read-write_ne :
      (t : Table) (key : t.Key) (val : t.Value) (k v : List ℕ) (t' : Table) (key' : t'.Key)
      (k' : List ℕ) (tx : m.Transaction)
      → t.dup_sort ≡ false
      → laws.can_open tx t.name (flags_of rw_mode t) ≡ true
      → laws.can_open tx t'.name (flags_of rw_mode t') ≡ true
      → t.encode_key key ≡ ok k
      → t.object.encode val ≡ ok v
      → t'.encode_key key' ≡ ok k'
      → (write t key val tx).0 ≡ ok tt
      → (t'.name == t.name && bytes_eq k' k) ≡ false
      → (read rw_mode t' key' (write t key val tx).1).0 ≡ (read rw_mode t' key' tx).0
  read-write_ne t key val k v t' key' k' tx single can can' ek ev ek' done other =
      read-value rw_mode t' key' k' (write t key val tx).1
        (write_can_open t key val k v tx t'.name (flags_of rw_mode t') can ek ev can') ek'
      ∙ rw (put_value t key val k v tx t'.name k' single can ek ev done, other)
          (sym (read-value rw_mode t' key' k' tx can' ek'))
