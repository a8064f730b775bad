-- ===== src/Db/Spec/Session.antt =====
-- Write transactions that are committed one after the other, and what transactions begun later read.
use erigon_db.Prelude.{
  ◌≡◌, ◌-◌, refl, ◌∙◌, inl, inr, Option, none, some, List, [], ◌∷◌, ◌++◌, All, true, false, ltb,
  leb, leb→le, lt→ltb, ltb-eq-false, arith, Bool-cases, if◌then◌else◌,
}
use erigon_db.Outcome.{Result, ok, err, message, Profile, traverse, add_u64, ◌>>=◌}
use erigon_db.Crates.{
  MdbxCrate, TxLaws, EnvLaws, UintCrate, FixedHashCrate, ArrayVecCrate, RlpCrate,
}
use erigon_db.Crates.Derive.{VecCodec, Derives}
use erigon_db.Kv.Env
use erigon_db.Kv.Env.{Access, ro_mode, rw_mode}
use erigon_db.Kv.Tx
use erigon_db.Kv.Tx.{Table}
use erigon_db.Utils.Bitmap.{All-weaken}
use erigon_db.Models.Keys.{HeaderKey}
use erigon_db.Models.Block.{BodyForStorage}
use erigon_db.Models.Block.Body.{body_fields}
use erigon_db.Db.Access.Laws.{flags_of, unwrap_ok}
use erigon_db.Db.Env.{begin, begin_rw}
use erigon_db.Db.Reads.{read_body_for_storage, skip_system_txs}
use erigon_db.Db.Spec.{Spec, Command, IsCommand, IsHeaderKey, apply, apply_all, perform_all}
use erigon_db.Db.Spec.Refinement.{IsOpenIn, Refines, cells}
use erigon_db.Db.Spec.Same.{same_values}
use erigon_db.Db.Spec.Opens.{perform_all-opens}
use erigon_db.Db.Spec.Commands.{perform_all-Refines}
use erigon_db.Db.Tables

apply_all-append :
    (cs new : List Command) (s : Spec) → apply_all (cs ++ new) s ≡ apply_all new (apply_all cs s)
apply_all-append [] new s = refl
apply_all-append (c ∷ cs) new s = apply_all-append cs new (apply c s)

-- A body as a reader gets it: its first id is one more and its amount two less, since the transactions
-- at its ends are those of the system, and a body with fewer than two is an error.
abbrev pub without_system_txs : ⦃p : Profile⦄ → BodyForStorage → Result BodyForStorage
without_system_txs b = add_u64 b.base_tx_id 1 >>= λ first.
    if ltb b.tx_amount 2
    then err (message "Block body has too few txs")
    else ok (record b { base_tx_id = first; tx_amount = b.tx_amount - 2 })

skip_system_txs_lem : ⦃p : Profile⦄ (b : BodyForStorage) → skip_system_txs b ≡ without_system_txs b
unfolding skip_system_txs
skip_system_txs_lem b = elim (Bool-cases (leb 2 b.tx_amount)) [
  | inl enough ↦ rw (enough, ltb-eq-false b.tx_amount 2 (leb→le _ _ enough)) refl
  | inr few ↦ rw (few, lt→ltb b.tx_amount 2 (ground (arith, few))) refl
]

skip_stored :
    ⦃p : Profile⦄ (o : Option BodyForStorage)
    → traverse skip_system_txs o ≡ traverse without_system_txs o
skip_stored none = refl
skip_stored (some b) = rw (skip_system_txs_lem b) refl

module _ ⦃m : MdbxCrate⦄ ⦃f : FixedHashCrate⦄ ⦃u : UintCrate⦄ ⦃v : ArrayVecCrate⦄ ⦃r : RlpCrate⦄
    ⦃p : Profile⦄ ⦃i : Tables.BodyItem⦄ where
  -- The body that a reader gets, without the system transactions.
  Refines-body :
      (laws : TxLaws m) (access : Access) (tx : m.Transaction) (s : Spec) (k : HeaderKey)
      → Refines laws access tx s
      → IsHeaderKey k
      → (read_body_for_storage access k tx).0 ≡ traverse without_system_txs (s.body k)
  unfolding read_body_for_storage
  Refines-body laws access tx s k before valid = rw (before.body k valid) (skip_stored (s.body k))

  module _ ⦃c : VecCodec⦄ (laws : TxLaws m) (env_laws : EnvLaws m laws) where
    -- What an environment that was opened for writing has after committed transactions of writes,
    -- with all their writes in order.
    pub data Sessions (start : m.Environment) : List Command → m.Environment → Type 0 where
      opened : Sessions start [] start
      committed :
          {cs : List Command} {env : m.Environment} (new : List Command) (tx : m.Transaction)
          → Sessions start cs env
          → begin_rw (record { inner = env }) ≡ ok tx
          → All IsCommand new
          → (perform_all new tx).0 ≡ ok tt
          → (Tx.commit (perform_all new tx).1 env).0 ≡ ok false
          → Sessions start (cs ++ new) (Tx.commit (perform_all new tx).1 env).1

    abbrev OpensIn : m.Environment → Access → Table → Type 0
    OpensIn env access t = env_laws.opens env t.name (flags_of access t) ≡ true

    -- The tables are there, for readers and for writers, and every transaction that begins reads the
    -- maps.
    pub record Stores (env : m.Environment) (s : Spec) : Type 0 where
      pub readable : All (OpensIn env ro_mode) (cells laws)
      pub writeable : All (OpensIn env rw_mode) (cells laws)
      pub reader :
          (tx : m.Transaction) → begin (record { inner = env }) ≡ ok tx → Refines laws ro_mode tx s
      pub writer :
          (tx : m.Transaction)
          → begin_rw (record { inner = env }) ≡ ok tx
          → Refines laws rw_mode tx s

    commit-Stores :
        (env : m.Environment) (tx : m.Transaction) (s : Spec)
        → Refines laws rw_mode tx s
        → All (λ t. IsOpenIn laws ro_mode t tx) (cells laws)
        → (Tx.commit tx env).0 ≡ ok false
        → Stores (Tx.commit tx env).1 s
    unfolding Tx.commit begin begin_rw Env.begin Env.begin_rw Env.is_writeable
    commit-Stores env tx s before open_ro done =
        let done' = unwrap_ok (m.commit tx env).0 false done in
        let env' = (m.commit tx env).1 in
        let ro : All (OpensIn env' ro_mode) (cells laws) =
          All-weaken _ _ (cells laws)
            (λ t can. env_laws.commit_opens tx env done' t.name (flags_of ro_mode t) can) open_ro in
        let wr : All (OpensIn env' rw_mode) (cells laws) =
          All-weaken _ _ (cells laws)
            (λ t can. env_laws.commit_opens tx env done' t.name (flags_of rw_mode t) can)
            before.opened in
        record {
          readable = ro;
          writeable = wr;
          reader = λ tx' begun.
              let begun' = unwrap_ok (m.begin_ro_txn env') tx' begun in
              same_values laws rw_mode ro_mode tx tx' s
                (λ n k.
                  env_laws.begin_ro_values env' tx' begun' n k
                  ∙ env_laws.commit_values tx env done' n k)
                (All-weaken _ _ (cells laws)
                  (λ t can.
                    env_laws.begin_ro_opens env' tx' begun' t.name (flags_of ro_mode t) refl can)
                  ro)
                before;
          writer = λ tx' begun.
              let begun' = unwrap_ok (m.begin_rw_txn env') tx' begun in
              same_values laws rw_mode rw_mode tx tx' s
                (λ n k.
                  env_laws.begin_rw_values env' tx' begun' n k
                  ∙ env_laws.commit_values tx env done' n k)
                (All-weaken _ _ (cells laws)
                  (λ t can. env_laws.begin_rw_opens env' tx' begun' t.name (flags_of rw_mode t) can)
                  wr)
                before;
        }

    open_ro :
        (derived : Derives i.item body_fields) (env : m.Environment) (tx : m.Transaction) (s : Spec)
        (new : List Command)
        → Stores env s
        → begin_rw (record { inner = env }) ≡ ok tx
        → All IsCommand new
        → (perform_all new tx).0 ≡ ok tt
        → All (λ t. IsOpenIn laws ro_mode t (perform_all new tx).1) (cells laws)
    unfolding begin_rw Env.begin_rw
    open_ro derived env tx s new stores begun valid done =
        All-weaken _ _ (cells laws)
          (λ t can.
            perform_all-opens laws t.name (flags_of ro_mode t) derived new tx s valid
              (stores.writer tx begun) done
              (env_laws.begin_rw_opens env tx (unwrap_ok (m.begin_rw_txn env) tx begun) t.name
                (flags_of ro_mode t) can))
          stores.readable

    Sessions-Stores :
        (derived : Derives i.item body_fields) (start env : m.Environment) (cs : List Command)
        (s : Spec)
        → Stores start s
        → Sessions start cs env
        → Stores env (apply_all cs s)
    Sessions-Stores derived start env cs s stores opened = stores
    Sessions-Stores derived start _ _ s stores
          (committed {cs} {env} new tx before begun valid done ended) =
        let sofar = Sessions-Stores derived start env cs s stores before in
        rw (apply_all-append cs new s) (
          commit-Stores env (perform_all new tx).1 (apply_all new (apply_all cs s))
            (perform_all-Refines laws derived new tx (apply_all cs s) valid (sofar.writer tx begun)
              done)
            (open_ro derived env tx (apply_all cs s) new sofar begun valid done) ended)

    -- After any number of write transactions that were committed one after the other, each of valid writes
    -- that succeed, a transaction that begins on the environment, opened for reading, reads what the maps have
    -- after all the writes in their order, and `read_body_for_storage` bodies with the first id one more and
    -- the amount two less, or an error for fewer than two transactions, if the first environment stored
    -- the maps.
    pub reader_sees_commits :
        (derived : Derives i.item body_fields) (start env : m.Environment) (cs : List Command)
        (s : Spec) (tx : m.Transaction)
        → Stores start s
        → Sessions start cs env
        → begin (record { inner = env }) ≡ ok tx
        → Refines laws ro_mode tx (apply_all cs s)
          × ((k : HeaderKey)
              → IsHeaderKey k
              → (read_body_for_storage ro_mode k tx).0
                ≡ traverse without_system_txs ((apply_all cs s).body k))
    reader_sees_commits derived start env cs s tx stores sessions begun =
        let seen = (Sessions-Stores derived start env cs s stores sessions).reader tx begun in
        (seen, λ k valid. Refines-body laws ro_mode tx (apply_all cs s) k seen valid)
