-- ===== src/Http/Verify/Shared.antt =====
-- code/http/http_request.cpp, `verify_user_`: it breaks what the pool asks of its callers.
use torch_server.Base.{
  ℕ, ◌+◌, ◌<◌, ◌≡◌, refl, ap, Bool, true, Bytes, List, [], ◌∷◌, length, some, ok, arith,
}
use torch_server.SqlPool.{SqlPool, Conn}
use torch_server.SqlPool.Steps.{Crowd, Reach, count, count-append, Reach_drained}
use torch_server.Http.Verify.{Mysql, select_query, verify_user}
use torch_server.Http.Verify.Laws.{doubled, verify_user_runs}

-- The threads that come for the connections of this pool, with nothing lent.
abbrev pub crowd : SqlPool → Crowd
crowd pool = record {
  pool = pool;
  wanting = length pool.conn_queue;
  waiting = 0;
  lent = [];
  closed = [];
  again = [];
}

module _ (sql : Mysql) where
  open sql use {Db, query}

  -- With a name, a password and a connection at hand, and a first statement that succeeds:
  -- `verify_user` returns, and leaves a pool from which its connection is lent once more than the
  -- pool had it before, to different threads at a time, with none given back in between.
  pub verify_user_shares :
      (username pwd : Bytes) (log_in : Bool) (pool : SqlPool) (db : Db) (c : ℕ) (q : List Conn)
      → 0 < length username
      → 0 < length pwd
      → pool.conn_queue ≡ some c ∷ q
      → (query (select_query username) db).0 ≡ true
      → (answer : Bool) × (pool' : SqlPool) × (db' : Db) × (t : Crowd) × (verify_user sql username
            pwd log_in
            (pool, db)
          ≡ ok (answer, pool', db'))
        × Reach (crowd pool') t
        × (t.again ≡ [])
        × (count c t.lent ≡ count c pool.conn_queue + 1)
  unfolding count
  verify_user_shares username pwd log_in pool db c q named given front success =
      let pool' = doubled pool c q in
      let (t, run, none_again, lent) =
        Reach_drained pool'.conn_queue (crowd pool') (crowd pool') Reach.stay refl refl in
      (
        _,
        pool',
        _,
        t,
        verify_user_runs sql username pwd pool db c q named given front log_in success,
        run,
        none_again,
        ground (arith, lent c, count-append c q (some c ∷ some c ∷ []), ap (count c) front),
      )
