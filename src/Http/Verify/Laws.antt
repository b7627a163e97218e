-- ===== src/Http/Verify/Laws.antt =====
-- code/http/http_request.cpp, `verify_user_`: what it answers, what it writes, and what it leaves in
-- the pool of connections.
use torch_server.Base.{
  ℕ, ◌<◌, ◌≡◌, Bool, true, false, not, ◌&&◌, Bytes, List, [], ◌∷◌, ◌++◌, append_assoc, length,
  Option, some, none, ok, arith, bytes_eq, ==-false, if◌then◌else◌, is_some, inl, inr, ◌⊎◌,
}
use torch_server.SqlPool.{SqlPool, Conn, get_conn, free_conn, raii_acquire, raii_release}
use torch_server.Http.Verify.{Mysql, select_query, insert_query, row_error, register, verify_user}

-- The pool after a call that took `c` from the front: `c` stands at the back, twice.
abbrev pub doubled : SqlPool → ℕ → List Conn → SqlPool
doubled pool c q = record pool { conn_queue = q ++ (some c ∷ some c ∷ []) }

-- Whether the row lets the user in: no row does, and so does the stored password.
abbrev pub password_fits : Option (Bytes × Bytes) → Bytes → Bool
password_fits none pwd = true
password_fits (some (_, stored)) pwd = bytes_eq pwd stored

module _ (sql : Mysql) where
  open sql use {Db, query, fetch_row}

  -- An empty name or password is refused without a look at the database.
  pub verify_user_empty :
      (username pwd : Bytes) (log_in : Bool) (pool : SqlPool) (db : Db)
      → (length username ≡ 0) ⊎ (length pwd ≡ 0)
      → verify_user sql username pwd log_in (pool, db) ≡ ok (false, pool, db)
  unfolding verify_user
  verify_user_empty username pwd log_in pool db (inl e) = rw e
  verify_user_empty username pwd log_in pool db (inr e) = rw e (ground arith)

  module _ (username pwd : Bytes) (pool : SqlPool) (db : Db) (c : ℕ) (q : List Conn)
      (named : 0 < length username) (given : 0 < length pwd)
      (front : pool.conn_queue ≡ some c ∷ q) where
    abbrev selected : Bool × Db
    selected = query (select_query username) db

    taken : raii_acquire pool ≡ ok (some c, record pool { conn_queue = q })
    unfolding raii_acquire get_conn
    taken = rw front

    pub verify_user_runs :
        (log_in : Bool)
        → selected.0 ≡ true
        → verify_user sql username pwd log_in (pool, db) ≡ (
            let err = row_error (fetch_row selected.1) pwd log_in in
            let (err', db'') =
              if not log_in && not err
              then register sql username pwd selected.1
              else (err, selected.1) in
            ok (not err', doubled pool c q, db''))
    unfolding verify_user raii_release free_conn
    verify_user_runs log_in success =
        rw
          (
            ==-false (length username) 0 (omega arith),
            ==-false (length pwd) 0 (omega arith),
            taken,
            success,
          )
          (rw (append_assoc q (some c ∷ []) (some c ∷ [])))

    -- With a name, a password and a connection at hand, and a first statement that succeeds: a
    -- log-in answers whether the row fits the password, where a missing row counts as a fit. It
    -- writes nothing, and its connection stands in the pool twice afterwards.
    pub verify_user_login :
        (row : Option (Bytes × Bytes))
        → selected.0 ≡ true
        → fetch_row selected.1 ≡ row
        → verify_user sql username pwd true (pool, db)
          ≡ ok (password_fits row pwd, doubled pool c q, selected.1)
    unfolding row_error
    verify_user_login none success e = rw (verify_user_runs true success, e)
    verify_user_login (some (name, stored)) success e =
        rw (verify_user_runs true success, e) (ground arith)

    -- With a name, a password and a connection at hand, and a first statement that succeeds: a
    -- registration of a known name is refused, and one of a new name runs the insertion and
    -- answers its success. Its connection stands in the pool twice afterwards.
    pub verify_user_register :
        (row : Option (Bytes × Bytes))
        → selected.0 ≡ true
        → fetch_row selected.1 ≡ row
        → verify_user sql username pwd false (pool, db) ≡ (
            let (success, db') = query (insert_query username pwd) selected.1 in
            ok (
              if is_some row then false else success,
              doubled pool c q,
              if is_some row then selected.1 else db',
            ))
    unfolding row_error register
    verify_user_register none success e = rw (verify_user_runs false success, e) (ground arith)
    verify_user_register (some r) success e = rw (verify_user_runs false success, e)

    -- Where the first statement fails, the answer is no and the pool has its connections once.
    pub verify_user_failed :
        (log_in : Bool)
        → selected.0 ≡ false
        → verify_user sql username pwd log_in (pool, db)
          ≡ ok (false, record pool { conn_queue = q ++ some c ∷ [] }, selected.1)
    unfolding verify_user raii_release free_conn
    verify_user_failed log_in failure = rw (
      ==-false (length username) 0 (omega arith),
      ==-false (length pwd) 0 (omega arith),
      taken,
      failure,
    )
