-- ===== src/Http/Verify.antt =====
-- code/http/http_request.cpp, `verify_user_`: log in or register with the database.
pub mod Laws
pub mod Shared
pub mod Tests
use torch_server.Base.{
  ℕ, Bool, true, false, not, ◌&&◌, ◌||◌, Bytes, codes, [], ◌∷◌, ◌++◌, length, Option, some, none,
  Run, ok, assert, ◌>>=◌, ◌>>◌, is_some, bytes_eq, ◌==◌, if◌then◌else◌,
}
use torch_server.SqlPool.{SqlPool, Conn, free_conn, raii_acquire, raii_release}

-- MySQL, which the code calls: the databases, a statement that is run (`true` if it succeeds), and
-- the first row of the last statement's result.
pub record Mysql : Type 1 where
  pub Db : Type 0
  pub query : Bytes → Db → Bool × Db
  pub fetch_row : Db → Option (Bytes × Bytes)

unfoldable pub select_query : Bytes → Bytes
select_query username =
    codes "SELECT username, password FROM user WHERE username=" ++ (username ++ codes " LIMIT 1")

unfoldable pub insert_query : Bytes → Bytes → Bytes
insert_query username pwd =
    codes "INSERT INTO user(username, password) VALUES('"
    ++ (username ++ (codes "', '" ++ (pwd ++ codes "')")))

-- `err` after the row was looked at.
unfoldable pub row_error : Option (Bytes × Bytes) → Bytes → Bool → Bool
row_error none pwd log_in = false
row_error (some (_, stored)) pwd log_in = if log_in then not (bytes_eq pwd stored) else true

module _ (sql : Mysql) where
  open sql use {Db, query, fetch_row}

  -- The registration: a second statement, and `err` after it.
  unfoldable pub register : Bytes → Bytes → Db → Bool × Db
  register username pwd db =
      let (success, db') = query (insert_query username pwd) db in (not success, db')

  unfoldable pub verify_user : Bytes → Bytes → Bool → SqlPool × Db → Run (Bool × SqlPool × Db)
  verify_user username pwd log_in (pool, db) =
      if length username == 0 || length pwd == 0 then ok (false, pool, db) else (do
        (conn, taken) ← raii_acquire pool
        returned ← raii_release conn taken
        assert (is_some conn)
        let (success, db') = query (select_query username) db
        if not success then ok (false, returned, db') else (do
          let err = row_error (fetch_row db') pwd log_in
          let (err', db'') = if not log_in && not err then register username pwd db' else (err, db')
          pool' ← free_conn conn returned
          ok (not err', pool', db'')))
