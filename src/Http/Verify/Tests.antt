-- ===== src/Http/Verify/Tests.antt =====
-- Instances of the theorems on verify_user_.
use torch_server.Base.{
  ◌+◌, ◌≡◌, refl, Bool, true, false, Bytes, [], ◌∷◌, codes, some, none, ok, arith,
}
use torch_server.SqlPool.{SqlPool}
use torch_server.Http.Verify.{Mysql, select_query, insert_query, verify_user}
use torch_server.Http.Verify.Laws.{verify_user_login, verify_user_register}
use torch_server.SqlPool.Steps.{Crowd, Reach, count}
use torch_server.Http.Verify.Shared.{crowd, verify_user_shares}

-- A database that runs every statement, remembers the last one, and has one user.
abbrev one_user : Mysql
one_user = record {
  Db = Bytes;
  query = λ statement db. (true, statement);
  fetch_row = λ db. some (codes "ann", codes "secret");
}

-- One without users.
abbrev pub no_user : Mysql
no_user = record { Db = Bytes; query = λ statement db. (true, statement); fetch_row = λ db. none }

abbrev pub two_conns : SqlPool
two_conns = record { max_conn = 2; conn_queue = some 1 ∷ some 2 ∷ [] }

-- A user that nobody registered logs in, and connection 1 stands in the pool twice.
verify_user_login_example :
    verify_user no_user (codes "bob") (codes "x") true (two_conns, [])
    ≡ ok (
      true,
      record two_conns { conn_queue = some 2 ∷ some 1 ∷ some 1 ∷ [] },
      select_query (codes "bob"),
    )
verify_user_login_example =
    verify_user_login no_user (codes "bob") (codes "x") two_conns [] 1 (some 2 ∷ []) (omega arith)
      (omega arith) refl none refl refl

verify_user_register_example :
    verify_user no_user (codes "bob") (codes "x") false (two_conns, [])
    ≡ ok (
      true,
      record two_conns { conn_queue = some 2 ∷ some 1 ∷ some 1 ∷ [] },
      insert_query (codes "bob") (codes "x"),
    )
verify_user_register_example =
    verify_user_register no_user (codes "bob") (codes "x") two_conns [] 1 (some 2 ∷ [])
      (omega arith) (omega arith) refl none refl refl

-- Two threads are lent connection 1 at a time.
verify_user_shares_example :
    (answer : Bool) × (pool' : SqlPool) × (db' : Bytes) × (t : Crowd) × (verify_user no_user
        (codes "bob")
        (codes "x")
        true
        (two_conns, [])
      ≡ ok (answer, pool', db'))
    × Reach (crowd pool') t
    × (t.again ≡ [])
    × (count 1 t.lent ≡ count 1 (some 1 ∷ some 2 ∷ []) + 1)
verify_user_shares_example =
    verify_user_shares no_user (codes "bob") (codes "x") true two_conns [] 1 (some 2 ∷ [])
      (omega arith) (omega arith) refl refl
