-- ===== src/SqlPool.antt =====
-- code/pool/sql_conn_pool.cpp and sql_conn_RAII.h: the queue of database connections, seen by one
-- thread; Steps has the threads that share it. A connection is its number, and `none` is the null
-- pointer that a failed connect leaves.
pub mod Steps
pub mod Tests
use torch_server.Base.{
  ℕ, List, [], ◌∷◌, ◌++◌, length, Option, Run, ok, fault, waits, assert, ◌>>◌, is_some,
  if◌then◌else◌, ltb,
}

abbrev pub Conn : Type 0
Conn = Option ℕ

pub record SqlPool : Type 0 where
  pub max_conn : ℕ
  pub conn_queue : List Conn

-- The connections that `mysql_real_connect` returned, one for each round.
unfoldable pub init : List Conn → SqlPool → Run SqlPool
init connected pool = do
  assert (ltb 0 (length connected))
  ok (record { max_conn = length connected; conn_queue = pool.conn_queue ++ connected })

unfoldable pub get_conn : SqlPool → Run (Conn × SqlPool)
get_conn pool = elim pool.conn_queue [
  | [] ↦ fault waits
  | sql ∷ rest ↦ ok (sql, record pool { conn_queue = rest })
]

unfoldable pub free_conn : Conn → SqlPool → Run SqlPool
free_conn sql pool = do
  assert (is_some sql)
  ok (record pool { conn_queue = pool.conn_queue ++ sql ∷ [] })

-- The connections that are closed, in order.
unfoldable pub close_pool : SqlPool → List Conn × SqlPool
close_pool pool = (pool.conn_queue, record pool { conn_queue = [] })

-- The destructor.
unfoldable pub destroy : SqlPool → List Conn × SqlPool
destroy pool = close_pool pool

unfoldable pub get_free_conn_count : SqlPool → ℕ
get_free_conn_count pool = length pool.conn_queue

-- `sql_conn_RAII(&sql, pool);` is a temporary: it is destroyed, and gives the connection back, at
-- the end of that statement.
unfoldable pub raii_acquire : SqlPool → Run (Conn × SqlPool)
raii_acquire pool = get_conn pool

unfoldable pub raii_release : Conn → SqlPool → Run SqlPool
raii_release sql pool = if is_some sql then free_conn sql pool else ok pool
