-- ===== src/SqlPool/Steps.antt =====
-- code/pool/sql_conn_pool.cpp: the threads that share the pool, also those that give back a
-- connection that they do not hold, as `verify_user_` does (code/http/http_request.cpp).
use torch_server.Base.{
  ℕ, zero, suc, ◌+◌, ◌≤◌, ◌<◌, ◌≡◌, refl, ap, List, [], ◌∷◌, ◌++◌, length, length-append, some,
  none, ok, fault, waits, arith, ◌⊎◌, inl, inr, ◌==◌, if◌then◌else◌,
}
use torch_server.SqlPool.{
  SqlPool, Conn, get_conn, free_conn, close_pool, get_free_conn_count, raii_acquire, raii_release,
}

-- The threads that are in `get_conn` with the lock to come, and those in its wait; the connections
-- that are lent, those that were closed, and those that were given back without being lent.
pub record Crowd : Type 0 where
  pub pool : SqlPool
  pub wanting : ℕ
  pub waiting : ℕ
  pub lent : List Conn
  pub closed : List Conn
  pub again : List Conn

-- One waiting thread goes on, if there is one.
unfoldable pub notify_one : Crowd → Crowd
notify_one t = elim t.waiting [
  | zero ↦ t
  | suc n ↦ record t { waiting = n; wanting = t.wanting + 1 }
]

pub data Step : Crowd → Crowd → Type 0 where
  call : {t : Crowd} → Step t (record t { wanting = t.wanting + 1 })
  take :
      {t : Crowd} {n : ℕ} {sql : Conn} {pool : SqlPool}
      → t.wanting ≡ suc n
      → raii_acquire t.pool ≡ ok (sql, pool)
      → Step t (record t { pool = pool; wanting = n; lent = sql ∷ t.lent })
  sleep :
      {t : Crowd} {n : ℕ}
      → t.wanting ≡ suc n
      → raii_acquire t.pool ≡ fault waits
      → Step t (record t { wanting = n; waiting = t.waiting + 1 })
  spurious :
      {t : Crowd} {n : ℕ}
      → t.waiting ≡ suc n
      → Step t (record t { waiting = n; wanting = t.wanting + 1 })
  give :
      {t : Crowd} (before after : List Conn) (conn : ℕ) {pool : SqlPool}
      → t.lent ≡ before ++ some conn ∷ after
      → raii_release (some conn) t.pool ≡ ok pool
      → Step t (notify_one (record t { pool = pool; lent = before ++ after }))
  give_again :
      {t : Crowd} (conn : ℕ) {pool : SqlPool}
      → free_conn (some conn) t.pool ≡ ok pool
      → Step t (notify_one (record t { pool = pool; again = some conn ∷ t.again }))
  close :
      {t : Crowd}
      → Step t
          (record t { pool = (close_pool t.pool).1; closed = t.closed ++ (close_pool t.pool).0 })

pub data Reach : Crowd → Crowd → Type 0 where
  stay : {t : Crowd} → Reach t t
  then_step : {t t' t'' : Crowd} → Reach t t' → Step t' t'' → Reach t t''

abbrev pub same : ℕ → Conn → ℕ
same conn none = 0
same conn (some k) = if k == conn then 1 else 0

-- How often a connection stands in a list.
unfoldable pub count : ℕ → List Conn → ℕ
count conn [] = 0
count conn (sql ∷ rest) = same conn sql + count conn rest

pub count-append :
    (conn : ℕ) (xs ys : List Conn) → count conn (xs ++ ys) ≡ count conn xs + count conn ys
unfolding count
count-append conn [] ys = omega arith
count-append conn (x ∷ xs) ys = omega (arith, count-append conn xs ys)

-- Each connection is stored, lent or closed as often as it is in `all` and was given back without
-- being lent; and while a thread waits, there is a thread on its way for every stored connection.
pub record IsKept (all : List Conn) (t : Crowd) : Type 0 where
  pub each :
      (conn : ℕ)
      → count conn t.pool.conn_queue + count conn t.lent + count conn t.closed
        ≡ count conn all + count conn t.again
  pub total :
      get_free_conn_count t.pool + length t.lent + length t.closed ≡ length all + length t.again
  pub awake : (t.waiting ≡ 0) ⊎ (get_free_conn_count t.pool ≤ t.wanting)

raii_acquire_inv :
    (pool : SqlPool) {sql : Conn} {pool' : SqlPool}
    → raii_acquire pool ≡ ok (sql, pool')
    → pool.conn_queue ≡ sql ∷ pool'.conn_queue
unfolding raii_acquire get_conn
raii_acquire_inv pool e = ground (arith, e)

raii_acquire_empty : (pool : SqlPool) → raii_acquire pool ≡ fault waits → pool.conn_queue ≡ []
unfolding raii_acquire get_conn
raii_acquire_empty pool e = ground (arith, e)

raii_release_inv :
    (conn : ℕ) (pool : SqlPool) {pool' : SqlPool}
    → raii_release (some conn) pool ≡ ok pool'
    → pool'.conn_queue ≡ pool.conn_queue ++ some conn ∷ []
unfolding raii_release free_conn
raii_release_inv conn pool e = ground (arith, e)

free_conn_inv :
    (conn : ℕ) (pool : SqlPool) {pool' : SqlPool}
    → free_conn (some conn) pool ≡ ok pool'
    → pool'.conn_queue ≡ pool.conn_queue ++ some conn ∷ []
unfolding free_conn
free_conn_inv conn pool e = ground (arith, e)

-- A notification wakes a waiting thread for one stored connection more.
notify_one-IsKept :
    (all : List Conn) (t : Crowd)
    → ((conn : ℕ)
        → count conn t.pool.conn_queue + count conn t.lent + count conn t.closed
          ≡ count conn all + count conn t.again)
    → get_free_conn_count t.pool + length t.lent + length t.closed ≡ length all + length t.again
    → (t.waiting ≡ 0) ⊎ (get_free_conn_count t.pool ≤ t.wanting + 1)
    → IsKept all (notify_one t)
unfolding notify_one
notify_one-IsKept all t each total awake = by_waiting t.waiting refl
  where
    by_waiting : (n : ℕ) → t.waiting ≡ n → IsKept all (notify_one t)
    by_waiting zero e = rw (notify_one, e) (record { each = each; total = total; awake = inl e })
    by_waiting (suc n) e =
        rw (notify_one, e) (record { each = each; total = total; awake = ground (arith, awake, e) })

Step-IsKept : (all : List Conn) {t t' : Crowd} → Step t t' → IsKept all t → IsKept all t'
unfolding get_free_conn_count count close_pool
Step-IsKept all {t} Step.call v = record {
  each = v.each;
  total = v.total;
  awake = ground (arith, v.awake);
}
Step-IsKept all {t} (Step.take {n = n} {sql} {pool} wants e) v =
    let stored = raii_acquire_inv t.pool e in
    record {
      each = λ conn. omega (arith, v.each conn, ap (count conn) stored);
      total = omega (arith, v.total, ap length stored);
      awake = ground (arith, v.awake, wants, ap length stored);
    }
Step-IsKept all {t} (Step.sleep {n = n} wants e) v =
    let empty = raii_acquire_empty t.pool e in
    record { each = v.each; total = v.total; awake = inr (omega (arith, ap length empty)) }
Step-IsKept all {t} (Step.spurious {n = n} some_waiting) v = record {
  each = v.each;
  total = v.total;
  awake = ground (arith, v.awake, some_waiting);
}
Step-IsKept all {t} (Step.give before after conn {pool} lent e) v =
    let stored = raii_release_inv conn t.pool e in
    notify_one-IsKept all (record t { pool = pool; lent = before ++ after })
      (λ k. omega (
        arith,
        v.each k,
        ap (count k) stored,
        count-append k t.pool.conn_queue (some conn ∷ []),
        ap (count k) lent,
        count-append k before (some conn ∷ after),
        count-append k before after,
      ))
      (omega (
        arith,
        v.total,
        ap length stored,
        length-append t.pool.conn_queue (some conn ∷ []),
        ap length lent,
        length-append before (some conn ∷ after),
        length-append before after,
      ))
      (ground (arith, v.awake, ap length stored, length-append t.pool.conn_queue (some conn ∷ [])))
Step-IsKept all {t} (Step.give_again conn {pool} e) v =
    let stored = free_conn_inv conn t.pool e in
    let longer = length-append t.pool.conn_queue (some conn ∷ []) in
    notify_one-IsKept all (record t { pool = pool; again = some conn ∷ t.again })
      (λ k.
        omega
          (arith, v.each k, ap (count k) stored, count-append k t.pool.conn_queue (some conn ∷ [])))
      (omega (arith, v.total, ap length stored, longer))
      (ground (arith, v.awake, ap length stored, longer))
Step-IsKept all {t} Step.close v = record {
  each = λ conn. omega (arith, v.each conn, count-append conn t.closed t.pool.conn_queue);
  total = omega (arith, v.total, length-append t.closed t.pool.conn_queue);
  awake = inr (omega arith);
}

-- However the threads interleave, spurious wake-ups, the close of the pool, and connections that are
-- given back by a thread that does not hold them included: from a state in which it holds, each
-- connection stays stored, lent or closed exactly as often as it was at first and was given back
-- without being lent, the counts add up, and while a thread waits there is a thread on its way for
-- every stored connection.
pub Reach-IsKept : (all : List Conn) {t t' : Crowd} → Reach t t' → IsKept all t → IsKept all t'
Reach-IsKept all Reach.stay v = v
Reach-IsKept all (Reach.then_step run step) v = Step-IsKept all step (Reach-IsKept all run v)

-- In a state that is reached from one where this holds, when a connection is stored and a thread is
-- in `get_conn`, awake or not, some thread can take the first stored connection.
pub Reach-take :
    (all : List Conn) {t t' : Crowd} (sql : Conn) (rest : List Conn)
    → Reach t t'
    → IsKept all t
    → t'.pool.conn_queue ≡ sql ∷ rest
    → 0 < t'.wanting + t'.waiting
    → (t'' : Crowd) × Step t' t'' × (t''.lent ≡ sql ∷ t'.lent) × (t''.pool.conn_queue ≡ rest)
unfolding raii_acquire get_conn get_free_conn_count
Reach-take all {t} {t'} sql rest run v stored some_thread = by_wanting t'.wanting refl
  where
    sound : IsKept all t'
    sound = Reach-IsKept all run v

    by_wanting :
        (n : ℕ)
        → t'.wanting ≡ n
        → (t'' : Crowd) × Step t' t'' × (t''.lent ≡ sql ∷ t'.lent) × (t''.pool.conn_queue ≡ rest)
    by_wanting zero e = absurd (ground (arith, e, sound.awake, ap length stored, some_thread))
    by_wanting (suc n) e =
        (_, Step.take {pool = record t'.pool { conn_queue = rest }} e (rw stored refl), refl, refl)

-- As many threads as there are stored connections take them all.
pub Reach_drained :
    (queue : List Conn) (t₀ t : Crowd)
    → Reach t₀ t
    → t.pool.conn_queue ≡ queue
    → t.wanting ≡ length queue
    → (t' : Crowd) × Reach t₀ t'
      × (t'.again ≡ t.again)
      × ((conn : ℕ) → count conn t'.lent ≡ count conn t.lent + count conn queue)
unfolding raii_acquire get_conn count
Reach_drained [] t₀ t run stored wants = (t, run, refl, λ conn. omega arith)
Reach_drained (sql ∷ rest) t₀ t run stored wants =
    let pool = record t.pool { conn_queue = rest } in
    let (t', run', none_again, lent) =
      Reach_drained rest t₀ (record t { pool = pool; wanting = length rest; lent = sql ∷ t.lent })
        (Reach.then_step run (Step.take {pool = pool} (omega (arith, wants)) (rw stored refl))) refl
        refl in
    (t', run', none_again, λ conn. omega (arith, lent conn))
