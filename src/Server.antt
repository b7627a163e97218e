-- ===== src/Server.antt =====
-- code/server/server.cpp and server.h: the state of the server, the handlers of its events, and
-- the tasks that its worker threads run. What a system call returns and each reading of the clock
-- is an argument; the connections are found by their descriptor, which is also what a timer's
-- callback names.
pub mod Loop
pub mod Socket
pub mod Users
pub mod Healthy
pub mod Closing
pub mod Expiry
pub mod Arriving
pub mod Listening
pub mod Serving
pub mod Reported
pub mod Round
pub mod Tasks
pub mod Reach
pub mod Truncated
pub mod Reopened
pub mod Turn
pub mod Modes
pub mod Page
pub mod Session
pub mod PageTests
pub mod SessionTests
pub mod Opening
pub mod Start
pub mod Main
pub mod Ending
pub mod Tests
pub mod RunTests
pub mod RoundTests
use torch_server.Base.{
  ℕ, zero, suc, ◌+◌, ◌≡◌, ℤ, pos, negsuc, Bool, true, false, ◌||◌, List, [], ◌∷◌, ◌++◌, Option,
  some, none, Run, ok, fault, no_fuel, out_of_bounds, assertion, assert, or_fault, ◌>>=◌, ◌>>◌, ltb,
  leb, ◌==◌, is_some, if◌then◌else◌, ◌^◌, ◌&&◌,
}
use torch_server.Buffer.{Count, failed, count}
use torch_server.Timer.{Timer, TimerHeap, add_timer, adjust}
use torch_server.Http.Conn.{Conn, Iovec, bytes_to_write}
use torch_server.Http.Conn as HttpConn
use torch_server.Epoller.{
  Events, no_events, with_in, with_out, with_et, Kernel, Epoller, add_fd, mod_fd, del_fd,
}

-- What `add_task` puts into the queue of the thread pool: `on_read_` or `on_write_` of a connection.
pub data Task : Type 0 where
  read_task write_task : ℕ → Task

-- `user_cnt`, as its 32 bits, and `et` are the static members of `http_conn`.
pub record Server (Prob : Type 0) (kernel : Kernel) : Type 0 where
  pub port : ℤ
  pub linger : Bool
  pub timeout_ms : ℤ
  pub is_closed : Bool
  pub listen_fd : ℤ
  pub listen_event : Events
  pub conn_event : Events
  pub total_cnt : ℕ
  pub timer : TimerHeap
  pub tasks : List Task
  pub epoller : Epoller kernel
  pub users : List (ℕ × Conn Prob)
  pub user_cnt : ℕ
  pub et : Bool

-- A call of `accept` that returns a descriptor, the clock after it, and what stands in memory where a
-- new connection has its vectors.
pub record Accepted : Type 0 where
  pub fd : ℕ
  pub now : ℕ
  pub iov_cnt : ℕ
  pub iov_0 : Iovec
  pub iov_1 : Iovec

-- `fd <= 0` is `refused`.
pub data Accept : Type 0 where
  refused : Accept
  accepted : Accepted → Accept

abbrev pub max_fd : ℕ
max_fd = 65_536

abbrev pub eagain : ℕ
eagain = 11

-- The time limit of a connection, where there is one.
unfoldable pub limit : ℤ → Option ℕ
limit (pos zero) = none
limit (pos (suc n)) = some (suc n)
limit (negsuc n) = none

-- The cases of `trig_mode` that add `EPOLLET` to the events of the listening socket, and to those of
-- the connections.
unfoldable pub is_edge_listen : ℤ → Bool
is_edge_listen (pos n) = leb 2 n
is_edge_listen (negsuc n) = true

unfoldable pub is_edge_conn : ℤ → Bool
is_edge_conn (pos n) = n == 1 || leb 3 n
is_edge_conn (negsuc n) = true

unfoldable pub is_zero : ℤ → Bool
is_zero (pos n) = n == 0
is_zero (negsuc n) = false

module _ {Prob : Type 0} where
  unfoldable pub find : ℕ → List (ℕ × Conn Prob) → Option (Conn Prob)
  find fd [] = none
  find fd ((k, c) ∷ users) = if k == fd then some c else find fd users

  unfoldable pub store : ℕ → Conn Prob → List (ℕ × Conn Prob) → List (ℕ × Conn Prob)
  store fd c [] = (fd, c) ∷ []
  store fd c ((k, d) ∷ users) = if k == fd then (k, c) ∷ users else (k, d) ∷ store fd c users

  -- `users_[fd]`, which makes a connection where there is none.
  unfoldable pub user_or_new : Accepted → List (ℕ × Conn Prob) → Conn Prob
  user_or_new a users = elim (find a.fd users) [
    | some c ↦ c
    | none ↦ HttpConn.new a.iov_cnt a.iov_0 a.iov_1
  ]

module _ {Prob : Type 0} {kernel : Kernel} where
  unfoldable pub init_event_mode : ℤ → Server Prob kernel → Server Prob kernel
  init_event_mode trig_mode s =
      let listen_event = record no_events { epollrdhup = true } in
      let conn_event = record no_events { epolloneshot = true; epollrdhup = true } in
      let listen_event' = if is_edge_listen trig_mode then with_et listen_event else listen_event in
      let conn_event' = if is_edge_conn trig_mode then with_et conn_event else conn_event in
      record s { listen_event = listen_event'; conn_event = conn_event'; et = conn_event'.epollet }

  -- `&users_[fd]` of a connection that is there.
  unfoldable pub client : ℕ → Server Prob kernel → Run (Conn Prob)
  client fd s = or_fault (find fd s.users) out_of_bounds

  unfoldable pub close_conn : ℕ → Server Prob kernel → Run (Server Prob kernel)
  close_conn fd s = do
    c ← client fd s
    let (c', user_cnt) = HttpConn.close_conn (c, s.user_cnt)
    ok (record s {
      epoller = (del_fd (HttpConn.get_fd c) s.epoller).1;
      users = store fd c' s.users;
      user_cnt = user_cnt;
    })

  unfoldable pub send_error : ℕ → Server Prob kernel → Run (Server Prob kernel)
  send_error fd s = do assert (ltb 0 fd); ok s

  -- The timer of a connection that is added, its callback named by the descriptor.
  unfoldable pub arm : ℕ → ℕ → Server Prob kernel → Run TimerHeap
  arm now fd s = elim (limit s.timeout_ms) [
    | none ↦ ok s.timer
    | some timeout ↦ add_timer now fd timeout fd s.timer
  ]

  unfoldable pub add_client : Accepted → Server Prob kernel → Run (Server Prob kernel)
  add_client a s = do
    assert (ltb 0 a.fd)
    (c, user_cnt) ← HttpConn.init a.fd (user_or_new a s.users, s.user_cnt)
    timer ← arm a.now a.fd s
    ok (record s {
      total_cnt = s.total_cnt + 1;
      timer = timer;
      epoller = (add_fd (pos a.fd) (with_in s.conn_event) s.epoller).1;
      users = store a.fd c s.users;
      user_cnt = user_cnt;
    })

  -- The calls of `accept` in order.
  unfoldable pub deal_listen : List Accept → Server Prob kernel → Run (Server Prob kernel)
  deal_listen [] s = fault no_fuel
  deal_listen (refused ∷ later) s = ok s
  deal_listen (accepted a ∷ later) s =
      if leb max_fd s.user_cnt && ltb s.user_cnt (2 ^ 31)
      then send_error a.fd s
      else (do s' ← add_client a s; if s'.listen_event.epollet then deal_listen later s' else ok s')

  -- `adjust`, whose assertion fails for a descriptor that no timer has.
  unfoldable pub extent_time : ℕ → Conn Prob → Server Prob kernel → Run (Server Prob kernel)
  extent_time now c s = elim (limit s.timeout_ms) [
    | none ↦ ok s
    | some timeout ↦ elim (HttpConn.get_fd c) [
      | pos fd ↦ (do timer ← adjust now fd timeout s.timer; ok (record s { timer = timer }))
      | negsuc n ↦ fault assertion
    ]
  ]

  unfoldable pub add_task : Task → Server Prob kernel → Server Prob kernel
  add_task task s = record s { tasks = s.tasks ++ task ∷ [] }

  unfoldable pub deal_read : ℕ → ℕ → Server Prob kernel → Run (Server Prob kernel)
  deal_read now fd s = do c ← client fd s; s' ← extent_time now c s; ok (add_task (read_task fd) s')

  unfoldable pub deal_write : ℕ → ℕ → Server Prob kernel → Run (Server Prob kernel)
  deal_write now fd s = do
    c ← client fd s
    s' ← extent_time now c s
    ok (add_task (write_task fd) s')

  -- The connection is stored back, and its descriptor is watched for the events of `mask`.
  unfoldable pub rearm : ℕ → Conn Prob → Events → Server Prob kernel → Server Prob kernel
  rearm fd c mask s = record s {
    users = store fd c s.users;
    epoller = (mod_fd (HttpConn.get_fd c) mask s.epoller).1;
  }

  -- What follows the call of `write`.
  unfoldable pub after_write : Count → ℕ → Conn Prob → Server Prob kernel → Run (Server Prob kernel)
  after_write ret fd c s =
      let s' = record s { users = store fd c s.users } in
      if is_zero (bytes_to_write c)
      then (if HttpConn.is_keep_alive c
          then ok (rearm fd (HttpConn.reset c) (with_in s.conn_event) s)
          else close_conn fd s')
      else elim ret [
        | failed errno ↦
            if errno == eagain then ok (rearm fd c (with_out s.conn_event) s) else close_conn fd s'
        | count n ↦ close_conn fd s'
      ]

  unfoldable pub on_write : List Count → ℕ → Server Prob kernel → Run (Server Prob kernel)
  on_write counts fd s = do
    c ← client fd s
    (ret, c') ← HttpConn.write s.et counts c
    after_write ret fd c' s
