-- ===== src/Server/Loop.antt =====
-- code/server/server.cpp: the task `on_read_`, and the event loop of `start`.
use torch_server.Base.{
  ℕ, zero, suc, ◌+◌, ℤ, pos, negsuc, Bool, false, not, ◌&&◌, ◌||◌, Bytes, List, [], ◌∷◌, Option,
  some, none, Run, ok, assert, ◌>>=◌, ◌>>◌, ◌==◌, is_some, if◌then◌else◌,
}
use torch_server.Buffer.{ReadV}
use torch_server.Timer.{Timer, get_next_tick}
use torch_server.Http.Conn.{process, read}
use torch_server.Http.Verify.{Mysql}
use torch_server.Http.Request.{Classifier, World}
use torch_server.Http.Response.{Files}
use torch_server.Epoller.{
  Events, EpollEvent, Kernel, with_in, with_out, get_event_fd, get_events, wait,
}
use torch_server.Server.{
  Server, Accept, client, close_conn, deal_listen, deal_read, deal_write, rearm, store, find, limit,
  eagain,
}

module _ (sql : Mysql) (model : Classifier) (files : Files) (prob_text : model.Prob → Bytes)
    (src_dir : Bytes) {kernel : Kernel} where
  open model use {Prob}

  -- What follows the call of `read`.
  unfoldable pub after_read :
      ℕ → Server Prob kernel × World sql model → Run (Server Prob kernel × World sql model)
  after_read fd (s, w) = do
    c ← client fd s
    (done, c', w') ← process sql model files prob_text src_dir c w
    ok (rearm fd c' (if done then with_out s.conn_event else with_in s.conn_event) s, w')

  unfoldable pub on_read :
      List ReadV
      → ℕ
      → Server Prob kernel × World sql model
      → Run (Server Prob kernel × World sql model)
  on_read outcomes fd (s, w) = do
    c ← client fd s
    (ret, read_errno, c') ← read s.et outcomes 0 c
    let s' = record s { users = store fd c' s.users }
    if ret == 0 && not (read_errno == eagain)
        then (do s'' ← close_conn fd s'; ok (s'', w))
        else after_read fd (s', w)

-- What the handler of one event may need: the calls of `accept`, and the clock.
pub record Input : Type 0 where
  pub accepts : List Accept
  pub now : ℕ

-- `fd == listen_fd_`
unfoldable pub is_listen_fd : ℕ → ℤ → Bool
is_listen_fd fd (pos n) = fd == n
is_listen_fd fd (negsuc n) = false

module _ {Prob : Type 0} {kernel : Kernel} where
  -- `assert(users_.count(fd) > 0)`, and what follows it.
  unfoldable pub with_user :
      (ℕ → Server Prob kernel → Run (Server Prob kernel))
      → ℕ
      → Server Prob kernel
      → Run (Server Prob kernel)
  with_user deal fd s = do assert (is_some (find fd s.users)); deal fd s

  unfoldable pub handle_event : Input → ℕ → Events → Server Prob kernel → Run (Server Prob kernel)
  handle_event input fd events s =
      if is_listen_fd fd s.listen_fd
      then deal_listen input.accepts s
      else if events.epollrdhup || (events.epollhup || events.epollerr)
      then with_user close_conn fd s
      else if events.epollin
      then with_user (deal_read input.now) fd s
      else if events.epollout
      then with_user (deal_write input.now) fd s
      else ok s

  -- The events from the `i`-th on, `n` of them.
  unfoldable pub handle_from : (ℕ → Input) → ℕ → ℕ → Server Prob kernel → Run (Server Prob kernel)
  handle_from inputs zero i s = ok s
  handle_from inputs (suc n) i s = do
    fd ← get_event_fd i s.epoller
    events ← get_events i s.epoller
    s' ← handle_event (inputs i) fd events s
    handle_from inputs n (i + 1) s'

  -- `for(int i = 0; i < event_cnt; i++)`
  unfoldable pub handle_events : (ℕ → Input) → ℤ → Server Prob kernel → Run (Server Prob kernel)
  handle_events inputs (pos event_cnt) s = handle_from inputs event_cnt 0 s
  handle_events inputs (negsuc n) s = ok s

  -- The callbacks of the timers that ran, in order.
  unfoldable pub run_callbacks : List Timer → Server Prob kernel → Run (Server Prob kernel)
  run_callbacks [] s = ok s
  run_callbacks (t ∷ ran) s = do s' ← close_conn t.cb s; run_callbacks ran s'

  -- The time that `wait` then waits; without a time limit it is -1.
  unfoldable pub next_wait : (ℕ → ℕ) → ℕ → Server Prob kernel → Run (ℤ × Server Prob kernel)
  next_wait clock now s = elim (limit s.timeout_ms) [
    | none ↦ ok (negsuc 0, s)
    | some timeout ↦ (do
      (ran, time_ms, timer) ← get_next_tick clock now s.timer
      s' ← run_callbacks ran (record s { timer = timer })
      ok (time_ms, s'))
  ]

  -- One round of the loop of `start`: the events that `epoll_wait` reports are `ready`.
  unfoldable pub round :
      (ℕ → ℕ)
      → ℕ
      → Option (List EpollEvent)
      → (ℕ → Input)
      → Server Prob kernel
      → Run (Server Prob kernel)
  round clock now ready inputs s = do
    (time_ms, s') ← next_wait clock now s
    let (event_cnt, epoller) = wait ready s'.epoller
    handle_events inputs event_cnt (record s' { epoller = epoller })
