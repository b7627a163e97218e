-- ===== src/Server/Arriving.antt =====
-- code/server/server.cpp, `add_client_`: how a connection comes in.
use torch_server.Base.{
  ℕ, ◌+◌, ◌^◌, ◌≤◌, ◌<◌, ◌≡◌, ◌≢◌, refl, pos, true, false, List, [], ◌∷◌, some, arith, Option-cases,
  inl, inr, Returns, returns, Returns-bind, lt→ltb, ◌%◌,
}
use torch_server.Timer.{Timer, TimerHeap, ms}
use torch_server.Timer.Laws.{add_timer_stores}
use torch_server.Timer.Room.{descriptors_room}
use torch_server.Http.Conn.{Conn}
use torch_server.Http.Conn as HttpConn
use torch_server.Epoller.{Kernel, Epoller, IsLawful, CtlOp, with_in, add_fd}
use torch_server.Epoller.Laws.{ctl_others}
use torch_server.Server.{Server, Accepted, add_client, arm, user_or_new, find, store, limit, max_fd}
use torch_server.Server.Loop.{is_listen_fd}
use torch_server.Server.Users.{opens_at, find-store}
use torch_server.Server.Healthy.{
  IsHealthyBut, IsHealthy, is_due, changed-IsHealthy, armed-IsHealthy, later-IsHealthy,
  noted-IsHealthy,
}

abbrev added_timer : Accepted → ℕ → Timer
added_timer a timeout = record { id = a.fd; expires = a.now + ms timeout; cb = a.fd }

module _ {Prob : Type 0} {kernel : Kernel} where
  -- What `accept` gives: a descriptor of the range of an `int`, which is not in use, at a time that
  -- is not before the last one.
  pub record IsFresh (last : ℕ) (a : Accepted) (s : Server Prob kernel) : Type 0 where
    pub positive : 0 < a.fd
    pub small : a.fd < 2 ^ 31
    pub later : last ≤ a.now
    pub other : is_listen_fd a.fd s.listen_fd ≡ false
    pub unused : opens_at (find a.fd s.users) ≡ 0

  -- What `add_client` changes, next to the timers.
  pub record IsAdded (a : Accepted) (s s' : Server Prob kernel) : Type 0 where
    pub is_open : opens_at (find a.fd s'.users) ≡ 1
    pub user_cnt : s'.user_cnt ≡ s.user_cnt + 1
    pub total_cnt : s'.total_cnt ≡ s.total_cnt + 1
    pub others : (k : ℕ) → a.fd ≢ k → find k s'.users ≡ find k s.users
    pub listen_fd : s'.listen_fd ≡ s.listen_fd
    pub listen_event : s'.listen_event ≡ s.listen_event

  -- The connection that `init` makes.
  abbrev added_conn : Accepted → Server Prob kernel → Conn Prob
  added_conn a s = HttpConn.reset (record (user_or_new a s.users) { fd = pos a.fd })

  abbrev watched_by : Accepted → Server Prob kernel → Epoller kernel
  watched_by a s = (add_fd (pos a.fd) (with_in s.conn_event) s.epoller).1

  abbrev added : Accepted → TimerHeap → Server Prob kernel → Server Prob kernel
  added a timer s = record s {
    total_cnt = s.total_cnt + 1;
    timer = timer;
    epoller = watched_by a s;
    users = store a.fd (added_conn a s) s.users;
    user_cnt = s.user_cnt + 1;
  }

  added-IsAdded :
      (a : Accepted) (timer : TimerHeap) (s : Server Prob kernel) → IsAdded a s (added a timer s)
  unfolding HttpConn.reset
  added-IsAdded a timer s = record {
    is_open = ground (arith, find-store a.fd a.fd (added_conn a s) s.users);
    user_cnt = refl;
    total_cnt = refl;
    others = λ k other. ground (arith, find-store a.fd k (added_conn a s) s.users);
    listen_fd = refl;
    listen_event = refl;
  }

  module _ (lawful : IsLawful kernel) where
    stored-IsHealthy :
        (due : List Timer) (last : ℕ) (a : Accepted) (s : Server Prob kernel)
        → IsHealthy last s
        → IsFresh last a s
        → s.user_cnt < max_fd
        → ((timeout : ℕ) → limit s.timeout_ms ≡ some timeout → is_due a.fd due ≡ true)
        → IsHealthyBut due a.now (added a s.timer s)
    unfolding HttpConn.reset add_fd is_due
    stored-IsHealthy due last a s v f room dues =
        let v' = later-IsHealthy [] last a.now s v f.later in
        let v'' = noted-IsHealthy (s.total_cnt + 1) s.tasks s.epoller.events [] a.now s v' in
        changed-IsHealthy a.fd (added_conn a s) (watched_by a s) (s.user_cnt + 1)
          (record s { total_cnt = s.total_cnt + 1 }) [] due a.now v'' refl (omega (arith, f.unused))
          (omega arith)
          (λ k other.
            ctl_others lawful CtlOp.epoll_ctl_add a.fd k (with_in s.conn_event) s.epoller other)
          (λ mask q r. refl) (λ q timeout r. ground (arith, dues timeout r))
          (λ k q r. absurd (ground arith))

    -- On a healthy server with room `add_client` of a fresh descriptor succeeds, leaves a healthy
    -- server, adds one open connection, and leaves the others as they were.
    pub add_client_adds :
        (last : ℕ) (a : Accepted) (s : Server Prob kernel)
        → IsHealthy last s
        → IsFresh last a s
        → s.user_cnt < max_fd
        → Returns (λ s'. IsHealthy a.now s' × IsAdded a s s') (add_client a s)
    unfolding add_client arm HttpConn.init is_due
    add_client_adds last a s v f room =
        let more : (s.user_cnt + 1) % 2 ^ 32 ≡ s.user_cnt + 1 = omega (arith, room) in
        elim (Option-cases (limit s.timeout_ms)) [
          | inl unlimited ↦
              rw (lt→ltb 0 a.fd f.positive, more, arm, unlimited)
                (returns (
                  stored-IsHealthy [] last a s v f room (λ timeout q. absurd (ground arith)),
                  added-IsAdded a s.timer s,
                ))
          | inr (timeout, limited) ↦
              rw (lt→ltb 0 a.fd f.positive, more, arm, limited)
                (let t = v.timed timeout limited in
                  Returns-bind
                    (add_timer_stores s.timer t.valid a.now a.fd timeout a.fd
                      (descriptors_room s.timer t.valid t.small))
                    λ timer armed. returns (
                      armed-IsHealthy (added_timer a timeout) timer a.now (added a s.timer s)
                          (stored-IsHealthy (added_timer a timeout ∷ []) last a s v f room
                            (λ timeout' q. ground arith))
                          armed refl f.small
                          (ground (arith, find-store a.fd a.fd (added_conn a s) s.users))
                          (λ timeout' q. ground arith),
                      added-IsAdded a timer s,
                    ))
        ]
