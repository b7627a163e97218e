-- ===== src/Server/Closing.antt =====
-- code/server/server.cpp, `close_conn_`: what it changes, and what it leaves.
use torch_server.Base.{
  ℕ, ◌+◌, ◌-◌, ◌≤◌, ◌≡◌, ◌≢◌, refl, ◌∙◌, pos, true, List, some, none, is_some, arith, Bool-cases,
  inl, inr, Returns, returns, ◌^◌, ◌%◌,
}
use torch_server.Timer.{Timer}
use torch_server.Http.Conn.{Conn}
use torch_server.Http.Conn as HttpConn
use torch_server.Http.Response.{unmap_file}
use torch_server.Epoller.Laws.{interest-del_fd, ctl_others}
use torch_server.Epoller.{Kernel, IsLawful, CtlOp, no_events, del_fd, interest}
use torch_server.Server.{Server, close_conn, client, find}
use torch_server.Server.Users.{opens, opens_at, count_open, find-store, count_open_positive}
use torch_server.Server.Healthy.{IsHealthyBut, is_due, changed, changed-IsHealthy}

module _ {Prob : Type 0} {kernel : Kernel} where
  -- What a change by `close_conn` and by no other call leaves as it was.
  pub record IsSameRest (s s' : Server Prob kernel) : Type 0 where
    pub timer : s'.timer ≡ s.timer
    pub timeout_ms : s'.timeout_ms ≡ s.timeout_ms
    pub listen_fd : s'.listen_fd ≡ s.listen_fd
    pub tasks : s'.tasks ≡ s.tasks

  pub IsSameRest-trans :
      {s s' s'' : Server Prob kernel} → IsSameRest s s' → IsSameRest s' s'' → IsSameRest s s''
  IsSameRest-trans p q = record {
    timer = q.timer ∙ p.timer;
    timeout_ms = q.timeout_ms ∙ p.timeout_ms;
    listen_fd = q.listen_fd ∙ p.listen_fd;
    tasks = q.tasks ∙ p.tasks;
  }

  pub record IsShut (fd : ℕ) (s s' : Server Prob kernel) : Type 0 where
    pub closed : opens_at (find fd s'.users) ≡ 0
    pub stays : is_some (find fd s'.users) ≡ true
    pub unwatched : interest s'.epoller fd ≡ none
    pub left : s'.user_cnt + opens_at (find fd s.users) ≡ s.user_cnt
    pub others : (k : ℕ) → fd ≢ k → find k s'.users ≡ find k s.users
    pub watches : (k : ℕ) → fd ≢ k → interest s'.epoller k ≡ interest s.epoller k
    pub rest : IsSameRest s s'

  -- The server is healthy, and the connection is shut.
  abbrev pub Shut : List Timer → ℕ → ℕ → Server Prob kernel → Server Prob kernel → Type 0
  Shut due last fd s s' = IsHealthyBut due last s' × IsShut fd s s'

  module _ (lawful : IsLawful kernel) where
    module _ (due due' : List Timer) (last fd : ℕ) (s : Server Prob kernel)
        (v : IsHealthyBut due last s)
        (dues : (k : ℕ) → fd ≢ k → is_due k due ≡ true → is_due k due' ≡ true) where
      changed-Shut :
          (c c' : Conn Prob) (n : ℕ)
          → find fd s.users ≡ some c
          → c'.fd ≡ pos fd
          → opens c' ≡ 0
          → n + opens c ≡ s.user_cnt
          → Shut due' last fd s (changed fd c' (del_fd (pos fd) s.epoller).1 n s)
      unfolding del_fd
      changed-Shut c c' n there named shut count = (
        changed-IsHealthy fd c' (del_fd (pos fd) s.epoller).1 n s due due' last v named
            (rw there (omega arith)) (omega (arith, v.bounded))
            (λ k other. ctl_others lawful CtlOp.epoll_ctl_del fd k no_events s.epoller other)
            (λ mask q r. ground (arith, interest-del_fd lawful fd s.epoller))
            (λ q. absurd (omega arith)) dues,
        record {
          closed = ground (arith, find-store fd fd c' s.users);
          stays = ground (arith, find-store fd fd c' s.users);
          unwatched = interest-del_fd lawful fd s.epoller;
          left = rw there count;
          others = λ k q. ground (arith, find-store fd k c' s.users);
          watches = λ k other. ctl_others lawful CtlOp.epoll_ctl_del fd k no_events s.epoller other;
          rest = record { timer = refl; timeout_ms = refl; listen_fd = refl; tasks = refl };
        },
      )

      -- Over a lawful kernel: on a server that is healthy but for some callbacks still to run,
      -- `close_conn` of a known connection succeeds and leaves one that is healthy but for those
      -- callbacks that are due for other connections. The connection is closed and not watched,
      -- the count of users is one less if it was open and the same if not, and the other
      -- connections, all timers and the tasks are as before.
      pub close_conn_shuts :
          (c : Conn Prob)
          → find fd s.users ≡ some c
          → Returns (Shut due' last fd s) (close_conn fd s)
      unfolding close_conn client HttpConn.close_conn
      close_conn_shuts c there =
          let c' = record c { fd = pos fd; is_closed = true; response = unmap_file c.response } in
          rw (there, v.named fd c there)
            (elim (Bool-cases c.is_closed) [
              | inl shut ↦
                  rw shut
                    (returns (changed-Shut c c' s.user_cnt there refl refl (rw shut (omega arith))))
              | inr still ↦
                  let some_open : 1 ≤ count_open s.users =
                    ground (arith, count_open_positive fd s.users) in
                  let less : (s.user_cnt + (2 ^ 32 - 1)) % 2 ^ 32 ≡ s.user_cnt - 1 =
                    omega (arith, v.counted, v.bounded, some_open) in
                  rw (still, less)
                    (returns (
                      changed-Shut c c' (s.user_cnt - 1) there refl refl
                        (rw still (omega (arith, v.counted, some_open)))))
            ])
