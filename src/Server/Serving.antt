-- ===== src/Server/Serving.antt =====
-- code/server/server.cpp, `deal_read_`, `deal_write_`, `extent_time_` and the dispatch of an event.
use torch_server.Base.{
  ℕ, ◌+◌, ◌≤◌, ◌≡◌, ◌≢◌, refl, sym, ◌∙◌, ap, true, false, ◌||◌, [], ◌∷◌, ◌++◌, some, arith, ◌==◌,
  Option-cases, inl, inr, if◌then◌else◌, ◌⊎◌, Returns, returns, Returns-map, Returns-bind,
  Returns-if,
}
use torch_server.Timer.{ms}
use torch_server.Timer.Nodes.{view, view_inv}
use torch_server.Timer.Laws.{adjust_stores}
use torch_server.Http.Conn.{Conn}
use torch_server.Epoller.{Events, Kernel, IsLawful, interest}
use torch_server.Server.{
  Server, Task, read_task, write_task, extent_time, deal_read, deal_write, add_task, client, find,
  limit,
}
use torch_server.Server.Loop.{is_listen_fd, Input, handle_event, with_user}
use torch_server.Server.Users.{opens, opens_at}
use torch_server.Server.Healthy.{
  IsHealthy, is_due, armed-IsHealthy, later-IsHealthy, noted-IsHealthy, due-IsHealthy,
}
use torch_server.Server.Closing.{close_conn_shuts}
use torch_server.Server.Listening.{AreFresh, is_free, deal_listen_takes}

module _ {Prob : Type 0} {kernel : Kernel} where
  -- The timer of `fd`, where there is one, now ends a limit after `now`.
  pub record IsExtended (fd now : ℕ) (s s' : Server Prob kernel) : Type 0 where
    pub expiry :
        (timeout : ℕ) (k : ℕ)
        → limit s.timeout_ms ≡ some timeout
        → view s'.timer k ≡ (
            if fd == k
            then some (record { id = fd; expires = now + ms timeout; cb = fd })
            else view s.timer k)
    pub users : s'.users ≡ s.users
    pub epoller : s'.epoller ≡ s.epoller
    pub user_cnt : s'.user_cnt ≡ s.user_cnt
    pub listen_fd : s'.listen_fd ≡ s.listen_fd

  module _ (last now fd : ℕ) (s : Server Prob kernel) (v : IsHealthy last s) (later : last ≤ now)
      (c : Conn Prob) (there : find fd s.users ≡ some c) (is_open : opens c ≡ 1) where
    -- On a healthy server the assertion of `adjust` holds for every open connection: `extent_time`
    -- succeeds, leaves a healthy server, and moves the end of that connection's timer only.
    pub extent_time_extends :
        Returns
          (λ s'. IsHealthy now s' × IsExtended fd now s s' × (s'.tasks ≡ s.tasks))
          (extent_time now c s)
    unfolding extent_time is_due
    extent_time_extends = elim (Option-cases (limit s.timeout_ms)) [
      | inl unlimited ↦
          rw (extent_time, unlimited)
            (returns (
              later-IsHealthy [] last now s v later,
              record {
                expiry = λ timeout k q. absurd (ground arith);
                users = refl;
                epoller = refl;
                user_cnt = refl;
                listen_fd = refl;
              },
              refl,
            ))
      | inr (timeout, limited) ↦
          let t = v.timed timeout limited in
          elim (Option-cases (view s.timer fd)) [
            | inl unarmed ↦ absurd (ground (arith, t.covered fd))
            | inr (old, armed) ↦
                let (_, _, _, _, named) = view_inv s.timer fd old t.valid.placed armed in
                let late : old.expires ≤ now + ms timeout = omega (arith, t.early fd old armed) in
                let new = record old { expires = now + ms timeout } in
                rw (extent_time, limited, v.named fd c there)
                  (Returns-bind (adjust_stores s.timer t.valid now fd timeout old armed late)
                    λ h stored. returns (
                      armed-IsHealthy new h now s
                          (due-IsHealthy (new ∷ []) now s (later-IsHealthy [] last now s v later))
                          stored (t.called fd old armed ∙ sym named)
                          (ground (arith, t.small fd old armed)) (ground arith)
                          (λ timeout' q. ground arith),
                      record {
                        expiry = λ timeout' k q. ground (arith, stored.1 k, t.called fd old armed);
                        users = refl;
                        epoller = refl;
                        user_cnt = refl;
                        listen_fd = refl;
                      },
                      refl,
                    ))
          ]
    ]

    -- On a healthy server `deal_read` and `deal_write` of an open connection queue one task.
    dealt :
        (task : Task) (s' : Server Prob kernel)
        → IsHealthy now s' × IsExtended fd now s s' × (s'.tasks ≡ s.tasks)
        → IsHealthy now (add_task task s')
          × IsExtended fd now s (add_task task s')
          × ((add_task task s').tasks ≡ s.tasks ++ task ∷ [])
    unfolding add_task
    dealt task s' (v', e, same) = (
      noted-IsHealthy s'.total_cnt (s'.tasks ++ task ∷ []) s'.epoller.events [] now s' v',
      record {
        expiry = e.expiry;
        users = e.users;
        epoller = e.epoller;
        user_cnt = e.user_cnt;
        listen_fd = e.listen_fd;
      },
      ap (λ tasks. tasks ++ task ∷ []) same,
    )

    pub deal_read_queues :
        Returns
          (λ s'.
            IsHealthy now s' × IsExtended fd now s s' × (s'.tasks ≡ s.tasks ++ read_task fd ∷ []))
          (deal_read now fd s)
    unfolding deal_read client
    deal_read_queues =
        rw there (Returns-bind extent_time_extends λ s' e. returns (dealt (read_task fd) s' e))

    pub deal_write_queues :
        Returns
          (λ s'.
            IsHealthy now s' × IsExtended fd now s s' × (s'.tasks ≡ s.tasks ++ write_task fd ∷ []))
          (deal_write now fd s)
    unfolding deal_write client
    deal_write_queues =
        rw there (Returns-bind extent_time_extends λ s' e. returns (dealt (write_task fd) s' e))

module _ {Prob : Type 0} {kernel : Kernel} where
  -- A descriptor that epoll can report: the listening socket, or one that is watched.
  abbrev pub CanReport : ℕ → Server Prob kernel → Type 0
  CanReport fd s =
      (is_listen_fd fd s.listen_fd ≡ true) ⊎ ((mask : Events) × (interest s.epoller fd ≡ some mask))

-- What the handler of an event of `fd` leaves of the other connections.
pub record LeavesOthers {Prob : Type 0} {kernel : Kernel} (fd : ℕ) (s s' : Server Prob kernel)
    : Type 0 where
  pub stay : (k : ℕ) → fd ≢ k → opens_at (find k s.users) ≡ 1 → opens_at (find k s'.users) ≡ 1
  pub free :
      is_listen_fd fd s.listen_fd ≡ false → (k : ℕ) → is_free s k ≡ true → is_free s' k ≡ true
  pub listen_fd : s'.listen_fd ≡ s.listen_fd

extended-LeavesOthers :
    {Prob : Type 0} {kernel : Kernel} (fd now : ℕ) (s s' : Server Prob kernel)
    → IsExtended fd now s s'
    → LeavesOthers fd s s'
extended-LeavesOthers fd now s s' e = record {
  stay = λ k q r. ap (λ users. opens_at (find k users)) e.users ∙ r;
  free = λ _ k q. ground (arith, ap (find k) e.users, e.listen_fd);
  listen_fd = e.listen_fd;
}

module _ {Prob : Type 0} {kernel : Kernel} (lawful : IsLawful kernel) where
  watched_open :
      (last fd : ℕ) (s : Server Prob kernel)
      → IsHealthy last s
      → CanReport fd s
      → is_listen_fd fd s.listen_fd ≡ false
      → opens_at (find fd s.users) ≡ 1
  watched_open last fd s v (inl listens) other = absurd (ground arith)
  watched_open last fd s v (inr (mask, watched)) other = v.watched fd mask other watched

  -- The handler of an event of the listening socket or an open connection.
  pub handle_live :
      (input : Input) (fd : ℕ) (events : Events) (last : ℕ) (s : Server Prob kernel)
      → IsHealthy last s
      → last ≤ input.now
      → (is_listen_fd fd s.listen_fd ≡ true → AreFresh (is_free s) input.now last input.accepts)
      → (is_listen_fd fd s.listen_fd ≡ false → opens_at (find fd s.users) ≡ 1)
      → Returns
          (λ s'. IsHealthy input.now s' × LeavesOthers fd s s')
          (handle_event input fd events s)
  unfolding handle_event with_user
  handle_live input fd events last s v later fresh live =
      Returns-if (is_listen_fd fd s.listen_fd)
        (λ listens.
          Returns-map
            (deal_listen_takes lawful input.accepts input.now last s v later (fresh listens))
            λ s' l. (
              l.healthy,
              record {
                stay = λ k other q. ap opens_at (l.kept k q) ∙ q;
                free = λ other. absurd (ground arith);
                listen_fd = l.listen_fd;
              },
            ))
        λ other. elim (Option-cases (find fd s.users)) [
          | inl missing ↦ absurd (ground (arith, live other))
          | inr (c, there) ↦
              let is_open : opens c ≡ 1 = ground (arith, live other) in
              rw there (
                Returns-if (events.epollrdhup || (events.epollhup || events.epollerr))
                  (λ hangs.
                    Returns-map (close_conn_shuts lawful [] [] last fd s v (λ k q r. r) c there)
                      λ s' (v', shut). (
                        later-IsHealthy [] last input.now s' v' later,
                        record {
                          stay = λ k q r. ap opens_at (shut.others k q) ∙ r;
                          free = λ _ k q.
                              ground (arith, shut.closed, shut.others k, shut.rest.listen_fd);
                          listen_fd = shut.rest.listen_fd;
                        },
                      ))
                  λ _.
                    Returns-if events.epollin
                      (λ _.
                        Returns-map (deal_read_queues last input.now fd s v later c there is_open)
                          λ s' (v', e, _). (v', extended-LeavesOthers fd input.now s s' e))
                      λ _.
                        Returns-if events.epollout
                          (λ _.
                            Returns-map
                              (deal_write_queues last input.now fd s v later c there is_open)
                              λ s' (v', e, _). (v', extended-LeavesOthers fd input.now s s' e))
                          λ _. returns (
                            later-IsHealthy [] last input.now s v later,
                            record { stay = λ k q r. r; free = λ _ k q. q; listen_fd = refl },
                          ))
        ]

  -- Over a lawful kernel: on a healthy server `handle_event` succeeds and leaves a healthy server,
  -- whatever the events of a descriptor that epoll can report, if the clock does not go back and
  -- what `accept` gives is fresh: no assertion of a handler fails.
  pub handle_event-IsHealthy :
      (input : Input) (fd : ℕ) (events : Events) (last : ℕ) (s : Server Prob kernel)
      → IsHealthy last s
      → last ≤ input.now
      → AreFresh (is_free s) input.now last input.accepts
      → CanReport fd s
      → Returns (IsHealthy input.now) (handle_event input fd events s)
  handle_event-IsHealthy input fd events last s v later fresh can =
      Returns-map
        (handle_live input fd events last s v later (λ _. fresh) (watched_open last fd s v can))
        λ s' (v', _). v'
