-- ===== src/Server/Reported.antt =====
-- code/server/server.cpp: no handler of an event touches the events that `epoll_wait` reported, or
-- ends the loop.
use torch_server.Base.{
  ℕ, ◌≡◌, refl, ◌∙◌, ap, ℤ, ℤ-cases, pos, negsuc, List, [], ◌∷◌, Bool, ◌||◌, is_some, Option-cases,
  inl, inr, ltb, leb, Safely, safe, broken, Safely-bind, Safely-if, Safely-after, Safely-map,
  assert, ◌^◌, ◌&&◌,
}
use torch_server.Timer.{adjust}
use torch_server.Http.Conn.{Conn}
use torch_server.Http.Conn as HttpConn
use torch_server.Epoller.{
  Events, Kernel, Epoller, EpollEvent, CtlOp, no_events, with_in, ctl, add_fd, del_fd,
}
use torch_server.Server.{
  Server, Accept, refused, accepted, find, limit, max_fd, client, close_conn, send_error, arm,
  user_or_new, add_client, deal_listen, extent_time, add_task, deal_read, deal_write,
}
use torch_server.Server.Loop.{Input, is_listen_fd, handle_event, with_user}

ctl-events :
    {kernel : Kernel} (op : CtlOp) (fd : ℤ) (mask : Events) (e : Epoller kernel)
    → (ctl op fd mask e).1.events ≡ e.events
unfolding ctl
ctl-events op (pos fd) mask e = refl
ctl-events op (negsuc n) mask e = refl

module _ {Prob : Type 0} {kernel : Kernel} where
  abbrev pub frame : Server Prob kernel → List EpollEvent × Bool
  frame s = (s.epoller.events, s.is_closed)

  abbrev pub reported : Server Prob kernel → List EpollEvent
  reported s = s.epoller.events

  pub close_conn-frame :
      (fd : ℕ) (s : Server Prob kernel) → Safely (λ s'. frame s' ≡ frame s) (close_conn fd s)
  unfolding close_conn del_fd
  close_conn-frame fd s = Safely-after (client fd s) λ c. safe (
      ap (λ events. (events, s.is_closed))
        (ctl-events CtlOp.epoll_ctl_del c.fd no_events s.epoller))

  deal_listen-frame :
      (accepts : List Accept) (s : Server Prob kernel)
      → Safely (λ s'. frame s' ≡ frame s) (deal_listen accepts s)
  unfolding deal_listen add_client add_fd send_error
  deal_listen-frame [] s = broken
  deal_listen-frame (refused ∷ later) s = safe refl
  deal_listen-frame (accepted a ∷ later) s =
      Safely-if (leb max_fd s.user_cnt && ltb s.user_cnt (2 ^ 31))
        (λ _. Safely-after (assert (ltb 0 a.fd)) λ _. safe refl)
        λ _.
          Safely-bind {Mid = λ s'. frame s' ≡ frame s}
            (Safely-after (assert (ltb 0 a.fd)) λ _.
              Safely-after (HttpConn.init a.fd (user_or_new a s.users, s.user_cnt)) λ (c, n).
                Safely-after (arm a.now a.fd s) λ timer. safe (
                  ap (λ events. (events, s.is_closed))
                    (ctl-events CtlOp.epoll_ctl_add (pos a.fd) (with_in s.conn_event) s.epoller)))
            λ s' same.
              Safely-if s'.listen_event.epollet
                (λ _. Safely-map (deal_listen-frame later s') λ s'' more. more ∙ same)
                λ _. safe same

  extent_time-frame :
      (now : ℕ) (c : Conn Prob) (s : Server Prob kernel)
      → Safely (λ s'. frame s' ≡ frame s) (extent_time now c s)
  unfolding extent_time
  extent_time-frame now c s = elim (Option-cases (limit s.timeout_ms)) [
    | inl unlimited ↦ rw (extent_time, unlimited) (safe refl)
    | inr (timeout, limited) ↦ elim (ℤ-cases c.fd) [
      | inl (n, e) ↦
          rw (extent_time, limited, e)
            (Safely-after (adjust now n timeout s.timer) λ timer. safe refl)
      | inr (n, e) ↦ rw (extent_time, limited, e) broken
    ]
  ]

  deal_read-frame :
      (now fd : ℕ) (s : Server Prob kernel) → Safely (λ s'. frame s' ≡ frame s) (deal_read now fd s)
  unfolding deal_read add_task
  deal_read-frame now fd s =
      Safely-after (client fd s) λ c. Safely-bind (extent_time-frame now c s) λ s' same. safe same

  deal_write-frame :
      (now fd : ℕ) (s : Server Prob kernel)
      → Safely (λ s'. frame s' ≡ frame s) (deal_write now fd s)
  unfolding deal_write add_task
  deal_write-frame now fd s =
      Safely-after (client fd s) λ c. Safely-bind (extent_time-frame now c s) λ s' same. safe same

  pub handle_event-frame :
      (input : Input) (fd : ℕ) (events : Events) (s : Server Prob kernel)
      → Safely (λ s'. frame s' ≡ frame s) (handle_event input fd events s)
  unfolding handle_event with_user
  handle_event-frame input fd events s =
      Safely-if (is_listen_fd fd s.listen_fd) (λ _. deal_listen-frame input.accepts s)
        λ _.
          Safely-if (events.epollrdhup || (events.epollhup || events.epollerr))
            (λ _. Safely-after (assert (is_some (find fd s.users))) λ _. close_conn-frame fd s)
            λ _.
              Safely-if events.epollin
                (λ _.
                  Safely-after (assert (is_some (find fd s.users)))
                    λ _. deal_read-frame input.now fd s)
                λ _.
                  Safely-if events.epollout
                    (λ _.
                      Safely-after (assert (is_some (find fd s.users)))
                        λ _. deal_write-frame input.now fd s)
                    λ _. safe refl
