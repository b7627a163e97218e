-- ===== src/Server/Opening.antt =====
-- code/server/server.cpp, `init_socket_`: the socket is watched or closed.
use torch_server.Base.{
  ℕ, ◌<◌, ◌≡◌, ◌≢◌, refl, ℤ, pos, negsuc, Bool, true, false, not, ◌&&◌, List, [], ◌∷◌, some, arith,
  lt→ltb, Returns, returns, Returns-if, if◌then◌else◌,
}
use torch_server.Epoller.{Kernel, IsLawful, CtlOp, interest, with_in, add_fd, ctl}
use torch_server.Server.{Server}
use torch_server.Server.Loop.{is_listen_fd}
use torch_server.Server.Socket.{
  SocketCalls, is_bad_port, is_negative, is_minus_one, set_fd_nonblock, watch_listen, init_socket,
}

-- No port is refused.
no_bad_port : (port : ℤ) → is_bad_port port ≡ false
unfolding is_bad_port
no_bad_port (pos n) = ground arith
no_bad_port (negsuc n) = refl

-- All calls up to `listen` succeed.
unfoldable pub all_succeed : SocketCalls → Bool
all_succeed calls =
    not (is_negative calls.socket)
    && (not (is_negative calls.set_linger)
        && (not (is_minus_one calls.set_reuse)
            && (not (is_negative calls.bind) && not (is_negative calls.listen))))

-- The socket, where there is one.
unfoldable pub opened : SocketCalls → List ℤ
opened calls = if is_negative calls.socket then [] else calls.socket ∷ []

-- The calls with this result of `socket`.
abbrev got : ℤ → SocketCalls → SocketCalls
got socket calls = record calls { socket = socket }

module _ {Prob : Type 0} {kernel : Kernel} (lawful : IsLawful kernel) where
  -- What `init_socket` leaves: the socket is watched or closed, and the rest is as it was.
  pub record IsListening (calls : SocketCalls) (s : Server Prob kernel)
      (out : Bool × List ℤ × Server Prob kernel) : Type 0 where
    pub succeeds :
        out.0 ≡ (all_succeed calls && (add_fd calls.socket (with_in s.listen_event) s.epoller).0)
    pub closed : out.1 ≡ (if out.0 then [] else opened calls)
    pub watches :
        out.0 ≡ true
        → (fd : ℕ) → calls.socket ≡ pos fd
        → interest out.2.epoller fd ≡ some (with_in s.listen_event)
    pub others :
        (k : ℕ)
        → is_listen_fd k calls.socket ≡ false
        → interest out.2.epoller k ≡ interest s.epoller k
    pub users : out.2.users ≡ s.users
    pub user_cnt : out.2.user_cnt ≡ s.user_cnt
    pub timer : out.2.timer ≡ s.timer
    pub listen_fd : out.2.listen_fd ≡ calls.socket
    pub is_closed : out.2.is_closed ≡ s.is_closed
    pub rest : out.2 ≡ record s { listen_fd = calls.socket; epoller = out.2.epoller }

  watch_listen-IsListening :
      (calls : SocketCalls) (fd : ℕ) (s : Server Prob kernel)
      → 0 < fd
      → all_succeed (got (pos fd) calls) ≡ true
      → Returns
          (IsListening (got (pos fd) calls) s)
          (watch_listen (record s { listen_fd = pos fd }))
  unfolding watch_listen set_fd_nonblock add_fd ctl is_listen_fd opened is_negative
  watch_listen-IsListening calls fd s positive good =
      let mask = with_in s.listen_event in
      let other = λ (k : ℕ) (q : is_listen_fd k (pos fd) ≡ false).
        lawful.others CtlOp.epoll_ctl_add fd k mask s.epoller.state (ground arith) in
      Returns-if (kernel.epoll_ctl CtlOp.epoll_ctl_add fd mask s.epoller.state).0
        (λ success. rw (lt→ltb 0 fd positive) (
          returns (record {
            succeeds = rw (good, success) refl;
            closed = refl;
            watches = λ _ k e. ground (arith, lawful.added fd mask s.epoller.state success);
            others = other;
            users = refl;
            user_cnt = refl;
            timer = refl;
            listen_fd = refl;
            is_closed = refl;
            rest = refl;
          })))
        λ failure. returns (record {
          succeeds = rw (good, failure) refl;
          closed = refl;
          watches = λ q. absurd (ground arith);
          others = other;
          users = refl;
          user_cnt = refl;
          timer = refl;
          listen_fd = refl;
          is_closed = refl;
          rest = refl;
        })

  -- The calls fail: the socket, if there is one, is closed.
  refused-IsListening :
      (calls : SocketCalls) (s : Server Prob kernel)
      → all_succeed calls ≡ false
      → IsListening calls s (false, opened calls, record s { listen_fd = calls.socket })
  refused-IsListening calls s bad = record {
    succeeds = rw bad refl;
    closed = refl;
    watches = λ q. absurd (ground arith);
    others = λ k q. refl;
    users = refl;
    user_cnt = refl;
    timer = refl;
    listen_fd = refl;
    is_closed = refl;
    rest = refl;
  }

  listens :
      (socket : ℤ) (calls : SocketCalls) (s : Server Prob kernel)
      → socket ≢ pos 0
      → Returns (IsListening (got socket calls) s) (init_socket (got socket calls) s)
  unfolding init_socket all_succeed opened is_negative
  listens (negsuc n) calls s positive =
      rw (no_bad_port s.port) (returns (refused-IsListening (got (negsuc n) calls) s refl))
  listens (pos fd) calls s positive =
      let fails = λ (bad : all_succeed (got (pos fd) calls) ≡ false).
        refused-IsListening (got (pos fd) calls) s bad in
      rw (no_bad_port s.port) (
        Returns-if (is_negative calls.set_linger) (λ q. returns (fails (rw q refl)))
          λ linger.
            Returns-if (is_minus_one calls.set_reuse) (λ q. returns (fails (rw (linger, q) refl)))
              λ reuse.
                Returns-if (is_negative calls.bind)
                  (λ q. returns (fails (rw (linger, reuse, q) refl)))
                  λ binds.
                    Returns-if (is_negative calls.listen)
                      (λ q. returns (fails (rw (linger, reuse, binds, q) refl)))
                      λ ok_listen.
                        watch_listen-IsListening calls fd s (ground arith)
                          (rw (linger, reuse, binds, ok_listen) refl))

  pub init_socket_listens :
      (calls : SocketCalls) (s : Server Prob kernel)
      → calls.socket ≢ pos 0
      → Returns (IsListening calls s) (init_socket calls s)
  init_socket_listens calls s positive = listens calls.socket calls s positive
