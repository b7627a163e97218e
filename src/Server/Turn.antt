-- ===== src/Server/Turn.antt =====
-- code/server/server.cpp: one turn of a connection, from the request that `on_read_` takes to the
-- answer that `on_write_` sends.
use torch_server.Base.{
  ℕ, ◌+◌, ◌≡◌, refl, ◌∙◌, sym, ap, Bool, true, false, List, length, some, none, arith, Returns,
  returns, Returns-map, Returns-bind, Returns-and, pos,
}
use torch_server.Buffer.{Count}
use torch_server.Buffer.Valid.{IsValid}
use torch_server.Http.Request.{is_keep_alive}
use torch_server.Http.Conn.{Conn, bytes_to_write, reset, write}
use torch_server.Http.Conn.Identity.{Same, write-Same}
use torch_server.Http.Conn.Write.{IsReady, pending, Stops, AreTaken, sum, then_stop}
use torch_server.Http.Conn.Page.{IsIdle}
use torch_server.Http.Conn.Turn.{reset-IsIdle, write_whole}
use torch_server.Epoller.{Events, with_in, Kernel, IsLawful, epoll_ctl_mod, mod_fd, interest, ctl}
use torch_server.Server.{Server, on_write, after_write, client, find, rearm, is_zero}
use torch_server.Server.Users.{opens, opens_at, find-store}
use torch_server.Server.Healthy.{IsHealthy}
use torch_server.Server.Tasks.{rearmed, close_back, Same-opens}

-- What epoll_ctl(2) says of `EPOLL_CTL_MOD` on a descriptor that is watched: it succeeds.
abbrev pub CanModify : Kernel → Type 0
CanModify kernel =
    (fd : ℕ) (old mask : Events) (state : kernel.State)
    → kernel.interest state fd ≡ some old
    → (kernel.epoll_ctl epoll_ctl_mod fd mask state).0 ≡ true

module _ {Prob : Type 0} {kernel : Kernel} where
  -- The connection under `fd` is open and watched for the events of `mask`.
  pub record IsWatched (fd : ℕ) (c : Conn Prob) (mask : Events) (s : Server Prob kernel)
      : Type 0 where
    pub there : find fd s.users ≡ some c
    pub is_open : opens c ≡ 1
    pub watch : interest s.epoller fd ≡ some mask

  -- The next request can come: the connection is as at its start.
  abbrev pub Waits : ℕ → Server Prob kernel → Server Prob kernel → Type 0
  Waits fd s s' =
      (c : Conn Prob) × IsWatched fd c (with_in s.conn_event) s'
      × IsIdle c
      × (s'.user_cnt ≡ s.user_cnt)

  -- The connection is closed and its user is gone.
  abbrev pub Over : ℕ → Server Prob kernel → Server Prob kernel → Type 0
  Over fd s s' =
      (opens_at (find fd s'.users) ≡ 0)
      × (interest s'.epoller fd ≡ none)
      × (s'.user_cnt + 1 ≡ s.user_cnt)

  abbrev pub After : Bool → ℕ → Server Prob kernel → Server Prob kernel → Type 0
  After true fd s s' = Waits fd s s'
  After false fd s s' = Over fd s s'

  pub After-from :
      (keep : Bool) (fd : ℕ) (s s₂ s' : Server Prob kernel)
      → s₂.conn_event ≡ s.conn_event
      → s₂.user_cnt ≡ s.user_cnt
      → After keep fd s₂ s'
      → After keep fd s s'
  After-from true fd s s₂ s' mask count (c, w, idle, same) = (
    c,
    record {
      there = w.there;
      is_open = w.is_open;
      watch = w.watch ∙ ap (λ e. some (with_in e)) mask;
    },
    idle,
    same ∙ count,
  )
  After-from false fd s s₂ s' mask count (shut, unwatched, less) = (shut, unwatched, less ∙ count)

  module _ (lawful : IsLawful kernel) (modifies : CanModify kernel) (last fd : ℕ)
      (s : Server Prob kernel) (v : IsHealthy last s) (c : Conn Prob) (old : Events)
      (w : IsWatched fd c old s) where
    was_open : c.is_closed ≡ false
    was_open = ground (arith, w.is_open)

    -- A connection that is stored back and watched for other events.
    pub rearm_watches :
        (c' : Conn Prob) (mask : Events)
        → Same c c'
        → IsHealthy last (rearm fd c' mask s) × IsWatched fd c' mask (rearm fd c' mask s)
    unfolding rearm mod_fd ctl
    rearm_watches c' mask same =
        let (named, opens_same) = Same-opens lawful last fd s v c w.there c' same in
        (
          rearmed lawful last fd s v c w.there c' mask named opens_same,
          record {
            there = ground (arith, find-store fd fd c' s.users);
            is_open = opens_same ∙ w.is_open;
            watch = rw named (
                lawful.modified fd mask s.epoller.state
                  (modifies fd old mask s.epoller.state w.watch));
          },
        )

    -- After an answer that is sent as a whole the connection waits again, or is closed.
    after_write_whole :
        (keep : Bool) (ret : Count) (c' : Conn Prob)
        → Same c c'
        → bytes_to_write c' ≡ pos 0
        → is_keep_alive c'.request ≡ keep
        → IsValid c'.read_buff
        → IsValid c'.write_buff
        → Returns (λ s'. IsHealthy last s' × After keep fd s s') (after_write ret fd c' s)
    unfolding after_write is_zero rearm reset
    after_write_whole true ret c' (named, same) sent keeps reading writing =
        let (v', w') = rearm_watches (reset c') (with_in s.conn_event) (named, sym was_open) in
        rw (sent, keeps) (returns (v', (reset c', w', reset-IsIdle c' reading writing, refl)))
    after_write_whole false ret c' same sent keeps reading writing =
        let (named, opens_same) = Same-opens lawful last fd s v c w.there c' same in
        rw (sent, keeps)
          (Returns-map (close_back lawful last fd s v c w.there c' named opens_same)
            λ s' (v', shut). (
              v',
              (
                shut.closed,
                shut.unwatched,
                ground (arith, shut.left, find-store fd fd c' s.users, w.is_open),
              ),
            ))

    pub on_write_whole :
        (ns : List ℕ) (stop : Count)
        → s.et ≡ true
        → IsReady c
        → IsValid c.read_buff
        → Stops stop
        → AreTaken ns (length (pending c))
        → sum ns ≡ length (pending c)
        → Returns
            (λ s'. IsHealthy last s' × After (is_keep_alive c.request) fd s s')
            (on_write (then_stop ns stop) fd s)
    unfolding on_write client
    on_write_whole ns stop edge ready reading stops taken all = rw w.there (
        Returns-bind sends λ (ret, c') ((sent, request, reading', writing), same).
          after_write_whole (is_keep_alive c.request) ret c' same sent (ap is_keep_alive request)
            reading' writing)
      where
        sends :
            Returns
              (λ (ret, c').
                ((bytes_to_write c' ≡ pos 0)
                  × (c'.request ≡ c.request)
                  × IsValid c'.read_buff
                  × IsValid c'.write_buff)
                × Same c c')
              (write s.et (then_stop ns stop) c)
        sends = rw edge (
            Returns-and (write_whole ns stop c stops ready reading taken all)
              (write-Same true (then_stop ns stop) c))
