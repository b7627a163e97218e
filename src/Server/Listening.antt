-- ===== src/Server/Listening.antt =====
-- code/server/server.cpp, `deal_listen_`: the connections that one event brings in.
use torch_server.Base.{
  ℕ, suc, ◌+◌, ◌^◌, ◌≤◌, ◌<◌, ◌≡◌, refl, sym, ◌∙◌, ap, Bool, true, false, List, [], ◌∷◌, arith,
  ◌==◌, if◌then◌else◌, not, ◌&&◌, Returns-if, Returns, returns, Returns-map, Returns-bind, leb,
  lt→ltb, ltb,
}
use torch_server.Epoller.{Events, Kernel, IsLawful}
use torch_server.Server.{
  Server, Accept, Accepted, refused, accepted, find, max_fd, deal_listen, send_error,
}
use torch_server.Server.Loop.{is_listen_fd}
use torch_server.Server.Users.{opens_at}
use torch_server.Server.Healthy.{IsHealthy, later-IsHealthy}
use torch_server.Server.Arriving.{IsFresh, IsAdded, add_client_adds}

-- What the calls of `accept` give, up to the first that is refused, all fresh and different, at times
-- from `last` to `until`.
abbrev pub AreFresh : (ℕ → Bool) → ℕ → ℕ → List Accept → Type 0
AreFresh free until last [] = ⊥
AreFresh free until last (refused ∷ later) = Unit {0}
AreFresh free until last (accepted a ∷ later) =
    (0 < a.fd)
    × (a.fd < 2 ^ 31)
    × (last ≤ a.now)
    × (a.now ≤ until)
    × (free a.fd ≡ true)
    × AreFresh (λ k. free k && not (a.fd == k)) until a.now later

-- How many of them one call of `deal_listen` takes: all, or the first.
unfoldable pub arrivals : Bool → List Accept → ℕ
arrivals et [] = 0
arrivals et (refused ∷ later) = 0
arrivals et (accepted a ∷ later) = if et then suc (arrivals et later) else 1

abbrev pub at_most : ℕ → ℕ → ℕ
at_most most n = if leb n most then n else most

module _ {Prob : Type 0} {kernel : Kernel} where
  -- `k` is neither the listening socket nor an open connection.
  abbrev pub is_free : Server Prob kernel → ℕ → Bool
  is_free s k = not (is_listen_fd k s.listen_fd) && opens_at (find k s.users) == 0

  pub record IsListened (until : ℕ) (n : ℕ) (s s' : Server Prob kernel) : Type 0 where
    pub healthy : IsHealthy until s'
    pub user_cnt : s'.user_cnt ≡ at_most max_fd (s.user_cnt + n)
    pub kept : (k : ℕ) → opens_at (find k s.users) ≡ 1 → find k s'.users ≡ find k s.users
    pub listen_fd : s'.listen_fd ≡ s.listen_fd

  same-IsListened :
      (until last n : ℕ) (s : Server Prob kernel)
      → IsHealthy last s
      → last ≤ until
      → s.user_cnt ≡ at_most max_fd (s.user_cnt + n)
      → IsListened until n s s
  same-IsListened until last n s v q e = record {
    healthy = later-IsHealthy [] last until s v q;
    user_cnt = e;
    kept = λ k q. refl;
    listen_fd = refl;
  }

  next-IsListened :
      (until n : ℕ) (a : Accepted) (s s' s'' : Server Prob kernel)
      → opens_at (find a.fd s.users) ≡ 0
      → IsAdded a s s'
      → IsListened until n s' s''
      → IsListened until (suc n) s s''
  next-IsListened until n a s s' s'' unused d l = record {
    healthy = l.healthy;
    user_cnt = ground (arith, l.user_cnt, d.user_cnt);
    kept = λ k q. ground (arith, l.kept k, d.others k, unused);
    listen_fd = l.listen_fd ∙ d.listen_fd;
  }

  module _ (lawful : IsLawful kernel) where
    takes :
        (et : Bool) (accepts : List Accept) (free : ℕ → Bool) (until last : ℕ)
        (s : Server Prob kernel)
        → IsHealthy last s
        → last ≤ until
        → ((k : ℕ) → free k ≡ true → is_free s k ≡ true)
        → AreFresh free until last accepts
        → s.listen_event.epollet ≡ et
        → Returns (IsListened until (arrivals et accepts) s) (deal_listen accepts s)
    unfolding deal_listen arrivals send_error
    takes et [] free until last s v q frees fresh flag = elim fresh [ ]
    takes et (refused ∷ later) free until last s v q frees fresh flag =
        returns (same-IsListened until last 0 s v q (ground (arith, v.bounded)))
    takes et (accepted a ∷ later) free until last s v q frees
          (positive, small, late, before, here, fresh) flag =
        Returns-if (leb max_fd s.user_cnt && ltb s.user_cnt (2 ^ 31))
          (λ full.
            rw (lt→ltb 0 a.fd positive)
              (returns (same-IsListened until last _ s v q (ground (arith, v.bounded)))))
          λ room.
            let f : IsFresh last a s = record {
              positive = positive;
              small = small;
              later = late;
              other = ground (arith, frees a.fd here);
              unused = ground (arith, frees a.fd here);
            } in
            Returns-bind (add_client_adds lawful last a s v f (ground arith)) λ s' (v', d).
              Returns-if s'.listen_event.epollet
                (λ on.
                  let e : et ≡ true =
                    sym flag ∙ sym (ap (λ (m : Events). m.epollet) d.listen_event) ∙ on in
                  rw e (
                    Returns-map
                      (takes et later (λ k. free k && not (a.fd == k)) until a.now s' v' before
                        (λ k q. ground (arith, frees k, d.others k, d.listen_fd)) fresh
                        (ap (λ (m : Events). m.epollet) d.listen_event ∙ flag))
                      λ s'' l. next-IsListened until (arrivals et later) a s s' s'' f.unused d l))
                λ off.
                  let e : et ≡ false =
                    sym flag ∙ sym (ap (λ (m : Events). m.epollet) d.listen_event) ∙ off in
                  rw e (
                    returns (
                      next-IsListened until 0 a s s' s' f.unused d
                        (same-IsListened until a.now 0 s' v' before (ground (arith, v'.bounded)))))

    -- Over a lawful kernel, on a healthy server, where what `accept` gives is fresh, at times from
    -- `last` to `until`: `deal_listen` succeeds and leaves a healthy server. In edge-triggered
    -- mode it takes all connections up to the first `accept` that is refused, in level-triggered
    -- mode one, and no more than `MAX_FD` users in all; the open connections are as they were.
    pub deal_listen_takes :
        (accepts : List Accept) (until last : ℕ) (s : Server Prob kernel)
        → IsHealthy last s
        → last ≤ until
        → AreFresh (is_free s) until last accepts
        → Returns
            (IsListened until (arrivals s.listen_event.epollet accepts) s)
            (deal_listen accepts s)
    deal_listen_takes accepts until last s v q fresh =
        takes s.listen_event.epollet accepts (is_free s) until last s v q (λ k r. r) fresh refl

--
