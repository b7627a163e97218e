-- ===== src/Server/Tasks.antt =====
-- code/server/server.cpp, `on_read_` and `on_write_`: what the worker threads do to the server.
use torch_server.Base.{
  ℕ, ◌≡◌, refl, sym, ◌∙◌, ap, pos, List, [], some, arith, ◌==◌, Option-cases, inl, inr, not,
  if◌then◌else◌, ◌&&◌, Bytes, Safely, safe, Safely-bind, Safely-if, Returns→Safely, Returns,
  returns, Returns-map, Returns-if,
}
use torch_server.Buffer.{Count, ReadV}
use torch_server.Http.Conn.{Conn, bytes_to_write, reset}
use torch_server.Http.Conn.Identity.{Count-cases, Same, read-Same, write-Same, process-Same}
use torch_server.Http.Verify.{Mysql}
use torch_server.Http.Request.{Classifier, World, is_keep_alive}
use torch_server.Http.Response.{Files}
use torch_server.Epoller.{Events, Kernel, IsLawful, CtlOp, interest, mod_fd, with_in, with_out}
use torch_server.Epoller.Laws.{ctl_others, interest-mod_fd}
use torch_server.Server.{
  Server, on_write, after_write, rearm, client, find, store, is_zero, eagain, close_conn,
}
use torch_server.Server.Loop.{after_read, on_read}
use torch_server.Server.Users.{opens, find-store}
use torch_server.Server.Healthy.{IsHealthy, changed-IsHealthy}
use torch_server.Server.Closing.{close_conn_shuts, IsShut}

module _ {Prob : Type 0} {kernel : Kernel} (lawful : IsLawful kernel) (last fd : ℕ)
    (s : Server Prob kernel) (v : IsHealthy last s) (c : Conn Prob)
    (there : find fd s.users ≡ some c) where
  -- A connection stored back that is as open as before.
  pub stored_back :
      (c' : Conn Prob)
      → c'.fd ≡ pos fd
      → opens c' ≡ opens c
      → IsHealthy last (record s { users = store fd c' s.users })
  stored_back c' named same =
      changed-IsHealthy fd c' s.epoller s.user_cnt s [] [] last v named (rw there (omega arith))
        v.bounded (λ k other. refl) (λ mask q r. ground (arith, v.watched fd mask q r))
        (λ q timeout r. ground (arith, (v.timed timeout r).covered fd)) λ k q r. r

  pub rearmed :
      (c' : Conn Prob) (mask : Events)
      → c'.fd ≡ pos fd
      → opens c' ≡ opens c
      → IsHealthy last (rearm fd c' mask s)
  unfolding rearm mod_fd
  rearmed c' mask named same =
      changed-IsHealthy fd c' (mod_fd c'.fd mask s.epoller).1 s.user_cnt s [] [] last v named
        (rw there (omega arith)) v.bounded
        (λ k other. rw named (ctl_others lawful CtlOp.epoll_ctl_mod fd k mask s.epoller other))
        (λ mask' q r. elim (Option-cases (interest s.epoller fd)) [
          | inl unwatched ↦
              absurd (ground (arith, interest-mod_fd lawful fd mask s.epoller unwatched))
          | inr (old, watched) ↦ ground (arith, v.watched fd old q watched)
        ])
        (λ q timeout r. ground (arith, (v.timed timeout r).covered fd)) λ k q r. r

  pub close_back :
      (c' : Conn Prob)
      → c'.fd ≡ pos fd
      → opens c' ≡ opens c
      → Returns
          (λ s'. IsHealthy last s' × IsShut fd (record s { users = store fd c' s.users }) s')
          (close_conn fd (record s { users = store fd c' s.users }))
  close_back c' named same =
      close_conn_shuts lawful [] [] last fd (record s { users = store fd c' s.users })
        (stored_back c' named same) (λ k q r. r) c' (ground (arith, find-store fd fd c' s.users))

  pub Same-opens : (c' : Conn Prob) → Same c c' → (c'.fd ≡ pos fd) × (opens c' ≡ opens c)
  Same-opens c' (named, same) = (named ∙ v.named fd c there, ap (λ b. if b then 0 else 1) same)

  after_write-IsHealthy :
      (ret : Count) (c' : Conn Prob)
      → opens c ≡ 1
      → Same c c'
      → Returns (IsHealthy last) (after_write ret fd c' s)
  unfolding after_write reset
  after_write-IsHealthy ret c' is_open same =
      let (named, opens_same) = Same-opens c' same in
      Returns-if (is_zero (bytes_to_write c'))
        (λ all_sent.
          Returns-if (is_keep_alive c'.request)
            (λ keeps. returns (rearmed (reset c') (with_in s.conn_event) named (sym is_open)))
            λ ends. Returns-map (close_back c' named opens_same) λ s' (v', _). v')
        λ more. elim (Count-cases ret) [
          | inl (errno, e) ↦ rw e (
              Returns-if (errno == eagain)
                (λ again. returns (rearmed c' (with_out s.conn_event) named opens_same))
                λ fails. Returns-map (close_back c' named opens_same) λ s' (v', _). v')
          | inr (n, e) ↦ rw e (Returns-map (close_back c' named opens_same) λ s' (v', _). v')
        ]

  pub on_write-IsHealthy :
      (counts : List Count) → opens c ≡ 1 → Safely (IsHealthy last) (on_write counts fd s)
  unfolding on_write client
  on_write-IsHealthy counts is_open = rw there (
      Safely-bind (write-Same s.et counts c)
        λ (ret, c') same. Returns→Safely (after_write-IsHealthy ret c' is_open same))

module _ (sql : Mysql) (model : Classifier) (files : Files) (prob_text : model.Prob → Bytes)
    (src_dir : Bytes) where
  open model use {Prob}

  module _ {kernel : Kernel} (lawful : IsLawful kernel) (last fd : ℕ) (s : Server Prob kernel)
      (w : World sql model) (v : IsHealthy last s) (c : Conn Prob)
      (there : find fd s.users ≡ some c) where
    after_read-IsHealthy :
        Safely
          (λ (s', w'). IsHealthy last s')
          (after_read sql model files prob_text src_dir fd (s, w))
    unfolding after_read client
    after_read-IsHealthy = rw there (
        Safely-bind (process-Same sql model files prob_text src_dir c w) λ (done, c', w') same.
          let (named, opens_same) = Same-opens lawful last fd s v c there c' same in
          safe (
            rearmed lawful last fd s v c there c'
              (if done then with_out s.conn_event else with_in s.conn_event) named opens_same))

  module _ {kernel : Kernel} (lawful : IsLawful kernel) (last fd : ℕ) (s : Server Prob kernel)
      (w : World sql model) (v : IsHealthy last s) (c : Conn Prob)
      (there : find fd s.users ≡ some c) where
    pub on_read-IsHealthy :
        (outcomes : List ReadV)
        → Safely
            (λ (s', w'). IsHealthy last s')
            (on_read sql model files prob_text src_dir outcomes fd (s, w))
    unfolding on_read client
    on_read-IsHealthy outcomes = rw there (
        Safely-bind (read-Same s.et outcomes 0 c) λ (ret, read_errno, c') same.
          let (named, opens_same) = Same-opens lawful last fd s v c there c' same in
          Safely-if (ret == 0 && not (read_errno == eagain))
            (λ ends.
              Safely-bind
                (Returns→Safely (close_back lawful last fd s v c there c' named opens_same))
                λ s' (v', _). safe v')
            λ goes_on.
              after_read-IsHealthy lawful last fd (record s { users = store fd c' s.users }) w
                (stored_back lawful last fd s v c there c' named opens_same) c'
                (ground (arith, find-store fd fd c' s.users)))
