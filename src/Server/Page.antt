-- ===== src/Server/Page.antt =====
-- code/server/server.cpp: a request for a page, from `on_read_` to the end of `on_write_`.
use torch_server.Base.{
  ℕ, ◌+◌, ◌^◌, ◌≤◌, ◌<◌, ◌≡◌, refl, ◌∙◌, sym, ap, subst, true, false, Bytes, List, [], ◌∷◌, length,
  length-append, ◌++◌, some, arith, Returns, returns, Returns-map, Returns-bind, Returns-and,
  ==-false, ◌>>=◌,
}
use torch_server.Buffer.{Count, delivered, refused, max_size, stack_size}
use torch_server.Http.Verify.{Mysql}
use torch_server.Http.Lines.{parse_path}
use torch_server.Http.Request.{Classifier, World}
use torch_server.Http.Request.Message.{Head, IsHead, render, request_line, render_fields}
use torch_server.Http.Response.{Files}
use torch_server.Http.Conn.{Conn}
use torch_server.Http.Conn.Identity.{process-Same}
use torch_server.Http.Conn.Write.{Stops, AreTaken, sum, then_stop}
use torch_server.Http.Conn.Page.{IsIdle, IsPage, IsAnswered, keeps_alive, page_answer, process_page}
use torch_server.Http.Conn.Turn.{read_request}
use torch_server.Epoller.{Events, no_events, with_out, Kernel, IsLawful, interest}
use torch_server.Server.{Server, on_write, client, find, store, rearm}
use torch_server.Server.Loop.{Input, on_read, after_read, handle_event, is_listen_fd, with_user}
use torch_server.Server.Users.{find-store}
use torch_server.Server.Healthy.{IsHealthy}
use torch_server.Server.Serving.{deal_write_queues}
use torch_server.Server.Tasks.{stored_back}
use torch_server.Server.Turn.{
  CanModify, IsWatched, After, After-from, rearm_watches, on_write_whole,
}
use torch_server.Server.Modes.{deal_write_modes}

module _ {Prob : Type 0} {kernel : Kernel} (h : Head) (mapped : Bytes) (last fd : ℕ) where
  -- The request is read and answered: the answer stands in the connection, which is watched for
  -- the place to send it.
  pub record IsPrepared (s s' : Server Prob kernel) : Type 0 where
    pub healthy : IsHealthy last s'
    pub conn : Conn Prob
    pub watched : IsWatched fd conn (with_out s.conn_event) s'
    pub answered : IsAnswered h mapped conn
    pub et : s'.et ≡ s.et
    pub conn_event : s'.conn_event ≡ s.conn_event
    pub user_cnt : s'.user_cnt ≡ s.user_cnt
    pub listen_fd : s'.listen_fd ≡ s.listen_fd

module _ (sql : Mysql) (model : Classifier) (files : Files) (prob_text : model.Prob → Bytes)
    (src_dir : Bytes) (h : Head) (mapped : Bytes)
    (p : IsPage files src_dir (parse_path h.path) mapped) (valid : IsHead h)
    (short : length (render h []) + 1 ≤ max_size)
    (small : length (page_answer h mapped) < 2 ^ 31) where
  open model use {Prob}

  module _ {kernel : Kernel} (lawful : IsLawful kernel) (modifies : CanModify kernel) (last fd : ℕ)
      (s : Server Prob kernel) (world : World sql model) (v : IsHealthy last s) (c : Conn Prob)
      (old : Events) (w : IsWatched fd c old s) (idle : IsIdle c)
      (fits : length (render h []) ≤ length c.read_buff.buffer + stack_size) where
    pub on_read_page :
        (errno : ℕ)
        → Returns
            (λ (s', world'). IsPrepared h mapped last fd s s' × (world' ≡ world))
            (on_read sql model files prob_text src_dir
              (delivered (render h []) ∷ refused errno ∷ [])
              fd
              (s, world))
    unfolding on_read after_read client rearm
    on_read_page errno =
        let request = render h [] in
        let (b', valid', u, run) = read_request s.et request errno c idle some_bytes fits short in
        let c₁ = record c { read_buff = b' } in
        let s₁ = record s { users = store fd c₁ s.users } in
        let found : find fd s₁.users ≡ some c₁ = ground (arith, find-store fd fd c₁ s.users) in
        rw (w.there, run, ==-false (length request) 0 (omega (arith, some_bytes)), found)
          (Returns-bind
            (Returns-and
              (process_page sql model files prob_text src_dir h mapped p c b' world valid idle
                valid' u (omega (arith, idle.write_start, small)) small)
              (process-Same sql model files prob_text src_dir c₁ world))
            λ (done, c', world') ((is_done, answered, same_world), same).
              let (healthy, watched) =
                rearm_watches lawful modifies last fd s₁
                  (stored_back lawful last fd s v c w.there c₁ (v.named fd c w.there) refl) c₁ old
                  (record { there = found; is_open = w.is_open; watch = w.watch }) c'
                  (with_out s.conn_event) same in
              rw is_done (
                returns (
                  record {
                    healthy = healthy;
                    conn = c';
                    watched = watched;
                    answered = answered;
                    et = refl;
                    conn_event = refl;
                    user_cnt = refl;
                    listen_fd = refl;
                  },
                  same_world,
                )))
      where
        some_bytes : 0 < length (render h [])
        some_bytes =
            unfold render in
            omega (
              arith,
              length-append (request_line h) (13 ∷ 10 ∷ (render_fields h.fields ++ 13 ∷ 10 ∷ [])),
            )

    -- The event for the place to send, and the task that it queues.
    pub on_write_page :
        (s' : Server Prob kernel) (input : Input) (ns : List ℕ) (stop : Count)
        → IsPrepared h mapped last fd s s'
        → s.et ≡ true
        → is_listen_fd fd s.listen_fd ≡ false
        → last ≤ input.now
        → Stops stop
        → AreTaken ns (length (page_answer h mapped))
        → sum ns ≡ length (page_answer h mapped)
        → Returns
            (λ s''. IsHealthy input.now s'' × After (keeps_alive h) fd s s'')
            (handle_event input fd (with_out no_events) s' >>= on_write (then_stop ns stop) fd)
    unfolding handle_event with_user
    on_write_page s' input ns stop q edge other later stops taken all =
        let c' = q.conn in
        rw (subst (λ n. is_listen_fd fd n ≡ false) (sym q.listen_fd) other, q.watched.there)
          (Returns-bind
            (Returns-and
              (deal_write_queues last input.now fd s' q.healthy later c' q.watched.there
                q.watched.is_open)
              (deal_write_modes input.now fd s'))
            λ s₂ ((v₂, e, tasks), (et, conn_event, _)).
              Returns-map
                (on_write_whole lawful modifies input.now fd s₂ v₂ c' (with_out s.conn_event)
                  (record {
                    there = ap (find fd) e.users ∙ q.watched.there;
                    is_open = q.watched.is_open;
                    watch = ap (λ k. interest k fd) e.epoller ∙ q.watched.watch;
                  })
                  ns stop (et ∙ q.et ∙ edge) q.answered.ready q.answered.reading stops
                  (subst (λ t. AreTaken ns (length t)) (sym q.answered.answer) taken)
                  (all ∙ sym (ap length q.answered.answer)))
                λ s₃ (v₃, after). (
                  v₃,
                  After-from (keeps_alive h) fd s s₂ s₃ (conn_event ∙ q.conn_event)
                      (e.user_cnt ∙ q.user_cnt)
                      (subst (λ keep. After keep fd s₂ s₃) q.answered.keeps after),
                ))

    -- Over a lawful kernel in which a watched descriptor can be watched for other events, and on a
    -- healthy server in edge-triggered mode, where `readv` delivers a whole well-formed request for a
    -- page that can be mapped to an open connection that waits: `on_read` succeeds and leaves the
    -- connection with exactly the answer to send, watched for `EPOLLOUT`. When that event is
    -- reported, no clock going back, and the calls of `writev` take the whole answer, handling the
    -- event and `on_write` succeed and leave a healthy server. With a request that keeps the
    -- connection alive it waits for the next one as before, and else it is closed and unwatched, and
    -- its user is gone.
    pub on_read-on_write :
        (errno : ℕ) (input : Input) (ns : List ℕ) (stop : Count)
        → s.et ≡ true
        → is_listen_fd fd s.listen_fd ≡ false
        → last ≤ input.now
        → Stops stop
        → AreTaken ns (length (page_answer h mapped))
        → sum ns ≡ length (page_answer h mapped)
        → Returns
            (λ (s', world').
              IsPrepared h mapped last fd s s'
              × (world' ≡ world)
              × Returns
                  (λ s''. IsHealthy input.now s'' × After (keeps_alive h) fd s s'')
                  (handle_event input fd (with_out no_events) s'
                    >>= on_write (then_stop ns stop) fd))
            (on_read sql model files prob_text src_dir
              (delivered (render h []) ∷ refused errno ∷ [])
              fd
              (s, world))
    on_read-on_write errno input ns stop edge other later stops taken all =
        Returns-map (on_read_page errno) λ (s', world') (q, same).
          (q, same, on_write_page s' input ns stop q edge other later stops taken all)
