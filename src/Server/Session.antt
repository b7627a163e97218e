-- ===== src/Server/Session.antt =====
-- code/server/server.cpp: a connection that is kept alive, over any number of requests for pages.
use torch_server.Base.{
  ℕ, ◌^◌, ◌≤◌, ◌<◌, ◌≡◌, refl, ◌∙◌, sym, ap, subst, true, false, Bytes, List, [], ◌∷◌, length,
  arith, Run, ok, Returns, returns, Returns-map, Returns-bind, Returns-and, Safely-bind, Safely,
  Safely-map, ◌>>=◌, Safely-after, is_some, assert,
}
use torch_server.Buffer.{Count, delivered, refused, stack_size}
use torch_server.Http.Verify.{Mysql}
use torch_server.Http.Lines.{parse_path}
use torch_server.Http.Request.{Classifier, World}
use torch_server.Http.Request.Message.{Head, IsHead, render}
use torch_server.Http.Response.{Files}
use torch_server.Http.Conn.{Conn}
use torch_server.Http.Conn.Write.{Stops, AreTaken, sum, then_stop, pending}
use torch_server.Http.Conn.Page.{IsIdle, IsPage, keeps_alive, page_answer}
use torch_server.Epoller.{Events, no_events, with_in, with_out, Kernel, IsLawful, interest}
use torch_server.Server.{Server, on_write, client, find}
use torch_server.Server.Loop.{Input, on_read, handle_event, is_listen_fd, with_user}
use torch_server.Server.Healthy.{IsHealthy}
use torch_server.Server.Serving.{IsExtended, deal_read_queues}
use torch_server.Server.Modes.{Modes, deal_read_modes, deal_write_modes, on_write_modes}
use torch_server.Server.Turn.{CanModify, IsWatched, After}
use torch_server.Server.Page.{on_read_page, on_write_page}

-- A request, the page that it asks for, and what the system calls do until it is answered.
pub record Turn : Type 0 where
  pub head : Head
  pub mapped : Bytes
  pub arrives : Input
  pub errno : ℕ
  pub leaves : Input
  pub ns : List ℕ
  pub stop : Count

-- A request of one packet for a page that can be mapped, with no clock going back, where the calls of
-- `writev` take the whole answer.
pub record IsTurn (files : Files) (src_dir : Bytes) (last : ℕ) (t : Turn) : Type 0 where
  pub page : IsPage files src_dir (parse_path t.head.path) t.mapped
  pub valid : IsHead t.head
  pub keeps : keeps_alive t.head ≡ true
  pub short : length (render t.head []) ≤ stack_size
  pub small : length (page_answer t.head t.mapped) < 2 ^ 31
  pub arriving : last ≤ t.arrives.now
  pub leaving : t.arrives.now ≤ t.leaves.now
  pub stops : Stops t.stop
  pub taken : AreTaken t.ns (length (page_answer t.head t.mapped))
  pub all : sum t.ns ≡ length (page_answer t.head t.mapped)

abbrev pub AreTurns : Files → Bytes → ℕ → List Turn → Type 0
AreTurns files src_dir last [] = Unit {0}
AreTurns files src_dir last (t ∷ turns) =
    IsTurn files src_dir last t × AreTurns files src_dir t.leaves.now turns

-- The time of the last event.
abbrev pub time_after : ℕ → List Turn → ℕ
time_after last [] = last
time_after last (t ∷ turns) = time_after t.leaves.now turns

-- The answers that are due.
abbrev pub answers : List Turn → List Bytes
answers [] = []
answers (t ∷ turns) = page_answer t.head t.mapped ∷ answers turns

module _ {Prob : Type 0} {kernel : Kernel} (fd : ℕ) where
  -- The server is healthy, and the connection waits for a request.
  pub record IsWaiting (last : ℕ) (s : Server Prob kernel) : Type 0 where
    pub healthy : IsHealthy last s
    pub conn : Conn Prob
    pub mask : Events
    pub watched : IsWatched fd conn mask s
    pub idle : IsIdle conn
    pub edge : s.et ≡ true
    pub other : is_listen_fd fd s.listen_fd ≡ false

module _ (sql : Mysql) (model : Classifier) (files : Files) (prob_text : model.Prob → Bytes)
    (src_dir : Bytes) where
  open model use {Prob}

  module _ {kernel : Kernel} where
    -- The events of one request and its tasks, and the answer that was there to be sent.
    unfoldable pub serve_one :
        Turn
        → ℕ
        → Server Prob kernel × World sql model
        → Run (Bytes × Server Prob kernel × World sql model)
    serve_one t fd (s, world) = do
      s₁ ← handle_event t.arrives fd (with_in no_events) s
      (s₂, world') ←
          on_read sql model files prob_text src_dir
            (delivered (render t.head []) ∷ refused t.errno ∷ []) fd (s₁, world)
      c ← client fd s₂
      s₃ ← handle_event t.leaves fd (with_out no_events) s₂ >>= on_write (then_stop t.ns t.stop) fd
      ok (pending c, s₃, world')

    unfoldable pub serve :
        List Turn
        → ℕ
        → Server Prob kernel × World sql model
        → Run (List Bytes × Server Prob kernel × World sql model)
    serve [] fd (s, world) = ok ([], s, world)
    serve (t ∷ turns) fd (s, world) = do
      (answer, s', world') ← serve_one t fd (s, world)
      (later, s'', world'') ← serve turns fd (s', world')
      ok (answer ∷ later, s'', world'')

    write_modes :
        (input : Input) (counts : List Count) (fd : ℕ) (s : Server Prob kernel)
        → is_listen_fd fd s.listen_fd ≡ false
        → Safely (Modes s) (handle_event input fd (with_out no_events) s >>= on_write counts fd)
    unfolding handle_event with_user
    write_modes input counts fd s other = rw other (
        Safely-bind
          (Safely-after (assert (is_some (find fd s.users))) λ _. deal_write_modes input.now fd s)
          λ s' (et, mask, listens).
            Safely-map (on_write_modes counts fd s')
              λ s'' (et', mask', listens'). (et' ∙ et, mask' ∙ mask, listens' ∙ listens))

    module _ (lawful : IsLawful kernel) (modifies : CanModify kernel) (fd : ℕ) where
      arrives :
          (last : ℕ) (input : Input) (s : Server Prob kernel)
          → last ≤ input.now
          → (v : IsWaiting fd last s)
          → Returns
              (λ s'. (IsHealthy input.now s' × IsExtended fd input.now s s') × Modes s s')
              (handle_event input fd (with_in no_events) s)
      unfolding handle_event with_user
      arrives last input s later v =
          rw (v.other, v.watched.there)
            (Returns-map
              (Returns-and
                (deal_read_queues last input.now fd s v.healthy later v.conn v.watched.there
                  v.watched.is_open)
                (deal_read_modes input.now fd s))
              λ s' ((v', e, _), same). ((v', e), same))

      serve_one-answers :
          (last : ℕ) (t : Turn) (s : Server Prob kernel) (world : World sql model)
          → IsTurn files src_dir last t
          → IsWaiting fd last s
          → Returns
              (λ (answer, s', world').
                (answer ≡ page_answer t.head t.mapped)
                × (world' ≡ world)
                × IsWaiting fd t.leaves.now s'
                × (s'.user_cnt ≡ s.user_cnt))
              (serve_one t fd (s, world))
      unfolding serve_one client
      serve_one-answers last t s world g v =
          let c = v.conn in
          Returns-bind (arrives last t.arrives s g.arriving v)
            λ s₁ ((v₁, e), (et, conn_event, listens)).
              Returns-bind
                (on_read_page sql model files prob_text src_dir t.head t.mapped g.page g.valid
                  (omega (arith, g.short)) g.small lawful modifies t.arrives.now fd s₁ world v₁ c
                  v.mask (read_watched s₁ e) v.idle (omega (arith, g.short)) t.errno)
                λ (s₂, world') (q, same_world). rw q.watched.there (
                  Returns-bind
                    (Returns-and
                      (on_write_page sql model files prob_text src_dir t.head t.mapped g.page
                        g.valid (omega (arith, g.short)) g.small lawful modifies t.arrives.now fd s₁
                        world v₁ c v.mask (read_watched s₁ e) v.idle (omega (arith, g.short)) s₂
                        t.leaves t.ns t.stop q (et ∙ v.edge) (listening s₁ listens) g.leaving
                        g.stops g.taken g.all)
                      (write_modes t.leaves (then_stop t.ns t.stop) fd s₂
                        (listening s₂ (q.listen_fd ∙ listens))))
                    λ s₃ ((v₃, after), (et', mask', listens')).
                      let (c', w', idle', count) =
                        subst (λ keep. After keep fd s₁ s₃) g.keeps after in
                      returns (
                        q.answered.answer,
                        same_world,
                        record {
                          healthy = v₃;
                          conn = c';
                          mask = with_in s₁.conn_event;
                          watched = w';
                          idle = idle';
                          edge = et' ∙ q.et ∙ et ∙ v.edge;
                          other = listening s₃ (listens' ∙ q.listen_fd ∙ listens);
                        },
                        count ∙ e.user_cnt,
                      ))
        where
          read_watched :
              (s₁ : Server Prob kernel)
              → IsExtended fd t.arrives.now s s₁
              → IsWatched fd v.conn v.mask s₁
          read_watched s₁ e = record {
            there = ap (find fd) e.users ∙ v.watched.there;
            is_open = v.watched.is_open;
            watch = ap (λ k. interest k fd) e.epoller ∙ v.watched.watch;
          }

          listening :
              (s' : Server Prob kernel)
              → s'.listen_fd ≡ s.listen_fd
              → is_listen_fd fd s'.listen_fd ≡ false
          listening s' same = subst (λ n. is_listen_fd fd n ≡ false) (sym same) v.other

      -- Over a lawful kernel in which a watched descriptor can be watched for other events, and on a
      -- healthy server in edge-triggered mode, with an open connection that waits: where requests for
      -- pages that can be mapped come one after the other, each whole, well-formed, in at most 65535
      -- bytes and keeping the connection alive, no clock going back, and the calls of `writev` take
      -- each answer whole: every event and task succeeds, the answers are those to the requests, in
      -- order, and then the server is healthy, the connection waits, and the count of users is as
      -- it was.
      pub serve-answers :
          (turns : List Turn) (last : ℕ) (s : Server Prob kernel) (world : World sql model)
          → AreTurns files src_dir last turns
          → IsWaiting fd last s
          → Returns
              (λ (sent, s', world').
                (sent ≡ answers turns)
                × (world' ≡ world)
                × IsWaiting fd (time_after last turns) s'
                × (s'.user_cnt ≡ s.user_cnt))
              (serve turns fd (s, world))
      unfolding serve
      serve-answers [] last s world g v = returns (refl, refl, v, refl)
      serve-answers (t ∷ turns) last s world (g, more) v =
          Returns-bind (serve_one-answers last t s world g v)
            λ (answer, s', world') (first, same, v', count).
              Returns-bind (serve-answers turns t.leaves.now s' world' more v')
                λ (later, s'', world'') (rest, same', v'', count'). returns (
                  ap (λ a. a ∷ later) first ∙ ap (◌∷◌ (page_answer t.head t.mapped)) rest,
                  same' ∙ same,
                  v'',
                  count' ∙ count,
                )
