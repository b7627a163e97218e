-- ===== src/Server/Reach.antt =====
-- code/server/server.cpp: the event loop and the worker threads as a step relation. The handler of an
-- event, the callbacks of the timers that are due, and a task are one step each.
use torch_server.Base.{
  ℕ, ◌≤◌, ◌≡◌, ◌≢◌, ◌∙◌, sym, ap, subst, ℤ, false, List, [], ◌∷◌, Bytes, Option, some, none,
  Option-cases, inl, inr, arith, ok, Safely-value, Returns, returns, Returns→Safely,
}
use torch_server.Buffer.{Count, ReadV}
use torch_server.Timer.{empty}
use torch_server.Timer.Nodes.{view}
use torch_server.Timer.Update.{IsValid}
use torch_server.Timer.Laws.{empty-IsValid}
use torch_server.Http.Verify.{Mysql}
use torch_server.Http.Request.{Classifier, World}
use torch_server.Http.Response.{Files}
use torch_server.Epoller.{Events, EpollEvent, Kernel, IsLawful, interest, wait}
use torch_server.Server.{Server, Task, read_task, write_task, find, limit, on_write, client}
use torch_server.Server.Loop.{Input, handle_event, is_listen_fd, next_wait, on_read}
use torch_server.Server.Users.{opens_at, count_open}
use torch_server.Server.Healthy.{IsHealthy, noted-IsHealthy}
use torch_server.Server.Expiry.{next_wait_expires}
use torch_server.Server.Listening.{AreFresh, is_free}
use torch_server.Server.Serving.{CanReport, handle_event-IsHealthy}
use torch_server.Server.Tasks.{on_write-IsHealthy, on_read-IsHealthy}

-- Before the first round: no connections, no timers, no tasks, and only the listening socket watched.
pub record IsStart {Prob : Type 0} {kernel : Kernel} (s : Server Prob kernel) : Type 0 where
  pub users : s.users ≡ []
  pub user_cnt : s.user_cnt ≡ 0
  pub timer : s.timer ≡ empty
  pub unwatched :
      (k : ℕ) (mask : Events)
      → is_listen_fd k s.listen_fd ≡ false
      → interest s.epoller k ≢ some mask

start-IsHealthy :
    {Prob : Type 0} {kernel : Kernel} (s : Server Prob kernel) → IsStart s → IsHealthy 0 s
unfolding count_open find
start-IsHealthy s b = record {
  counted = ground (arith, b.user_cnt, b.users);
  bounded = ground (arith, b.user_cnt);
  named = λ k c q. absurd (ground (arith, b.users));
  watched = λ k mask q r. absurd (b.unwatched k mask q r);
  timed = λ timeout q.
      let none_there = λ (k : ℕ). ap (λ h. view h k) b.timer ∙ empty-IsValid.1 k in
      record {
        valid = subst IsValid (sym b.timer) empty-IsValid.0;
        small = λ k t r. absurd (ground (arith, none_there k));
        called = λ k t r. absurd (ground (arith, none_there k));
        known = λ k t r. absurd (ground (arith, none_there k));
        early = λ k t r. absurd (ground (arith, none_there k));
        covered = λ k r. absurd (ground (arith, b.users));
      };
}

module _ (sql : Mysql) (model : Classifier) (files : Files) (prob_text : model.Prob → Bytes)
    (src_dir : Bytes) {kernel : Kernel} where
  open model use {Prob}

  -- One step, from a state at the time `last` to one at another.
  pub data Step
      : ℕ
        → Server Prob kernel × World sql model
        → ℕ
        → Server Prob kernel × World sql model
        → Type 0 where
    expires :
        (clock : ℕ → ℕ) (now last : ℕ) (time_ms : ℤ) (s s' : Server Prob kernel)
        (w : World sql model)
        → next_wait clock now s ≡ ok (time_ms, s')
        → Step last (s, w) last (s', w)
    waits :
        (ready : Option (List EpollEvent)) (last : ℕ) (s : Server Prob kernel) (w : World sql model)
        → Step last (s, w) last (record s { epoller = (wait ready s.epoller).1 }, w)
    handles :
        (input : Input) (fd : ℕ) (events : Events) (last : ℕ) (s s' : Server Prob kernel)
        (w : World sql model)
        → last ≤ input.now
        → AreFresh (is_free s) input.now last input.accepts
        → CanReport fd s
        → handle_event input fd events s ≡ ok s'
        → Step last (s, w) input.now (s', w)
    reads :
        (outcomes : List ReadV) (fd : ℕ) (rest : List Task) (last : ℕ) (s s' : Server Prob kernel)
        (w w' : World sql model)
        → s.tasks ≡ read_task fd ∷ rest
        → on_read sql model files prob_text src_dir outcomes fd (record s { tasks = rest }, w)
          ≡ ok (s', w')
        → Step last (s, w) last (s', w')
    writes :
        (counts : List Count) (fd : ℕ) (rest : List Task) (last : ℕ) (s s' : Server Prob kernel)
        (w : World sql model)
        → s.tasks ≡ write_task fd ∷ rest
        → opens_at (find fd s.users) ≡ 1
        → on_write counts fd (record s { tasks = rest }) ≡ ok s'
        → Step last (s, w) last (s', w)

  pub data Reach (s : Server Prob kernel) (w : World sql model)
      : ℕ → Server Prob kernel × World sql model → Type 0 where
    starts : Reach s w 0 (s, w)
    next :
        {last now : ℕ} {x y : Server Prob kernel × World sql model}
        → Reach s w last x
        → Step last x now y
        → Reach s w now y

module _ {Prob : Type 0} {kernel : Kernel} (lawful : IsLawful kernel) (last : ℕ)
    (s : Server Prob kernel) (v : IsHealthy last s) where
  pub expires-IsHealthy :
      (clock : ℕ → ℕ) (now : ℕ) (time_ms : ℤ) (s' : Server Prob kernel)
      → next_wait clock now s ≡ ok (time_ms, s')
      → IsHealthy last s'
  unfolding next_wait
  expires-IsHealthy clock now time_ms s' e = elim (Option-cases (limit s.timeout_ms)) [
    | inl unlimited ↦
        let out : Returns (λ (time, s''). IsHealthy last s'') (next_wait clock now s) =
          rw (next_wait, unlimited) (returns v) in
        Safely-value (Returns→Safely out) e
    | inr (timeout, limited) ↦
        (Safely-value (Returns→Safely (next_wait_expires lawful clock now last timeout s v limited))
          e).0
  ]

  pub waits-IsHealthy :
      (ready : Option (List EpollEvent))
      → IsHealthy last (record s { epoller = (wait ready s.epoller).1 })
  unfolding wait
  waits-IsHealthy none = v
  waits-IsHealthy (some ready) =
      noted-IsHealthy s.total_cnt s.tasks (wait (some ready) s.epoller).1.events [] last s v

  -- A task finds its connection.
  task-IsHealthy : (rest : List Task) → IsHealthy last (record s { tasks = rest })
  task-IsHealthy rest = noted-IsHealthy s.total_cnt rest s.epoller.events [] last s v

  writes-IsHealthy :
      (counts : List Count) (fd : ℕ) (rest : List Task) (s' : Server Prob kernel)
      → opens_at (find fd s.users) ≡ 1
      → on_write counts fd (record s { tasks = rest }) ≡ ok s'
      → IsHealthy last s'
  writes-IsHealthy counts fd rest s' is_open e = elim (Option-cases (find fd s.users)) [
    | inl missing ↦ absurd (ground arith)
    | inr (c, there) ↦
        Safely-value
          (on_write-IsHealthy lawful last fd (record s { tasks = rest }) (task-IsHealthy rest) c
            there counts (ground arith))
          e
  ]

module _ (sql : Mysql) (model : Classifier) (files : Files) (prob_text : model.Prob → Bytes)
    (src_dir : Bytes) {kernel : Kernel} (lawful : IsLawful kernel) where
  open model use {Prob}

  reads-IsHealthy :
      (outcomes : List ReadV) (fd : ℕ) (rest : List Task) (last : ℕ) (s s' : Server Prob kernel)
      (w w' : World sql model)
      → IsHealthy last s
      → on_read sql model files prob_text src_dir outcomes fd (record s { tasks = rest }, w)
        ≡ ok (s', w')
      → IsHealthy last s'
  unfolding on_read client
  reads-IsHealthy outcomes fd rest last s s' w w' v e = elim (Option-cases (find fd s.users)) [
    | inl missing ↦ absurd (ground arith)
    | inr (c, there) ↦
        Safely-value
          (on_read-IsHealthy sql model files prob_text src_dir lawful last fd
            (record s { tasks = rest }) w (task-IsHealthy lawful last s v rest) c there outcomes)
          e
  ]

  Step-IsHealthy :
      {last now : ℕ} {x y : Server Prob kernel × World sql model}
      → Step sql model files prob_text src_dir last x now y
      → IsHealthy last x.0
      → IsHealthy now y.0
  Step-IsHealthy (expires clock now last time_ms s s' w e) v =
      expires-IsHealthy lawful last s v clock now time_ms s' e
  Step-IsHealthy (waits ready last s w) v = waits-IsHealthy lawful last s v ready
  Step-IsHealthy (handles input fd events last s s' w later fresh can e) v =
      Safely-value
        (Returns→Safely (handle_event-IsHealthy lawful input fd events last s v later fresh can)) e
  Step-IsHealthy (reads outcomes fd rest last s s' w w' q e) v =
      reads-IsHealthy outcomes fd rest last s s' w w' v e
  Step-IsHealthy (writes counts fd rest last s s' w q is_open e) v =
      writes-IsHealthy lawful last s v counts fd rest s' is_open e

  module _ (s : Server Prob kernel) (w : World sql model) (start : IsStart s) where
    -- From its start on, over a lawful kernel, the server stays healthy, whatever the events that
    -- epoll reports of watched descriptors, the tasks and the timers, if the clock does not go
    -- back, what `accept` gives is fresh, and each task of `on_write_` finds its connection open:
    -- the count of users is that of the open connections and at most `MAX_FD`, the interest list
    -- has, next to the listening socket, open connections only, and with a time limit each open
    -- connection has a timer.
    pub Reach-IsHealthy :
        {last : ℕ} {x : Server Prob kernel × World sql model}
        → Reach sql model files prob_text src_dir s w last x
        → IsHealthy last x.0
    Reach-IsHealthy starts = start-IsHealthy s start
    Reach-IsHealthy (next before step) = Step-IsHealthy step (Reach-IsHealthy before)
