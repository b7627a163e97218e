-- ===== src/ThreadPool/Steps.antt =====
-- code/pool/thread_pool.h: the steps of the threads. No task is lost, and none waits for a thread
-- that sleeps.
use torch_server.Base.{
  ℕ, zero, suc, ◌+◌, ◌<◌, ◌≡◌, refl, ◌∙◌, sym, ap, true, false, List, [], ◌∷◌, ◌++◌, append_assoc,
  arith, ◌⊎◌, inl, inr,
}
use torch_server.ThreadPool.{Pool, Round, round, notify_one, add_task, shutdown}

-- The pool, with the tasks that were added and those that were started.
pub record History (Task : Type 0) : Type 0 where
  pub pool : Pool Task
  pub added : List Task
  pub started : List Task

pub data Step {Task : Type 0} : History Task → History Task → Type 0 where
  add :
      {h : History Task} (task : Task)
      → h.pool.is_closed ≡ false
      → Step h (record h { pool = add_task task h.pool; added = h.added ++ task ∷ [] })
  start :
      {h : History Task} {n : ℕ} {task : Task} {rest : List Task}
      → h.pool.ready ≡ suc n
      → round h.pool ≡ Round.runs task rest
      → Step h (record h {
        pool = record h.pool { tasks = rest; ready = n; busy = h.pool.busy + 1 };
        started = h.started ++ task ∷ [];
      })
  sleep :
      {h : History Task} {n : ℕ}
      → h.pool.ready ≡ suc n
      → round h.pool ≡ Round.waits_for_task
      → Step h (record h { pool = record h.pool { ready = n; waiting = h.pool.waiting + 1 } })
  leave :
      {h : History Task} {n : ℕ}
      → h.pool.ready ≡ suc n
      → round h.pool ≡ Round.leaves
      → Step h (record h { pool = record h.pool { ready = n; exited = h.pool.exited + 1 } })
  finish :
      {h : History Task} {n : ℕ}
      → h.pool.busy ≡ suc n
      → Step h (record h { pool = record h.pool { busy = n; ready = h.pool.ready + 1 } })
  spurious :
      {h : History Task} {n : ℕ}
      → h.pool.waiting ≡ suc n
      → Step h (record h { pool = record h.pool { waiting = n; ready = h.pool.ready + 1 } })
  destroy : {h : History Task} → Step h (record h { pool = shutdown h.pool })

pub data Reach {Task : Type 0} : History Task → History Task → Type 0 where
  stay : {h : History Task} → Reach h h
  then_step : {h h' h'' : History Task} → Reach h h' → Step h' h'' → Reach h h''

-- Every task was started or is stored, in order; while tasks are stored some thread is awake; and
-- until the pool is closed there is a thread that has not returned.
pub record IsServed {Task : Type 0} (h : History Task) : Type 0 where
  pub in_order : h.started ++ h.pool.tasks ≡ h.added
  pub awake : (h.pool.tasks ≡ []) ⊎ (0 < h.pool.ready + h.pool.busy)
  pub staffed : h.pool.is_closed ≡ false → 0 < h.pool.ready + h.pool.busy + h.pool.waiting

module _ {Task : Type 0} where
  round-runs_inv :
      (p : Pool Task) {task : Task} {rest : List Task}
      → round p ≡ Round.runs task rest
      → p.tasks ≡ task ∷ rest
  unfolding round
  round-runs_inv p e = ground (arith, e)

  round_idle :
      (p : Pool Task) → (round p ≡ Round.waits_for_task) ⊎ (round p ≡ Round.leaves) → p.tasks ≡ []
  unfolding round
  round_idle p e = ground (arith, e)

  round-leaves_inv : (p : Pool Task) → round p ≡ Round.leaves → p.is_closed ≡ true
  unfolding round
  round-leaves_inv p e = ground (arith, e)

  round_stored :
      (p : Pool Task) {task : Task} {rest : List Task}
      → p.tasks ≡ task ∷ rest
      → round p ≡ Round.runs task rest
  unfolding round
  round_stored p e = rw e

  -- Where there is a thread, a notification leaves one awake.
  notify_one_lem :
      (q : Pool Task) (waiting : ℕ)
      → q.waiting ≡ waiting
      → 0 < q.ready + q.busy + q.waiting
      → ((notify_one q).tasks ≡ q.tasks)
        × ((notify_one q).is_closed ≡ q.is_closed)
        × (0 < (notify_one q).ready + (notify_one q).busy)
  unfolding notify_one
  notify_one_lem q zero e some_thread = rw (notify_one, e) (refl, refl, omega arith)
  notify_one_lem q (suc n) e some_thread = rw (notify_one, e) (refl, refl, omega arith)

  Step-IsServed : {h h' : History Task} → Step h h' → IsServed h → IsServed h'
  unfolding shutdown add_task
  Step-IsServed {h} (Step.add task is_open) v =
      let q = record h.pool { tasks = h.pool.tasks ++ task ∷ [] } in
      let (same_tasks, same_closed, now_awake) =
        notify_one_lem q q.waiting refl (v.staffed is_open) in
      record {
        in_order =
            ap (◌++◌ h.started) same_tasks
            ∙ sym (append_assoc h.started h.pool.tasks (task ∷ []))
            ∙ ap (λ l. l ++ task ∷ []) v.in_order;
        awake = inr now_awake;
        staffed = λ c. omega (arith, now_awake);
      }
  Step-IsServed {h} (Step.start {n = n} {task} {rest} some_ready e) v = record {
    in_order =
        append_assoc h.started (task ∷ []) rest
        ∙ ap (◌++◌ h.started) (sym (round-runs_inv h.pool e))
        ∙ v.in_order;
    awake = inr (omega arith);
    staffed = λ c. omega arith;
  }
  Step-IsServed {h} (Step.sleep some_ready e) v = record {
    in_order = v.in_order;
    awake = inl (round_idle h.pool (inl e));
    staffed = λ c. omega arith;
  }
  Step-IsServed {h} (Step.leave some_ready e) v = record {
    in_order = v.in_order;
    awake = inl (round_idle h.pool (inr e));
    staffed = λ c. absurd (ground (arith, c, round-leaves_inv h.pool e));
  }
  Step-IsServed {h} (Step.finish some_busy) v = record {
    in_order = v.in_order;
    awake = inr (omega arith);
    staffed = λ c. omega arith;
  }
  Step-IsServed {h} (Step.spurious some_waiting) v = record {
    in_order = v.in_order;
    awake = inr (omega arith);
    staffed = λ c. omega arith;
  }
  Step-IsServed {h} Step.destroy v = record {
    in_order = v.in_order;
    awake = elim v.awake [ inl e ↦ inl e | inr some_awake ↦ inr (omega arith) ];
    staffed = λ c. absurd (ground (arith, c));
  }

  -- In every state that is reached from one where this holds, in particular from a new pool: the
  -- tasks that were started and then those that are stored are the added ones, in order; while a
  -- task is stored, some thread is awake; and until the pool is closed some thread has not
  -- returned.
  pub Reach-IsServed : {h h' : History Task} → Reach h h' → IsServed h → IsServed h'
  Reach-IsServed Reach.stay v = v
  Reach-IsServed (Reach.then_step run step) v = Step-IsServed step (Reach-IsServed run v)

  -- In a state that is reached from one where these hold, with a stored task and no thread in a
  -- task, the first stored task can be started.
  pub Reach-start :
      {h h' : History Task} (task : Task) (rest : List Task)
      → Reach h h'
      → IsServed h
      → h'.pool.tasks ≡ task ∷ rest
      → h'.pool.busy ≡ 0
      → (h'' : History Task) × Step h' h'' × (h''.started ≡ h'.started ++ task ∷ [])
  unfolding round
  Reach-start {h} {h'} task rest run v stored none_busy = by_ready h'.pool.ready refl
    where
      sound : IsServed h'
      sound = Reach-IsServed run v

      by_ready :
          (n : ℕ)
          → h'.pool.ready ≡ n
          → (h'' : History Task) × Step h' h'' × (h''.started ≡ h'.started ++ task ∷ [])
      by_ready zero e = absurd (ground (arith, e, sound.awake, stored, none_busy))
      by_ready (suc n) e = (_, Step.start {rest = rest} e (round_stored h'.pool stored), refl)
