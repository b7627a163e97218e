-- ===== src/ThreadPool.antt =====
-- code/pool/thread_pool.h: the tasks and the worker threads. What happens under the lock is one step;
-- the condition variable is the number of threads that wait on it.
pub mod Steps
pub mod Tests
use torch_server.Base.{
  ℕ, zero, suc, ◌+◌, Bool, true, false, List, [], ◌∷◌, ◌++◌, assert, Run, ok, ◌>>=◌, ◌>>◌, ltb,
  if◌then◌else◌,
}

-- The threads: at the head of the loop or about to be, in a task, in the wait, and returned.
pub record Pool (Task : Type 0) : Type 0 where
  pub is_closed : Bool
  pub tasks : List Task
  pub ready : ℕ
  pub busy : ℕ
  pub waiting : ℕ
  pub exited : ℕ

-- What a thread does that holds the lock at the head of its loop.
pub data Round (Task : Type 0) : Type 0 where
  runs : Task → List Task → Round Task
  leaves waits_for_task : Round Task

module _ {Task : Type 0} where
  unfoldable pub init : ℕ → Run (Pool Task)
  init core_cnt = do
    assert (ltb 0 core_cnt)
    ok (record {
      is_closed = false;
      tasks = [];
      ready = core_cnt;
      busy = 0;
      waiting = 0;
      exited = 0;
    })

  unfoldable pub round : Pool Task → Round Task
  round p = elim p.tasks [
    | task ∷ rest ↦ runs task rest
    | [] ↦ if p.is_closed then leaves else waits_for_task
  ]

  -- One waiting thread goes on, if there is one.
  unfoldable pub notify_one : Pool Task → Pool Task
  notify_one p = elim p.waiting [ zero ↦ p | suc n ↦ record p { waiting = n; ready = p.ready + 1 } ]

  unfoldable pub add_task : Task → Pool Task → Pool Task
  add_task task p = notify_one (record p { tasks = p.tasks ++ task ∷ [] })

  -- The destructor closes the pool and notifies all.
  unfoldable pub shutdown : Pool Task → Pool Task
  shutdown p = record p { is_closed = true; waiting = 0; ready = p.ready + p.waiting }
