-- ===== src/ThreadPool/Tests.antt =====
-- Runs of the pool, and instances of its theorems.
use torch_server.Base.{ℕ, ◌≡◌, refl, false, [], ◌∷◌, ◌++◌, fault, assertion, arith, inl}
use torch_server.ThreadPool.{init, round, notify_one, add_task}
use torch_server.ThreadPool.Steps.{History, Step, Reach, IsServed, Reach-IsServed, Reach-start}

no_threads : init {Task = ℕ} 0 ≡ fault assertion
unfolding init
no_threads = refl

abbrev one_thread : History ℕ
one_thread = record {
  pool = record { is_closed = false; tasks = []; ready = 1; busy = 0; waiting = 0; exited = 0 };
  added = [];
  started = [];
}

abbrev one_task : History ℕ
one_task = record {
  pool = record { is_closed = false; tasks = 7 ∷ []; ready = 1; busy = 0; waiting = 0; exited = 0 };
  added = 7 ∷ [];
  started = [];
}

-- The thread goes to sleep, and a task wakes it.
woken : Reach one_thread one_task
unfolding round add_task notify_one
woken =
    Reach.then_step (Reach.then_step Reach.stay (Step.sleep {n = 0} refl refl)) (Step.add 7 refl)

one_thread-IsServed : IsServed one_thread
one_thread-IsServed = record { in_order = refl; awake = inl refl; staffed = λ e. omega arith }

Reach-IsServed_example : IsServed one_task
Reach-IsServed_example = Reach-IsServed woken one_thread-IsServed

Reach-start_example : (h : History ℕ) × Step one_task h × (h.started ≡ [] ++ 7 ∷ [])
Reach-start_example = Reach-start 7 [] woken one_thread-IsServed refl refl
