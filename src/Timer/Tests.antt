-- ===== src/Timer/Tests.antt =====
-- Runs and instances of the theorems on the timer heap.
use torch_server.Base.{
  ℕ, zero, suc, ◌≤◌, ◌<◌, ◌≡◌, refl, List, [], ◌∷◌, some, none, ok, Returns, arith, update, Run,
  map, fault, ◌>>=◌,
}
use torch_server.Timer.{
  Timer, TimerHeap, empty, add_timer, adjust, rm_timer, tick, get_next_tick, less, load, position,
  swap_node, sift_up, sift_up_loop, sift_down, sift_down_loop, earlier_child, settle, del,
  drop_back, pop, tick_loop, is_later, remaining,
}
use torch_server.Timer.Nodes.{at}
use torch_server.Timer.Order.{key, up}
use torch_server.Timer.Update.{IsValid}
use torch_server.Timer.Laws.{Stored, Removed, add_timer_stores, adjust_stores, rm_timer_removes}
use torch_server.Timer.Tick.{Ticked, tick_fires}

abbrev all_of : ℕ
unfolding empty add_timer adjust rm_timer tick get_next_tick less load position swap_node sift_up
    sift_up_loop sift_down sift_down_loop earlier_child settle del drop_back pop tick_loop is_later
    remaining
all_of = 0

abbrev timer : ℕ → ℕ → Timer
timer id expires = record { id = id; expires = expires; cb = 0 }

abbrev sample : TimerHeap
sample = record {
  heap = timer 5 2_000_000 ∷ timer 7 9_000_000 ∷ [];
  ref = update (update (λ id. none) 5 0) 7 1;
}

located : (i : ℕ) → i < 2 → sample.ref (at sample.heap i).id ≡ some i
located zero h = refl
located (suc zero) h = refl
located (suc (suc i)) h = absurd (omega arith)

stored : (k i : ℕ) → sample.ref k ≡ some i → (i < 2) × ((at sample.heap i).id ≡ k)
stored k zero e = ground arith
stored k (suc zero) e = ground arith
stored k (suc (suc i)) e = absurd (ground arith)

ordered : (c : ℕ) → 0 < c → c < 2 → key sample.heap (up c) ≤ key sample.heap c
ordered zero p q = absurd (omega arith)
ordered (suc zero) p q = omega arith
ordered (suc (suc c)) p q = absurd (omega arith)

sample-IsValid : IsValid sample
sample-IsValid = record {
  placed = record { located = located; stored = stored };
  ordered = ordered;
  bounded = omega arith;
}

-- A timer that is earlier than the root rises to it.
abbrev front_ids : Run (List Timer × TimerHeap) → List ℕ
front_ids (ok (ran, h)) = map (λ (t : Timer). t.id) h.heap
front_ids (fault e) = []

add_runs : front_ids (add_timer 0 9 1 0 sample >>= λ h. ok ([], h)) ≡ 9 ∷ 7 ∷ 5 ∷ []
unfolding all_of
add_runs = refl

tick_runs : front_ids (tick (λ k. 2_000_000) sample) ≡ 7 ∷ []
unfolding all_of
tick_runs = refl

add_timer_stores_example : Returns (Stored (timer 9 1_000_000) sample) (add_timer 0 9 1 0 sample)
add_timer_stores_example = add_timer_stores sample sample-IsValid 0 9 1 0 (omega arith)

adjust_stores_example : Returns (Stored (timer 5 8_000_000) sample) (adjust 3_000_000 5 5 sample)
adjust_stores_example =
    adjust_stores sample sample-IsValid 3_000_000 5 5 (timer 5 2_000_000) refl (omega arith)

rm_timer_removes_example :
    Returns (λ (ran, h'). (ran ≡ timer 5 2_000_000 ∷ []) × Removed 5 sample h') (rm_timer 5 sample)
rm_timer_removes_example = rm_timer_removes sample sample-IsValid 5 (timer 5 2_000_000) refl

tick_fires_example : Returns (Ticked (λ k. 2_000_000) sample) (tick (λ k. 2_000_000) sample)
tick_fires_example = tick_fires (λ k. 2_000_000) sample sample-IsValid

sample_waits : tick (λ k. 0) sample ≡ ok ([], sample)
unfolding all_of
sample_waits = refl
