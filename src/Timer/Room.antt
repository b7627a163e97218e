-- ===== src/Timer/Room.antt =====
-- code/timer/timer_heap.cpp: a heap whose ids are descriptors has room, since each id stands in the
-- array once.
use torch_server.Base.{ℕ, zero, suc, ◌^◌, ◌≤◌, ◌<◌, ◌≡◌, length, some, arith, ◌==◌, if◌then◌else◌}
use torch_server.Timer.{TimerHeap, Timer}
use torch_server.Timer.Nodes.{at, view}
use torch_server.Timer.Update.{IsValid, view-some}
use torch_server.Timer.SiftUp.{max_timers}

pigeonhole :
    (m n : ℕ) (f : ℕ → ℕ)
    → ((i : ℕ) → i < n → f i < m)
    → ((i j : ℕ) → i < n → j < n → f i ≡ f j → i ≡ j)
    → n ≤ m
pigeonhole m zero f below once = omega arith
pigeonhole zero (suc n) f below once = absurd (omega (arith, below 0 (omega arith)))
pigeonhole (suc m) (suc n) f below once =
    let g = λ (i : ℕ). if f i == m then f n else f i in
    let n≤m =
      pigeonhole m n g (λ i q. ground (arith, below i, below n, once i n))
        (λ i j q r e. ground (arith, once i j, once i n, once j n)) in
    omega arith

-- No id of the heap is above the range of an `int`.
abbrev pub AreDescriptors : TimerHeap → Type 0
AreDescriptors h = (k : ℕ) (t : Timer) → view h k ≡ some t → k < 2 ^ 31

pub descriptors_room : (h : TimerHeap) → IsValid h → AreDescriptors h → length h.heap < max_timers
descriptors_room h v small =
    let few =
      pigeonhole (2 ^ 31) (length h.heap) (λ i. (at h.heap i).id)
        (λ i q.
          small (at h.heap i).id (at h.heap i)
            (view-some h (at h.heap i).id i (v.placed.located i q)))
        λ i j q r e. ground (arith, v.placed.located i q, v.placed.located j r) in
    omega arith
