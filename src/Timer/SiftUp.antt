-- ===== src/Timer/SiftUp.antt =====
-- code/timer/timer_heap.cpp, `sift_up_`: a timer moves up to its place.
use torch_server.Base.{
  ℕ, zero, suc, ◌+◌, ◌-◌, ◌^◌, ◌≤◌, ◌<◌, refl, length, arith, Returns, returns, Returns-if,
  Returns-map, lt→ltb, ltb-false, ltb,
}
use torch_server.Timer.{TimerHeap, parent, less, sift_up_loop, sift_up}
use torch_server.Timer.Nodes.{
  load-ok, IsPlaced, swapped, swap_node-ok, swapped-SameTimers, SameTimers, SameTimers-refl,
  SameTimers-trans,
}
use torch_server.Timer.Order.{key, up, parent-eq-up, IsHeap, IsHeapBelow, swapped-IsHeapBelow}

-- The same timers, in order on the first `n` places.
abbrev pub Sifted : ℕ → TimerHeap → TimerHeap → Type 0
Sifted n h h' = SameTimers n h h' × IsHeap n h'.heap

-- Below this size the wrapped parent of the root is beyond the array.
abbrev pub max_timers : ℕ
max_timers = 2 ^ 63 - 1

sift_up_loop_orders :
    (fuel n i : ℕ) (h : TimerHeap)
    → i < fuel
    → i < n
    → n ≤ length h.heap
    → length h.heap ≤ max_timers
    → IsPlaced h
    → IsHeapBelow n h.heap i
    → Returns (Sifted n h) (sift_up_loop fuel i h)
unfolding sift_up_loop less
sift_up_loop_orders zero n i h f hi hn hm p v = absurd (omega arith)
sift_up_loop_orders (suc fuel) n zero h f hi hn hm p v =
    rw (ltb-false (parent 0) (length h.heap) hm)
      (returns (SameTimers-refl n h p, λ c q r. v.edges c q r (omega arith)))
sift_up_loop_orders (suc fuel) n (suc i) h f hi hn hm p v =
    let j = up (suc i) in
    let this : suc i < length h.heap = omega arith in
    let above : j < length h.heap = omega arith in
    rw
      (
        parent-eq-up (suc i) (omega arith) (omega arith),
        lt→ltb j (length h.heap) above,
        load-ok h.heap j above,
        load-ok h.heap (suc i) this,
      )
      (Returns-if (ltb (key h.heap j) (key h.heap (suc i)))
        (λ settled. returns (SameTimers-refl n h p, λ c q r. ground (arith, v.edges c)))
        (λ below.
          let s = swapped-SameTimers (suc i) j h this above n hi (omega arith) p in
          rw (swap_node-ok (suc i) j h this above) (
            Returns-map
              (sift_up_loop_orders fuel n j (swapped (suc i) j h) (omega arith) (omega arith)
                (omega (arith, s.size)) (omega (arith, s.size)) s.placed
                (swapped-IsHeapBelow n (suc i) j h this above v hi (omega arith) refl
                  (ground arith)))
              λ h' t. (SameTimers-trans s t.0, t.1))))

-- A node that may be too early rises to its place.
pub sift_up_orders :
    (n i : ℕ) (h : TimerHeap)
    → i < n
    → n ≤ length h.heap
    → length h.heap ≤ max_timers
    → IsPlaced h
    → IsHeapBelow n h.heap i
    → Returns (Sifted n h) (sift_up i h)
unfolding sift_up
sift_up_orders n i h hi hn hm p v =
    rw (lt→ltb i (length h.heap) (omega arith))
      (sift_up_loop_orders (i + 1) n i h (omega arith) hi hn hm p v)
