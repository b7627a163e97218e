-- ===== src/Timer/Sift.antt =====
-- code/timer/timer_heap.cpp, `sift_down_` and `add_timer`: they end, no assertion fails, and they
-- put one node that is out of place into order.
use torch_server.Base.{
  ℕ, zero, suc, ◌+◌, ◌-◌, ◌*◌, ◌≤◌, ◌<◌, ◌≡◌, refl, List, length, arith, ◌⊎◌, inl, ok, Returns,
  returns, Returns-if, Returns-bind, Returns-map, lt→ltb, ltb-false, le→leb, ltb, if◌then◌else◌,
  Bool, true, false,
}
use torch_server.Timer.{
  TimerHeap, Timer, less, swap_node, sift_up, earlier_child, sift_down_loop, sift_down, settle,
}
use torch_server.Timer.Nodes.{
  load-ok, IsPlaced, swapped, swap_node-ok, swapped-SameTimers, SameTimers, SameTimers-refl,
  SameTimers-trans,
}
use torch_server.Timer.Order.{
  key, up, IsHeap, IsHeapBelow, IsHeapAbove, IsHeapAround, IsEarliestChild, swapped-IsHeapAbove,
  IsHeapAbove-IsHeapAround,
}
use torch_server.Timer.SiftUp.{Sifted, max_timers, sift_up_orders}

child_cases : (c i : ℕ) → 0 < c → up c ≡ i → (c ≡ i * 2 + 1) ⊎ (c ≡ i * 2 + 1 + 1)
child_cases c i p e = omega arith

module _ (n : ℕ) (a : List Timer) (i : ℕ) where
  left-IsEarliestChild :
      i * 2 + 1 < n
      → (i * 2 + 1 + 1 < n → key a (i * 2 + 1) ≤ key a (i * 2 + 1 + 1))
      → IsEarliestChild n a i (i * 2 + 1)
  left-IsEarliestChild h k = record {
    inside = h;
    child = inl refl;
    earliest = λ c p q e. ground (arith, child_cases c i p e);
  }

  right-IsEarliestChild :
      i * 2 + 1 + 1 < n
      → key a (i * 2 + 1 + 1) ≤ key a (i * 2 + 1)
      → IsEarliestChild n a i (i * 2 + 1 + 1)
  right-IsEarliestChild h k = record {
    inside = h;
    child = omega arith;
    earliest = λ c p q e. ground (arith, child_cases c i p e);
  }

  earlier_child-IsEarliestChild :
      i * 2 + 1 < n → n ≤ length a → Returns (IsEarliestChild n a i) (earlier_child a (i * 2 + 1) n)
  unfolding earlier_child less
  earlier_child-IsEarliestChild h k =
      Returns-if (ltb (i * 2 + 1 + 1) n)
        (λ two.
          rw (load-ok a (i * 2 + 1 + 1) (ground arith), load-ok a (i * 2 + 1) (omega arith))
            (returns (pick (ltb (key a (i * 2 + 1 + 1)) (key a (i * 2 + 1))) refl (ground arith))))
        (λ one. returns (left-IsEarliestChild h (λ q. absurd (ground arith))))
    where
      pick :
          (b : Bool)
          → ltb (key a (i * 2 + 1 + 1)) (key a (i * 2 + 1)) ≡ b
          → i * 2 + 1 + 1 < n
          → IsEarliestChild n a i (if b then i * 2 + 1 + 1 else i * 2 + 1)
      pick true e q = right-IsEarliestChild q (ground arith)
      pick false e q = left-IsEarliestChild h (λ r. ground arith)

-- One round of `sift_down_` that swaps.
sink-SameTimers :
    (n i m : ℕ) (h : TimerHeap)
    → n ≤ length h.heap
    → IsPlaced h
    → IsEarliestChild n h.heap i m
    → (swap_node i m h ≡ ok (swapped i m h)) × SameTimers n h (swapped i m h) × (i < m)
sink-SameTimers n i m h hn p s =
    let hm : m < length h.heap = omega (arith, s.inside) in
    let hi : i < length h.heap = omega (arith, s.inside, s.child) in
    (
      swap_node-ok i m h hi hm,
      swapped-SameTimers i m h hi hm n (omega (arith, s.inside, s.child)) s.inside p,
      omega (arith, s.child),
    )

-- The order below `i` once `sift_down_` stops there.
settled-IsHeap :
    {n i m : ℕ} {a : List Timer}
    → IsEarliestChild n a i m
    → key a i < key a m
    → IsHeapAbove n a i
    → IsHeap n a
settled-IsHeap s below v c p q = ground (arith, v.edges c, s.earliest c)

sift_down_loop_orders :
    (fuel n i : ℕ) (h : TimerHeap)
    → n - i < fuel
    → i < length h.heap
    → n ≤ length h.heap
    → IsPlaced h
    → IsHeapAbove n h.heap i
    → Returns (λ (i', h'). Sifted n h h' × (i ≤ i')) (sift_down_loop fuel i n h)
unfolding sift_down_loop less
sift_down_loop_orders zero n i h f hi hn p v = absurd (omega arith)
sift_down_loop_orders (suc fuel) n i h f hi hn p v =
    Returns-if (ltb (i * 2 + 1) n)
      (λ inner. Returns-bind (earlier_child-IsEarliestChild n h.heap i (ground arith) hn) λ m s.
        let hm : m < length h.heap = omega (arith, s.inside) in
        rw (load-ok h.heap i hi, load-ok h.heap m hm)
          (Returns-if (ltb (key h.heap i) (key h.heap m))
            (λ stop.
              returns ((SameTimers-refl n h p, settled-IsHeap s (ground arith) v), omega arith))
            (λ sink.
              let (run, same, lower) = sink-SameTimers n i m h hn p s in
              rw run (
                Returns-map
                  (sift_down_loop_orders fuel n m (swapped i m h) (omega (arith, s.inside))
                    (omega (arith, same.size)) (omega (arith, same.size)) same.placed
                    (swapped-IsHeapAbove n i m h hi hm (IsHeapAbove-IsHeapAround v) s
                      (ground arith)))
                  λ (i', h') ((t, o), le). ((SameTimers-trans same t, o), omega arith)))))
      (λ leaf. returns ((SameTimers-refl n h p, λ c q r. ground (arith, v.edges c)), omega arith))

-- How `sift_down_` ends on a node that may be out of place either way.
pub data Sunk (n i : ℕ) (h : TimerHeap) : ℕ → TimerHeap → Type 0 where
  sank : {i' : ℕ} {h' : TimerHeap} → i < i' → Sifted n h h' → Sunk n i h i' h'
  stayed : {h' : TimerHeap} → SameTimers n h h' → IsHeapBelow n h'.heap i → Sunk n i h i h'

settled-IsHeapBelow :
    {n i m : ℕ} {a : List Timer}
    → IsEarliestChild n a i m
    → key a i < key a m
    → IsHeapAround n a i
    → IsHeapBelow n a i
settled-IsHeapBelow s below v = record {
  edges = λ c p q r. ground (arith, v.edges c, s.earliest c);
  bridged = v.bridged;
}

sift_down_loop-Sunk :
    (fuel n i : ℕ) (h : TimerHeap)
    → n - i < fuel
    → i < length h.heap
    → n ≤ length h.heap
    → IsPlaced h
    → IsHeapAround n h.heap i
    → Returns (λ (i', h'). Sunk n i h i' h') (sift_down_loop fuel i n h)
unfolding sift_down_loop less
sift_down_loop-Sunk zero n i h f hi hn p v = absurd (omega arith)
sift_down_loop-Sunk (suc fuel) n i h f hi hn p v =
    Returns-if (ltb (i * 2 + 1) n)
      (λ inner. Returns-bind (earlier_child-IsEarliestChild n h.heap i (ground arith) hn) λ m s.
        let hm : m < length h.heap = omega (arith, s.inside) in
        rw (load-ok h.heap i hi, load-ok h.heap m hm)
          (Returns-if (ltb (key h.heap i) (key h.heap m))
            (λ stop.
              returns (stayed (SameTimers-refl n h p) (settled-IsHeapBelow s (ground arith) v)))
            (λ sink.
              let (run, same, lower) = sink-SameTimers n i m h hn p s in
              rw run (
                Returns-map
                  (sift_down_loop_orders fuel n m (swapped i m h) (omega (arith, s.inside))
                    (omega (arith, same.size)) (omega (arith, same.size)) same.placed
                    (swapped-IsHeapAbove n i m h hi hm v s (ground arith)))
                  λ (i', h') ((t, o), le). sank (omega arith) (SameTimers-trans same t, o)))))
      (λ leaf. returns (
        stayed (SameTimers-refl n h p)
          (record { edges = λ c q r e. ground (arith, v.edges c); bridged = v.bridged })))

-- A node that may be too late sinks to its place.
pub sift_down_orders :
    (n i : ℕ) (h : TimerHeap)
    → i < length h.heap
    → n ≤ length h.heap
    → IsPlaced h
    → IsHeapAbove n h.heap i
    → Returns (λ (moved, h'). Sifted n h h') (sift_down i n h)
unfolding sift_down
sift_down_orders n i h hi hn p v =
    rw (lt→ltb i (length h.heap) hi, le→leb n (length h.heap) hn)
      (Returns-bind (sift_down_loop_orders (n + 1) n i h (omega arith) hi hn p v)
        λ (i', h') (s, le). returns s)

sift_down-Sunk :
    (n i : ℕ) (h : TimerHeap)
    → i < length h.heap
    → n ≤ length h.heap
    → IsPlaced h
    → IsHeapAround n h.heap i
    → Returns (λ (moved, h'). (i' : ℕ) × (moved ≡ ltb i i') × Sunk n i h i' h') (sift_down i n h)
unfolding sift_down
sift_down-Sunk n i h hi hn p v =
    rw (lt→ltb i (length h.heap) hi, le→leb n (length h.heap) hn)
      (Returns-bind (sift_down_loop-Sunk (n + 1) n i h (omega arith) hi hn p v)
        λ (i', h') s. returns (i', refl, s))

-- A node that may be out of place either way moves to its place.
pub settle_orders :
    (n i : ℕ) (h : TimerHeap)
    → i < n
    → n ≤ length h.heap
    → length h.heap ≤ max_timers
    → IsPlaced h
    → IsHeapAround n h.heap i
    → Returns (Sifted n h) (settle i n h)
unfolding settle
settle_orders n i h hi hn hm p v =
    Returns-bind (sift_down-Sunk n i h (omega arith) hn p v)
      λ (moved, h') (i', e, s). rw e (finish i' h' s)
  where
    finish :
        (i' : ℕ) (h' : TimerHeap)
        → Sunk n i h i' h'
        → Returns (Sifted n h) (if ltb i i' then ok h' else sift_up i h')
    finish i' h' (sank lower s) = rw (lt→ltb i i' lower) (returns s)
    finish i' h' (stayed same v') = rw (ltb-false i i (omega arith)) (
        Returns-map
          (sift_up_orders n i h' hi (omega (arith, same.size)) (omega (arith, same.size))
            same.placed v')
          λ h'' t. (SameTimers-trans same t.0, t.1))
