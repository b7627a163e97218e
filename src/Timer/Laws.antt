-- ===== src/Timer/Laws.antt =====
-- code/timer/timer_heap.cpp: each call on a valid heap succeeds, keeps it valid, and changes the map
-- from ids to timers as its name says.
use torch_server.Base.{
  ℕ, suc, ◌+◌, ◌-◌, ◌≤◌, ◌<◌, ◌≡◌, refl, ◌∙◌, [], ◌∷◌, length, Option, some, none, Option-cases,
  inl, inr, arith, ◌==◌, if◌then◌else◌, ok, ◌>>=◌, Returns, returns, Returns-map, Returns-bind,
  fault, assertion, lt→ltb, ltb, sym, subst, ap, ==-false, length-set, Bool-cases, true, false, ◌⊎◌,
}
use torch_server.Timer.{
  TimerHeap, Timer, empty, clear, ms, position, swap_node, add_timer, del, rm_timer, adjust,
  sift_down, sift_up, settle, drop_back,
}
use torch_server.Timer.Nodes.{
  at, load-ok, view, view_inv, view-none_inv, swap_node-ok, swapped, swapped-SameTimers, at-swapped,
}
use torch_server.Timer.Order.{key, up, IsHeapAround}
use torch_server.Timer.SiftUp.{Sifted, max_timers, sift_up_orders}
use torch_server.Timer.Sift.{sift_down_orders, settle_orders}
use torch_server.Timer.Update.{
  IsValid, length-pushed, pushed-IsPlaced, view-pushed, pushed-IsHeapBelow, pushed, replaced,
  length-replaced, replaced-IsPlaced, view-replaced, replaced-IsHeapAround, replaced-IsHeapAbove,
  drop_back-IsValid,
}

-- The map of `h'` is that of `h` with `t` under its id.
abbrev pub Stored : Timer → TimerHeap → TimerHeap → Type 0
Stored t h h' = IsValid h' × ((k : ℕ) → view h' k ≡ (if t.id == k then some t else view h k))

-- The map of `h'` is that of `h` without `id`, which was one of its timers.
abbrev pub Removed : ℕ → TimerHeap → TimerHeap → Type 0
Removed id h h' =
    IsValid h'
    × ((k : ℕ) → view h' k ≡ (if id == k then none else view h k))
    × (length h.heap ≡ length h'.heap + 1)

-- Sifting keeps a change of the map, and makes the heap valid again.
Sifted-IsValid :
    (f : ℕ → Option Timer) (n : ℕ) (h h' : TimerHeap)
    → length h.heap ≡ n
    → n ≤ max_timers
    → ((k : ℕ) → view h k ≡ f k)
    → Sifted n h h'
    → IsValid h' × ((k : ℕ) → view h' k ≡ f k)
Sifted-IsValid f n h h' e room v (s, o) = (
  record {
    placed = s.placed;
    ordered = λ c q r. o c q (omega (arith, s.size));
    bounded = omega (arith, s.size);
  },
  λ k. s.same_view k ∙ v k,
)

module _ (h : TimerHeap) (v : IsValid h) where
  add_fresh :
      (t : Timer) (e : h.ref t.id ≡ none)
      → length h.heap < max_timers
      → Returns (Stored t h) (sift_up (length h.heap) (pushed h t v.placed e))
  add_fresh t e room =
      let size = length-pushed h t v.placed e in
      Returns-map
        (sift_up_orders (length h.heap + 1) (length h.heap) (pushed h t v.placed e) (omega arith)
          (omega (arith, size)) (omega (arith, size)) (pushed-IsPlaced h t v.placed e)
          (pushed-IsHeapBelow h t v.placed e v.ordered))
        λ h' s.
          Sifted-IsValid (λ k. if t.id == k then some t else view h k) (length h.heap + 1)
            (pushed h t v.placed e) h' size (omega arith) (view-pushed h t v.placed e) s

  add_known :
      (t : Timer) (i : ℕ) (hi : i < length h.heap) (same : t.id ≡ (at h.heap i).id)
      → Returns (Stored t h) (settle i (length h.heap) (replaced h i t v.placed hi same))
  add_known t i hi same =
      let size = length-replaced h i t v.placed hi same in
      Returns-map
        (settle_orders (length h.heap) i (replaced h i t v.placed hi same) hi (omega (arith, size))
          (omega (arith, size, v.bounded)) (replaced-IsPlaced h i t v.placed hi same)
          (replaced-IsHeapAround h i t v.placed hi same v.ordered))
        λ h' s.
          Sifted-IsValid (λ k. if t.id == k then some t else view h k) (length h.heap)
            (replaced h i t v.placed hi same) h' size v.bounded
            (view-replaced h i t v.placed hi same) s

  -- On a valid heap below the maximal size `add_timer` succeeds, leaves a valid heap, and changes
  -- the map from ids to timers at its id only, where the new timer stands, be the id new or known.
  pub add_timer_stores :
      (now id timeout cb : ℕ)
      → length h.heap < max_timers
      → Returns
          (Stored (record { id = id; expires = now + ms timeout; cb = cb }) h)
          (add_timer now id timeout cb h)
  unfolding add_timer position
  add_timer_stores now id timeout cb room = elim (Option-cases (h.ref id)) [
    | inl e ↦ rw e (add_fresh (record { id = id; expires = now + ms timeout; cb = cb }) e room)
    | inr (i, e) ↦
        let (hi, same) = v.placed.stored id i e in
        rw (e, load-ok h.heap i hi, same)
          (add_known (record { id = id; expires = now + ms timeout; cb = cb }) i hi (sym same))
  ]

  adjust_known :
      (t : Timer) (i : ℕ) (hi : i < length h.heap) (same : t.id ≡ (at h.heap i).id)
      → key h.heap i ≤ t.expires
      → Returns
          (λ (moved, h'). Stored t h h')
          (sift_down i (length h.heap) (replaced h i t v.placed hi same))
  adjust_known t i hi same later =
      let size = length-replaced h i t v.placed hi same in
      Returns-map
        (sift_down_orders (length h.heap) i (replaced h i t v.placed hi same) (omega (arith, size))
          (omega (arith, size)) (replaced-IsPlaced h i t v.placed hi same)
          (replaced-IsHeapAbove h i t v.placed hi same v.ordered later))
        λ (moved, h') s.
          Sifted-IsValid (λ k. if t.id == k then some t else view h k) (length h.heap)
            (replaced h i t v.placed hi same) h' size v.bounded
            (view-replaced h i t v.placed hi same) s

  -- On a valid heap `adjust` of a known timer to a time not before its old one succeeds, leaves a
  -- valid heap, and changes the map from ids to timers at that timer's expiry only.
  pub adjust_stores :
      (now id timeout : ℕ) (t : Timer)
      → view h id ≡ some t
      → t.expires ≤ now + ms timeout
      → Returns (Stored (record t { expires = now + ms timeout }) h) (adjust now id timeout h)
  unfolding adjust position
  adjust_stores now id timeout t e later =
      let (i, there, hi, here, same) = view_inv h id t v.placed e in
      let t' : Timer = record t { expires = now + ms timeout } in
      rw
        (
          there,
          ==-false (length h.heap) 0 (omega arith),
          load-ok h.heap i hi,
          here,
          length-set h.heap i t',
        )
        (Returns-bind
          (adjust_known t' i hi (ap (λ (u : Timer). u.id) (sym here))
            (subst (λ (u : Timer). u.expires ≤ now + ms timeout) (sym here) later))
          λ (moved, h') s. returns s)

  -- An unknown id fails the assertion.
  pub adjust_unknown :
      (now id timeout : ℕ) → view h id ≡ none → adjust now id timeout h ≡ fault assertion
  unfolding adjust
  adjust_unknown now id timeout e = rw (view-none_inv h id e) (ground arith)

module _ (h : TimerHeap) (v : IsValid h) (i n : ℕ) (size : length h.heap ≡ suc n) where
  swapped-IsHeapAround : i < n → IsHeapAround n (swapped i n h).heap i
  swapped-IsHeapAround hi =
      let get = at-swapped i n h (omega arith) (omega arith) in
      record {
        edges = λ c q r e f. ground (arith, v.ordered c, get c, get (up c));
        bridged = λ c q r e z. ground (arith, v.ordered c, v.ordered i, get c, get (up i));
      }

  del_inner :
      i < n → Returns (Removed (at h.heap i).id h) (swap_node i n h >>= settle i n >>= drop_back)
  del_inner hi =
      let s =
        swapped-SameTimers i n h (omega arith) (omega arith) (suc n) (omega arith) (omega arith)
          v.placed in
      let last = at-swapped i n h (omega arith) (omega arith) n in
      rw (swap_node-ok i n h (omega arith) (omega arith)) (
        Returns-bind
          (settle_orders n i (swapped i n h) hi (omega (arith, s.size))
            (omega (arith, s.size, v.bounded)) s.placed (swapped-IsHeapAround hi))
          λ h' (s', o).
            let moved : at h'.heap n ≡ at h.heap i =
              s'.rest n (omega arith) ∙ ground (arith, last) in
            Returns-map
              (drop_back-IsValid h' n s'.placed (omega (arith, s'.size, s.size)) o
                (omega (arith, v.bounded)))
              λ h'' (valid, gone, len). (
                valid,
                λ k. gone k ∙ rw (moved, s'.same_view k, s.same_view k),
                omega (arith, len),
              ))

  pub del_removes : i < length h.heap → Returns (Removed (at h.heap i).id h) (del i h)
  unfolding del
  del_removes hi =
      let top : length h.heap - 1 ≡ n = omega arith in
      rw (lt→ltb i (length h.heap) hi, top) (split (Bool-cases (ltb i n)))
    where
      split :
          (ltb i n ≡ true) ⊎ (ltb i n ≡ false)
          → Returns
              (Removed (at h.heap i).id h)
              ((if ltb i n then swap_node i n h >>= settle i n else ok h) >>= drop_back)
      split (inl e) = rw e (del_inner (ground arith))
      split (inr e) =
          let last : i ≡ n = ground arith in
          rw (e, last)
            (Returns-map
              (drop_back-IsValid h n v.placed size (λ c q r. v.ordered c q (omega arith))
                (omega (arith, v.bounded)))
              λ h' (valid, gone, len). (valid, gone, omega (arith, len)))

module _ (h : TimerHeap) (v : IsValid h) where
  -- On a valid heap `rm_timer` of a known id runs the callback of its timer once, leaves a valid
  -- heap, and removes exactly that timer from the map.
  pub rm_timer_removes :
      (id : ℕ) (t : Timer)
      → view h id ≡ some t
      → Returns (λ (ran, h'). (ran ≡ t ∷ []) × Removed id h h') (rm_timer id h)
  unfolding rm_timer position
  rm_timer_removes id t e =
      let (i, there, hi, here, same) = view_inv h id t v.placed e in
      let d = del_removes h v i (length h.heap - 1) (omega arith) hi in
      let d' : Returns (Removed id h) (del i h) = rw (here, same) at d in
      rw (there, ==-false (length h.heap) 0 (omega arith), load-ok h.heap i hi, here)
        (Returns-bind d' λ h' r. returns (refl, r))

  -- An unknown id changes nothing.
  pub rm_timer_unknown : (id : ℕ) → view h id ≡ none → rm_timer id h ≡ ok ([], h)
  unfolding rm_timer
  rm_timer_unknown id e = rw (view-none_inv h id e) (ground arith)

-- A new heap and a cleared one are valid and hold no timer.
pub empty-IsValid : IsValid empty × ((k : ℕ) → view empty k ≡ none)
unfolding empty
empty-IsValid = (
  record {
    placed = record {
      located = λ i q. absurd (omega arith);
      stored = λ k i e. absurd (ground arith);
    };
    ordered = λ c q r. absurd (omega arith);
    bounded = omega arith;
  },
  λ k. refl,
)

clear-eq-empty : (h : TimerHeap) → clear h ≡ empty
unfolding clear empty
clear-eq-empty h = refl
