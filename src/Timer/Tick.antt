-- ===== src/Timer/Tick.antt =====
-- code/timer/timer_heap.cpp, `tick`, `pop` and `get_next_tick`: which callbacks run, in which
-- order, what is left, and what the server's event loop then waits for.
use mathlib.Core.Path.{fun_ext}
use torch_server.Base.{
  ℕ, zero, suc, ◌+◌, ◌-◌, ◌/◌, ◌^◌, ◌≤◌, ◌<◌, ◌≡◌, refl, subst, List, [], ◌∷◌, length, Option, some,
  arith, ◌==◌, ==-false, le→leb, leb-false, ltb-false, erase, ok, Returns, returns, Returns-bind,
  Returns-if, true, false, pos, negsuc, to_int, to_size,
}
use torch_server.Timer.{TimerHeap, Timer, pop, tick_loop, tick, is_later, remaining, get_next_tick}
use torch_server.Timer.Nodes.{at, load-ok, view, view_inv}
use torch_server.Timer.Order.{key, root_earliest}
use torch_server.Timer.Update.{IsValid, view-some}
use torch_server.Timer.Laws.{Removed, del_removes}

-- No timer of the map is before `t`.
abbrev pub IsEarliest : (ℕ → Option Timer) → Timer → Type 0
IsEarliest m t = (k : ℕ) (u : Timer) → m k ≡ some u → t.expires ≤ u.expires

-- The specification of `tick`: the timers of `ran` leave the map one by one, each the earliest of
-- its moment and due by the clock's reading of that round; `m'` is what is left.
abbrev pub Fired : (ℕ → ℕ) → (ℕ → Option Timer) → List Timer → (ℕ → Option Timer) → Type 0
Fired clock m [] m' = m' ≡ m
Fired clock m (t ∷ ran) m' =
    (m t.id ≡ some t)
    × IsEarliest m t
    × (is_later (clock 0) t ≡ false)
    × Fired (λ k. clock (suc k)) (erase m t.id) ran m'

-- Every timer of the map is later than `now`, by a millisecond at least.
abbrev pub AllLater : ℕ → (ℕ → Option Timer) → Type 0
AllLater now m = (k : ℕ) (u : Timer) → m k ≡ some u → is_later now u ≡ true

module _ (h : TimerHeap) (v : IsValid h) (some_there : 0 < length h.heap) where
  front_there : view h (at h.heap 0).id ≡ some (at h.heap 0)
  front_there = view-some h (at h.heap 0).id 0 (v.placed.located 0 some_there)

  front-IsEarliest : IsEarliest (view h) (at h.heap 0)
  front-IsEarliest k u e =
      let (i, there, hi, here, same) = view_inv h k u v.placed e in
      subst (λ (t : Timer). key h.heap 0 ≤ t.expires) here
        (root_earliest (length h.heap) h.heap i v.ordered hi)

  -- `pop` removes the earliest timer.
  pop_removes : Returns (Removed (at h.heap 0).id h) (pop h)
  unfolding pop
  pop_removes =
      rw (==-false (length h.heap) 0 (omega arith))
        (del_removes h v 0 (length h.heap - 1) (omega arith) some_there)

is_later_mono :
    (now : ℕ) (t u : Timer) → t.expires ≤ u.expires → is_later now t ≡ true → is_later now u ≡ true
unfolding is_later
is_later_mono now t u h e = ground arith

abbrev pub Ticked : (ℕ → ℕ) → TimerHeap → List Timer × TimerHeap → Type 0
Ticked clock h (ran, h') =
    IsValid h' × Fired clock (view h) ran (view h') × AllLater (clock (length ran)) (view h')

empty_AllLater : (now : ℕ) (h : TimerHeap) → IsValid h → length h.heap ≡ 0 → AllLater now (view h)
empty_AllLater now h v e k u there =
    let (i, _, hi, _, _) = view_inv h k u v.placed there in absurd (omega arith)

tick_loop-Ticked :
    (fuel : ℕ) (clock : ℕ → ℕ) (h : TimerHeap)
    → length h.heap < fuel
    → IsValid h
    → Returns (Ticked clock h) (tick_loop fuel clock h)
unfolding tick_loop
tick_loop-Ticked zero clock h f v = absurd (omega arith)
tick_loop-Ticked (suc fuel) clock h f v =
    Returns-if (length h.heap == 0)
      (λ none_left. returns (v, refl, empty_AllLater (clock 0) h v (ground arith)))
      (λ more.
        let there : 0 < length h.heap = ground arith in
        let node = at h.heap 0 in
        rw (load-ok h.heap 0 there) (
          Returns-if (is_later (clock 0) node)
            (λ later. returns (
              v,
              refl,
              λ k u e. is_later_mono (clock 0) node u (front-IsEarliest h v there k u e) later,
            ))
            (λ due. Returns-bind (pop_removes h v there) λ h' (v', gone, size).
              Returns-bind (tick_loop-Ticked fuel (λ k. clock (suc k)) h' (omega (arith, size)) v')
                λ (ran, h'') (v'', fired, later). returns (
                  v'',
                  (
                    front_there h v there,
                    front-IsEarliest h v there,
                    due,
                    subst (λ m. Fired (λ k. clock (suc k)) m ran (view h'')) (fun_ext gone) fired,
                  ),
                  later,
                ))))

-- On a valid heap `tick` succeeds and leaves a valid heap. The timers whose callbacks it runs leave
-- the map one by one, each the earliest of its moment and due by the clock's reading of that round,
-- and every timer left is later than the last reading, by a millisecond at least.
pub tick_fires :
    (clock : ℕ → ℕ) (h : TimerHeap) → IsValid h → Returns (Ticked clock h) (tick clock h)
unfolding tick
tick_fires clock h v = tick_loop-Ticked (length h.heap + 1) clock h (omega arith) v

to_int_small : (n : ℕ) → n < 2 ^ 31 → to_int (to_size (pos n)) ≡ pos n
to_int_small n h = ground arith

to_int_negative : (n : ℕ) → n < 2 ^ 31 → to_int (to_size (negsuc n)) ≡ negsuc n
to_int_negative n h = ground arith

remaining_future :
    (now : ℕ) (t : Timer)
    → now ≤ t.expires
    → remaining now t ≡ to_size (pos ((t.expires - now) / 1_000_000))
unfolding remaining
remaining_future now t h = rw (le→leb now t.expires h)

remaining_past :
    (now late : ℕ) (t : Timer)
    → (now - t.expires) / 1_000_000 ≡ suc late
    → remaining now t ≡ to_size (negsuc late)
unfolding remaining
remaining_past now late t h = rw (leb-false now t.expires (omega arith), h)

module _ (clock : ℕ → ℕ) (h : TimerHeap) (ran : List Timer) (h' : TimerHeap)
    (ticked : tick clock h ≡ ok (ran, h')) where
  -- With no timer left, the wait is -1, that is, without an end.
  pub next_tick_empty :
      (now : ℕ) → length h'.heap ≡ 0 → get_next_tick clock now h ≡ ok (ran, negsuc 0, h')
  unfolding get_next_tick
  next_tick_empty now e = rw (ticked, e)

  next_tick_of :
      (now : ℕ)
      → 0 < length h'.heap
      → get_next_tick clock now h ≡ ok (ran, to_int (remaining now (at h'.heap 0)), h')
  unfolding get_next_tick
  next_tick_of now there = rw (
    ticked,
    ==-false (length h'.heap) 0 (omega arith),
    load-ok h'.heap 0 there,
    ltb-false (remaining now (at h'.heap 0)) 0 (omega arith),
  )

  -- Where `tick` leaves a timer, and the front one is not before the second reading of the clock,
  -- `get_next_tick` returns the time to it in milliseconds, if that is below 2 ^ 31.
  pub next_tick_front :
      (now : ℕ)
      → 0 < length h'.heap
      → now ≤ (at h'.heap 0).expires
      → ((at h'.heap 0).expires - now) / 1_000_000 < 2 ^ 31
      → get_next_tick clock now h ≡ ok (ran, pos (((at h'.heap 0).expires - now) / 1_000_000), h')
  next_tick_front now there future small = rw (
    next_tick_of now there,
    remaining_future now (at h'.heap 0) future,
    to_int_small (((at h'.heap 0).expires - now) / 1_000_000) small,
  )

  -- Where `tick` leaves a timer, and the front one is before the second reading of the clock by a
  -- millisecond or more (below 2 ^ 31 of them), `get_next_tick` returns that lateness as a negative
  -- number.
  pub next_tick_negative :
      (now late : ℕ)
      → 0 < length h'.heap
      → (now - (at h'.heap 0).expires) / 1_000_000 ≡ suc late
      → late < 2 ^ 31
      → get_next_tick clock now h ≡ ok (ran, negsuc late, h')
  next_tick_negative now late there past small = rw (
    next_tick_of now there,
    remaining_past now late (at h'.heap 0) past,
    to_int_negative late small,
  )
