-- ===== src/Timer/Nodes.antt =====
-- code/timer/timer_heap.cpp: the array of timers, the positions of their ids, and the map from ids
-- to timers that both stand for.
use mathlib.Core.Option
use torch_server.Base.{
  ℕ, ◌≤◌, ◌<◌, ◌≡◌, refl, ◌∙◌, List, length, get_or, set, length-set, get_or-set,
  get_elem?-eq-get_or, Option, some, none, ok, lt→ltb, Option-cases, inl, inr, arith, update, ◌==◌,
  if◌then◌else◌,
}
use torch_server.Timer.{Timer, TimerHeap, load, swap_node}

abbrev pub null : Timer
null = record { id = 0; expires = 0; cb = 0 }

abbrev pub at : List Timer → ℕ → Timer
at a i = get_or a i null

pub load-ok : (a : List Timer) (i : ℕ) → i < length a → load a i ≡ ok (at a i)
unfolding load
load-ok a i h = rw (get_elem?-eq-get_or a i null h)

-- `ref_` gives the position of exactly the ids in the array.
pub record IsPlaced (h : TimerHeap) : Type 0 where
  pub located : (i : ℕ) → i < length h.heap → h.ref (at h.heap i).id ≡ some i
  pub stored : (k i : ℕ) → h.ref k ≡ some i → (i < length h.heap) × ((at h.heap i).id ≡ k)

-- What the heap is to its clients: a map from ids to timers.
abbrev pub view : TimerHeap → ℕ → Option Timer
view h k = Option.map (at h.heap) (h.ref k)

-- A timer of the map stands in the array, at the position of its id.
pub view_inv :
    (h : TimerHeap) (k : ℕ) (t : Timer)
    → IsPlaced h
    → view h k ≡ some t
    → (i : ℕ) × (h.ref k ≡ some i) × (i < length h.heap) × (at h.heap i ≡ t) × (t.id ≡ k)
view_inv h k t p e = elim (Option-cases (h.ref k)) [
  | inl e' ↦ absurd (ground arith)
  | inr (i, e') ↦ let (hi, same) = p.stored k i e' in (i, e', hi, ground arith, ground arith)
]

pub view-none_inv : (h : TimerHeap) (k : ℕ) → view h k ≡ none → h.ref k ≡ none
view-none_inv h k e = ground arith

abbrev pub swapped : ℕ → ℕ → TimerHeap → TimerHeap
swapped i j h = record {
  heap = set (set h.heap i (at h.heap j)) j (at h.heap i);
  ref = update (update h.ref (at h.heap j).id i) (at h.heap i).id j;
}

-- `h'` holds the timers of `h`, and the array is the same from `n` on.
pub record SameTimers (n : ℕ) (h h' : TimerHeap) : Type 0 where
  pub placed : IsPlaced h'
  pub same_view : (k : ℕ) → view h' k ≡ view h k
  pub size : length h'.heap ≡ length h.heap
  pub rest : (c : ℕ) → n ≤ c → at h'.heap c ≡ at h.heap c

pub SameTimers-refl : (n : ℕ) (h : TimerHeap) → IsPlaced h → SameTimers n h h
SameTimers-refl n h p = record {
  placed = p;
  same_view = λ k. refl;
  size = refl;
  rest = λ c q. refl;
}

pub SameTimers-trans :
    {n : ℕ} {h h' h'' : TimerHeap} → SameTimers n h h' → SameTimers n h' h'' → SameTimers n h h''
SameTimers-trans s t = record {
  placed = t.placed;
  same_view = λ k. t.same_view k ∙ s.same_view k;
  size = t.size ∙ s.size;
  rest = λ c q. t.rest c q ∙ s.rest c q;
}

module _ (i j : ℕ) (h : TimerHeap) (hi : i < length h.heap) (hj : j < length h.heap) where
  pub swap_node-ok : swap_node i j h ≡ ok (swapped i j h)
  unfolding swap_node
  swap_node-ok = rw (lt→ltb _ _ hi, lt→ltb _ _ hj, load-ok h.heap i hi, load-ok h.heap j hj)

  pub length-swapped : length (swapped i j h).heap ≡ length h.heap
  length-swapped =
      length-set (set h.heap i (at h.heap j)) j (at h.heap i) ∙ length-set h.heap i (at h.heap j)

  pub at-swapped :
      (c : ℕ)
      → at (swapped i j h).heap c
        ≡ (if j == c then at h.heap i else if i == c then at h.heap j else at h.heap c)
  at-swapped c = rw (
    get_or-set (set h.heap i (at h.heap j)) j c (at h.heap i) null
        (omega (arith, length-set h.heap i (at h.heap j))),
    get_or-set h.heap i c (at h.heap j) null hi,
  )

  swapped-IsPlaced : IsPlaced h → IsPlaced (swapped i j h)
  swapped-IsPlaced p = record {
    located = λ c q.
        ground (arith, p.located i hi, p.located j hj, p.located c, at-swapped c, length-swapped);
    stored = λ k c e. ground (
      arith,
      p.located i hi,
      p.located j hj,
      p.stored k c,
      at-swapped i,
      at-swapped j,
      at-swapped c,
      length-swapped,
    );
  }

  view-swapped : IsPlaced h → (k : ℕ) → view (swapped i j h) k ≡ view h k
  view-swapped p k = elim (Option-cases (h.ref k)) [
    | inl e ↦ ground (arith, p.located i hi, p.located j hj)
    | inr (c, e) ↦ ground (
      arith,
      p.located i hi,
      p.located j hj,
      p.stored k c e,
      at-swapped i,
      at-swapped j,
      at-swapped c,
    )
  ]

  pub swapped-SameTimers : (n : ℕ) → i < n → j < n → IsPlaced h → SameTimers n h (swapped i j h)
  swapped-SameTimers n hin hjn p = record {
    placed = swapped-IsPlaced p;
    same_view = view-swapped p;
    size = length-swapped;
    rest = λ c q. ground (arith, at-swapped c);
  }
