-- ===== src/Timer/Update.antt =====
-- code/timer/timer_heap.cpp: how the array and the positions change when a timer is added at the
-- end, replaced, or dropped from the end.
use native.Mathlib.Decide.{dec_lt}
use torch_server.Base.{
  ℕ, suc, ◌+◌, ◌-◌, ◌≤◌, ◌<◌, ◌≡◌, [], ◌∷◌, ◌++◌, length, set, get_or-set, length-set,
  length-append, get_or-append_left, get_or-append_end, drop_last, length-drop_last,
  get_or-drop_last, some, none, Option-cases, inl, inr, arith, update, erase, ◌==◌, if◌then◌else◌,
  ok, Returns, returns,
}
use torch_server.Timer.{TimerHeap, Timer, drop_back}
use torch_server.Timer.Nodes.{at, null, load-ok, IsPlaced, view}
use torch_server.Timer.Order.{key, up, IsHeap, IsHeapBelow, IsHeapAbove, IsHeapAround}
use torch_server.Timer.SiftUp.{max_timers}

-- What holds between the calls of the class.
pub record IsValid (h : TimerHeap) : Type 0 where
  pub placed : IsPlaced h
  pub ordered : IsHeap (length h.heap) h.heap
  pub bounded : length h.heap ≤ max_timers

-- A position is known exactly for the ids that the map has.
pub view-none : (h : TimerHeap) (k : ℕ) → h.ref k ≡ none → view h k ≡ none
view-none h k e = rw e

pub view-some : (h : TimerHeap) (k i : ℕ) → h.ref k ≡ some i → view h k ≡ some (at h.heap i)
view-some h k i e = rw e

module _ (h : TimerHeap) (t : Timer) (p : IsPlaced h) (fresh : h.ref t.id ≡ none) where
  abbrev pub pushed : TimerHeap
  pushed = record { heap = h.heap ++ t ∷ []; ref = update h.ref t.id (length h.heap) }

  pub length-pushed : length pushed.heap ≡ length h.heap + 1
  length-pushed = length-append h.heap (t ∷ [])

  at-pushed :
      (c : ℕ)
      → c < length h.heap + 1
      → at pushed.heap c ≡ (if c == length h.heap then t else at h.heap c)
  at-pushed c q = elim (dec_lt c (length h.heap)) [
    | yes old ↦ ground (arith, get_or-append_left h.heap (t ∷ []) c null)
    | no new ↦ ground (arith, get_or-append_end h.heap t null c)
  ]

  pub pushed-IsPlaced : IsPlaced pushed
  pushed-IsPlaced = record {
    located = λ c q. ground (arith, fresh, p.located c, at-pushed c, length-pushed);
    stored = λ k c e. ground (arith, fresh, p.stored k c, at-pushed c, length-pushed);
  }

  pub view-pushed : (k : ℕ) → view pushed k ≡ (if t.id == k then some t else view h k)
  view-pushed k = elim (Option-cases (h.ref k)) [
    | inl e ↦ ground (arith, fresh, at-pushed (length h.heap))
    | inr (c, e) ↦ ground (arith, fresh, p.stored k c e, at-pushed c, at-pushed (length h.heap))
  ]

  pub pushed-IsHeapBelow :
      IsHeap (length h.heap) h.heap → IsHeapBelow (length h.heap + 1) pushed.heap (length h.heap)
  pushed-IsHeapBelow v = record {
    edges = λ c q r e. ground (arith, v c, at-pushed c, at-pushed (up c));
    bridged = λ c q r e z. absurd (omega arith);
  }

module _ (h : TimerHeap) (i : ℕ) (t : Timer) (p : IsPlaced h) (hi : i < length h.heap)
    (same : t.id ≡ (at h.heap i).id) where
  abbrev pub replaced : TimerHeap
  replaced = record h { heap = set h.heap i t }

  pub length-replaced : length replaced.heap ≡ length h.heap
  length-replaced = length-set h.heap i t

  at-replaced : (c : ℕ) → at replaced.heap c ≡ (if i == c then t else at h.heap c)
  at-replaced c = get_or-set h.heap i c t null hi

  pub replaced-IsPlaced : IsPlaced replaced
  replaced-IsPlaced = record {
    located = λ c q. ground (arith, p.located c, p.located i hi, at-replaced c, length-replaced);
    stored = λ k c e. ground (arith, p.stored k c e, at-replaced c, length-replaced);
  }

  pub view-replaced : (k : ℕ) → view replaced k ≡ (if t.id == k then some t else view h k)
  view-replaced k = elim (Option-cases (h.ref k)) [
    | inl e ↦ ground (arith, p.located i hi)
    | inr (c, e) ↦ ground (arith, p.located i hi, p.stored k c e, at-replaced c)
  ]

  pub replaced-IsHeapAround :
      IsHeap (length h.heap) h.heap → IsHeapAround (length h.heap) replaced.heap i
  replaced-IsHeapAround v = record {
    edges = λ c q r e f. ground (arith, v c, at-replaced c, at-replaced (up c));
    bridged = λ c q r e z. ground (arith, v c, v i, at-replaced c, at-replaced (up i));
  }

  pub replaced-IsHeapAbove :
      IsHeap (length h.heap) h.heap
      → key h.heap i ≤ t.expires
      → IsHeapAbove (length h.heap) replaced.heap i
  replaced-IsHeapAbove v later = record {
    edges = λ c q r e. ground (arith, v c, at-replaced c, at-replaced (up c));
    bridged = λ c q r e z. ground (arith, v c, v i, at-replaced c, at-replaced (up i));
  }

module _ (h : TimerHeap) (n : ℕ) (p : IsPlaced h) (size : length h.heap ≡ suc n) where
  abbrev dropped : TimerHeap
  dropped = record { heap = drop_last h.heap; ref = erase h.ref (at h.heap n).id }

  length-dropped : length dropped.heap ≡ n
  length-dropped = omega (arith, length-drop_last h.heap)

  at-dropped : (c : ℕ) → c < n → at dropped.heap c ≡ at h.heap c
  at-dropped c q = get_or-drop_last h.heap c null (omega arith)

  drop_back-ok : drop_back h ≡ ok dropped
  unfolding drop_back
  drop_back-ok =
      let last : length h.heap - 1 ≡ n = omega arith in rw (last, load-ok h.heap n (omega arith))

  dropped-IsPlaced : IsPlaced dropped
  dropped-IsPlaced = record {
    located = λ c q. ground (arith, p.located c, p.located n, at-dropped c, length-dropped);
    stored = λ k c e. ground (arith, p.stored k c, p.located n, at-dropped c, length-dropped);
  }

  view-dropped : (k : ℕ) → view dropped k ≡ (if (at h.heap n).id == k then none else view h k)
  view-dropped k = elim (Option-cases (h.ref k)) [
    | inl e ↦ ground (arith, p.located n)
    | inr (c, e) ↦ ground (arith, p.located n, p.stored k c e, at-dropped c)
  ]

  -- Dropping the last node keeps the rest, and removes its id from the map.
  pub drop_back-IsValid :
      IsHeap n h.heap
      → n ≤ max_timers
      → Returns
          (λ h'.
            IsValid h'
            × ((k : ℕ) → view h' k ≡ (if (at h.heap n).id == k then none else view h k))
            × (length h'.heap ≡ n))
          (drop_back h)
  drop_back-IsValid v room = rw drop_back-ok (
      returns (
        record {
          placed = dropped-IsPlaced;
          ordered = λ c q r. ground (arith, length-dropped, v c, at-dropped c, at-dropped (up c));
          bounded = omega (arith, length-dropped);
        },
        view-dropped,
        length-dropped,
      ))
