-- ===== src/BlockDeque/Steps.antt =====
-- code/log/block_deque.h: the producers and the one consumer as steps, and what every run keeps.
use torch_server.Base.{
  ◌≤◌, ◌≡◌, refl, ◌∙◌, sym, ap, false, List, [], ◌∷◌, ◌++◌, append_assoc, length, length-append,
  some, arith, Bool-cases, inl, inr, subst, ◌<◌, ◌⊎◌, leb, if◌then◌else◌,
}
use torch_server.BlockDeque.{BlockDeque, Popped, full, push_back, pop_front, resume_pop, close}

-- The consumer: between two calls, in a wait, woken from it, or told to stop.
pub data Consumer : Type 0 where
  idle asleep woken stopped : Consumer

-- The state, with what was pushed and what was popped so far.
pub record Monitor (A : Type 0) : Type 0 where
  pub deque : BlockDeque A
  pub consumer : Consumer
  pub pushed : List A
  pub popped : List A

-- `notify_one` or `notify_all` on the consumers' condition.
abbrev pub notify : Consumer → Consumer
notify Consumer.asleep = Consumer.woken
notify Consumer.idle = Consumer.idle
notify Consumer.woken = Consumer.woken
notify Consumer.stopped = Consumer.stopped

-- What a call or a wake-up makes of the monitor.
abbrev pub take_item : {A : Type 0} → Monitor A → Popped A → Monitor A
take_item m (Popped.item x d) = record m {
  deque = d;
  consumer = Consumer.idle;
  popped = m.popped ++ x ∷ [];
}
take_item m Popped.refused = record m { consumer = Consumer.stopped }
take_item m Popped.waiting = record m { consumer = Consumer.asleep }

-- The end of `close`: the queue is empty and closed, and a consumer in a wait is woken.
abbrev pub shut_down : {A : Type 0} → Monitor A → Monitor A
shut_down m = record m { deque = close m.deque; consumer = notify m.consumer }

pub data Step {A : Type 0} : Monitor A → Monitor A → Type 0 where
  push :
      {m : Monitor A} (x : A) {d : BlockDeque A}
      → push_back x m.deque ≡ some d
      → Step m (record m { deque = d; consumer = notify m.consumer; pushed = m.pushed ++ x ∷ [] })
  flush : {m : Monitor A} → Step m (record m { consumer = notify m.consumer })
  shut : {m : Monitor A} → Step m (shut_down m)
  call : {m : Monitor A} → m.consumer ≡ Consumer.idle → Step m (take_item m (pop_front m.deque))
  wake : {m : Monitor A} → m.consumer ≡ Consumer.woken → Step m (take_item m (resume_pop m.deque))

pub data Reach {A : Type 0} : Monitor A → Monitor A → Type 0 where
  stay : {m : Monitor A} → Reach m m
  then_step : {m m' m'' : Monitor A} → Reach m m' → Step m' m'' → Reach m m''

-- Never more items than the capacity; and until the queue is closed, what was popped and what is
-- stored are what was pushed, in order.
pub record IsSound {A : Type 0} (m : Monitor A) : Type 0 where
  pub bounded : length m.deque.deq ≤ m.deque.capacity
  pub in_order : m.deque.is_closed ≡ false → m.popped ++ m.deque.deq ≡ m.pushed

-- The consumer's own steps: a call, or what follows a wake-up.
pub data OwnStep {A : Type 0} : Monitor A → Monitor A → Type 0 where
  call : {m : Monitor A} → m.consumer ≡ Consumer.idle → OwnStep m (take_item m (pop_front m.deque))
  wake :
      {m : Monitor A} → m.consumer ≡ Consumer.woken → OwnStep m (take_item m (resume_pop m.deque))

-- A run in which nobody pushes, flushes or closes.
pub data Alone {A : Type 0} (m : Monitor A) : Monitor A → Type 0 where
  stay : Alone m m
  then_step : {m' m'' : Monitor A} → Alone m m' → OwnStep m' m'' → Alone m m''

module _ {A : Type 0} where
  pop_front_empty : (q : BlockDeque A) → q.deq ≡ [] → pop_front q ≡ Popped.waiting
  unfolding pop_front
  pop_front_empty q e = rw e

  pop_front_some :
      (q : BlockDeque A) (x : A) (xs : List A)
      → q.deq ≡ x ∷ xs
      → pop_front q ≡ Popped.item x (record q { deq = xs })
  unfolding pop_front
  pop_front_some q x xs e = rw e

  push_back_inv :
      (x : A) (q d : BlockDeque A)
      → push_back x q ≡ some d
      → (length q.deq < q.capacity) × (d ≡ record q { deq = q.deq ++ x ∷ [] })
  unfolding push_back full
  push_back_inv x q d e = elim (Bool-cases (leb q.capacity (length q.deq))) [
    | inl is_full ↦ absurd (ground (arith, is_full, e))
    | inr has_room ↦ (ground (arith, has_room), ground (arith, has_room, e))
  ]

  pop_front-IsSound : (m : Monitor A) → IsSound m → IsSound (take_item m (pop_front m.deque))
  pop_front-IsSound m v = by_items m.deque.deq refl
    where
      by_items : (xs : List A) → m.deque.deq ≡ xs → IsSound (take_item m (pop_front m.deque))
      by_items [] e =
          rw (pop_front_empty m.deque e) (record { bounded = v.bounded; in_order = v.in_order })
      by_items (x ∷ xs) e = rw (pop_front_some m.deque x xs e) (record {
        bounded = omega (arith, ap length e, v.bounded);
        in_order = λ is_open.
            append_assoc m.popped (x ∷ []) xs ∙ ap (◌++◌ m.popped) (sym e) ∙ v.in_order is_open;
      })

  resume_pop-IsSound : (m : Monitor A) → IsSound m → IsSound (take_item m (resume_pop m.deque))
  unfolding resume_pop
  resume_pop-IsSound m v = elim (Bool-cases m.deque.is_closed) [
    | inl closed ↦
        subst (λ b. IsSound (take_item m (if b then Popped.refused else pop_front m.deque)))
          (sym closed) (record { bounded = v.bounded; in_order = v.in_order })
    | inr is_open ↦
        subst (λ b. IsSound (take_item m (if b then Popped.refused else pop_front m.deque)))
          (sym is_open) (pop_front-IsSound m v)
  ]

  Step-IsSound : {m m' : Monitor A} → Step m m' → IsSound m → IsSound m'
  unfolding close
  Step-IsSound {m} (Step.push x {d} e) v =
      let (room, same) = push_back_inv x m.deque d e in
      rw same (record {
        bounded = omega (arith, room, length-append m.deque.deq (x ∷ []));
        in_order = λ is_open.
            sym (append_assoc m.popped m.deque.deq (x ∷ []))
            ∙ ap (λ l. l ++ x ∷ []) (v.in_order is_open);
      })
  Step-IsSound {m} Step.flush v = record { bounded = v.bounded; in_order = v.in_order }
  Step-IsSound {m} Step.shut v = record {
    bounded = omega arith;
    in_order = λ e. absurd (ground arith);
  }
  Step-IsSound {m} (Step.call e) v = pop_front-IsSound m v
  Step-IsSound {m} (Step.wake e) v = resume_pop-IsSound m v

  -- In every state that is reached from a sound one, in particular from an empty queue, no more items
  -- are stored than the capacity allows, and unless the queue was closed, the popped items and then
  -- the stored ones are the pushed ones, in order.
  pub Reach-IsSound : {m m' : Monitor A} → Reach m m' → IsSound m → IsSound m'
  Reach-IsSound Reach.stay v = v
  Reach-IsSound (Reach.then_step run step) v = Step-IsSound step (Reach-IsSound run v)

  -- The closed queue with its consumer in the wait.
  abbrev pub asleep_after : Monitor A → Monitor A
  asleep_after m = record (shut_down m) { consumer = Consumer.asleep }

  asleep_stays : {m m' : Monitor A} → OwnStep m m' → ¬ (m.consumer ≡ Consumer.asleep)
  asleep_stays (OwnStep.call e) sleeps = absurd (ground (arith, e, sleeps))
  asleep_stays (OwnStep.wake e) sleeps = absurd (ground (arith, e, sleeps))

  call_sleeps :
      (m : Monitor A) {s m' : Monitor A}
      → m.consumer ≡ Consumer.idle
      → s ≡ shut_down m
      → OwnStep s m'
      → m' ≡ asleep_after m
  unfolding close pop_front
  call_sleeps m between at (OwnStep.call e) = rw at refl
  call_sleeps m between at (OwnStep.wake e) =
      absurd (ground (arith, e, ap (λ (s : Monitor A). s.consumer) at, ap notify between))

  -- When the queue is closed between two calls of the consumer, its next call goes to sleep. In
  -- every run in which nobody pushes, flushes or closes again, the consumer has not called yet, or
  -- it sleeps on the empty, closed queue and has no step of its own: it is never told that the
  -- queue is closed.
  pub shut-call :
      (m m' : Monitor A)
      → m.consumer ≡ Consumer.idle
      → Alone (shut_down m) m'
      → OwnStep (shut_down m) (asleep_after m)
        × ((m' ≡ shut_down m) ⊎ ((m' ≡ asleep_after m) × ((m'' : Monitor A) → ¬ OwnStep m' m'')))
  unfolding close pop_front
  shut-call m m' between run = (OwnStep.call (ap notify between), ends run)
    where
      ends :
          {m' : Monitor A}
          → Alone (shut_down m) m'
          → (m' ≡ shut_down m) ⊎ ((m' ≡ asleep_after m) × ((m'' : Monitor A) → ¬ OwnStep m' m''))
      ends Alone.stay = inl refl
      ends {m'} (Alone.then_step before step) = elim (ends before) [
        | inl at ↦
            let there = call_sleeps m between at step in
            inr (there, λ m'' next. asleep_stays next (ap (λ (s : Monitor A). s.consumer) there))
        | inr (_, stuck) ↦ absurd (stuck _ step)
      ]
