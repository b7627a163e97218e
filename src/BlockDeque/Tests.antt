-- ===== src/BlockDeque/Tests.antt =====
-- Runs of the queue, and instances of its theorems.
use torch_server.Base.{ℕ, ◌≡◌, refl, false, [], ◌∷◌, none, arith, ◌⊎◌}
use torch_server.BlockDeque.{BlockDeque, push_back, pop_front, full, close}
use torch_server.BlockDeque.Steps.{
  Monitor, Consumer, Step, Reach, IsSound, OwnStep, Alone, shut_down, asleep_after, Reach-IsSound,
  shut-call,
}

abbrev two_items : BlockDeque ℕ
two_items = record { deq = 4 ∷ 5 ∷ []; capacity = 2; is_closed = false }

producer_waits : push_back 6 two_items ≡ none
unfolding push_back full
producer_waits = refl

abbrev starting : Monitor ℕ
starting = record {
  deque = record { deq = []; capacity = 1; is_closed = false };
  consumer = Consumer.idle;
  pushed = [];
  popped = [];
}

abbrev one_logged : Monitor ℕ
one_logged = record starting { pushed = 7 ∷ []; popped = 7 ∷ [] }

-- One item is pushed and popped.
logged : Reach starting one_logged
unfolding push_back full pop_front
logged = Reach.then_step (Reach.then_step Reach.stay (Step.push 7 refl)) (Step.call refl)

Reach-IsSound_example : IsSound one_logged
Reach-IsSound_example =
    Reach-IsSound logged (record { bounded = omega arith; in_order = λ e. refl })

-- After the close the consumer calls once.
called : Alone (shut_down starting) (asleep_after starting)
unfolding close pop_front
called = Alone.then_step Alone.stay (OwnStep.call refl)

shut-call_example :
    OwnStep (shut_down starting) (asleep_after starting)
    × ((asleep_after starting ≡ shut_down starting)
        ⊎ ((asleep_after starting ≡ asleep_after starting)
            × ((m : Monitor ℕ) → ¬ OwnStep (asleep_after starting) m)))
shut-call_example = shut-call starting (asleep_after starting) refl called
