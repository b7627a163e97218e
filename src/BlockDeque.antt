-- ===== src/BlockDeque.antt =====
-- code/log/block_deque.h: the bounded queue between the threads that log and the thread that writes.
-- Every operation runs under the lock, so it is a function on the state; `none` is a wait.
pub mod Steps
pub mod Tests
use torch_server.Base.{
  ℕ, Bool, true, false, List, [], ◌∷◌, ◌++◌, length, Option, some, none, leb, ltb, Run, ok, assert,
  ◌>>=◌, ◌>>◌, if◌then◌else◌,
}

pub record BlockDeque {ℓ} (A : Type ℓ) : Type ℓ where
  pub deq : List A
  pub capacity : ℕ
  pub is_closed : Bool

-- What a consumer gets: an item, `false`, or a wait.
pub data Popped {ℓ} (A : Type ℓ) : Type ℓ where
  item : A → BlockDeque A → Popped A
  refused : Popped A
  waiting : Popped A

module _ {ℓ} {A : Type ℓ} where
  unfoldable pub new : ℕ → Run (BlockDeque A)
  new max_capacity = do
    assert (ltb 0 max_capacity)
    ok (record { deq = []; capacity = max_capacity; is_closed = false })

  unfoldable pub empty : BlockDeque A → Bool
  empty d = elim d.deq [ [] ↦ true | x ∷ xs ↦ false ]

  unfoldable pub full : BlockDeque A → Bool
  full d = leb d.capacity (length d.deq)

  unfoldable pub clear : BlockDeque A → BlockDeque A
  clear d = record d { deq = [] }

  unfoldable pub close : BlockDeque A → BlockDeque A
  close d = record d { deq = []; is_closed = true }

  -- The destructor.
  unfoldable pub destroy : BlockDeque A → BlockDeque A
  destroy d = close d

  -- `flush` only notifies a consumer.
  unfoldable pub flush : BlockDeque A → BlockDeque A
  flush d = d

  unfoldable pub front : BlockDeque A → Option A
  front d = elim d.deq [ [] ↦ none | x ∷ xs ↦ some x ]

  -- `none` where the producer waits.
  unfoldable pub push_back : A → BlockDeque A → Option (BlockDeque A)
  push_back x d = if full d then none else some (record d { deq = d.deq ++ x ∷ [] })

  unfoldable pub push_front : A → BlockDeque A → Option (BlockDeque A)
  push_front x d = if full d then none else some (record d { deq = x ∷ d.deq })

  -- `pop_front`, from its beginning: `is_closed_` is not looked at.
  unfoldable pub pop_front : BlockDeque A → Popped A
  pop_front d = elim d.deq [ [] ↦ waiting | x ∷ xs ↦ item x (record d { deq = xs }) ]

  -- `pop_front`, from the return of its wait on.
  unfoldable pub resume_pop : BlockDeque A → Popped A
  resume_pop d = if d.is_closed then refused else pop_front d

  unfoldable pub last_of : List A → Option A
  last_of [] = none
  last_of (x ∷ xs) = elim xs [ [] ↦ some x | y ∷ ys ↦ last_of xs ]

  unfoldable pub back : BlockDeque A → Option A
  back d = last_of d.deq

  -- `pop_front` with a time limit. Each wait ends with the time, `none`, or with the state that the
  -- thread finds when it is woken.
  unfoldable pub pop_front_for : List (Option (BlockDeque A)) → BlockDeque A → Popped A
  pop_front_for [] d = pop_front d
  pop_front_for (none ∷ later) d = elim d.deq [
    | [] ↦ refused
    | x ∷ xs ↦ item x (record d { deq = xs })
  ]
  pop_front_for (some d' ∷ later) d =
      let rest = pop_front_for later d' in
      elim d.deq [
        | [] ↦ if d'.is_closed then refused else rest
        | x ∷ xs ↦ item x (record d { deq = xs })
      ]
