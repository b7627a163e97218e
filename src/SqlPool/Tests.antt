-- ===== src/SqlPool/Tests.antt =====
-- Threads that share one connection, and instances of the theorems on the pool.
use torch_server.Base.{◌≡◌, refl, [], ◌∷◌, some, ok, fault, assertion, arith, none, inl}
use torch_server.SqlPool.{
  SqlPool, init, get_conn, free_conn, raii_acquire, raii_release, get_free_conn_count,
}
use torch_server.SqlPool.Steps.{Crowd, Step, Reach, IsKept, count, notify_one, Reach-IsKept}

abbrev one_conn : SqlPool
one_conn = record { max_conn = 1; conn_queue = some 4 ∷ [] }

abbrev none_stored : SqlPool
none_stored = record one_conn { conn_queue = [] }

connected : init (some 4 ∷ []) (record { max_conn = 0; conn_queue = [] }) ≡ ok one_conn
unfolding init
connected = refl

no_room : init [] none_stored ≡ fault assertion
unfolding init
no_room = refl

null_given : free_conn none none_stored ≡ fault assertion
unfolding free_conn
null_given = refl

abbrev start : Crowd
start = record { pool = one_conn; wanting = 0; waiting = 0; lent = []; closed = []; again = [] }

start-IsKept : IsKept (some 4 ∷ []) start
unfolding count get_free_conn_count
start-IsKept = record { each = λ conn. omega arith; total = omega arith; awake = inl refl }

-- Two threads come, one takes the connection and the other sleeps.
abbrev one_sleeps : Crowd
one_sleeps = record {
  pool = none_stored;
  wanting = 0;
  waiting = 1;
  lent = some 4 ∷ [];
  closed = [];
  again = [];
}

to_sleep : Reach start one_sleeps
unfolding raii_acquire get_conn
to_sleep =
    Reach.then_step
      (Reach.then_step (Reach.then_step (Reach.then_step Reach.stay Step.call) Step.call)
        (Step.take {n = 1} {pool = none_stored} refl refl))
      (Step.sleep {n = 0} refl refl)

-- The connection is given back, and the sleeper is woken.
abbrev one_woken : Crowd
one_woken = record { pool = one_conn; wanting = 1; waiting = 0; lent = []; closed = []; again = [] }

woken : Reach start one_woken
unfolding raii_release free_conn notify_one
woken = Reach.then_step to_sleep (Step.give [] [] 4 {pool = one_conn} refl refl)

-- It is given back once more.
abbrev twice_given : Crowd
twice_given = record one_woken {
  pool = record one_conn { conn_queue = some 4 ∷ some 4 ∷ [] };
  again = some 4 ∷ [];
}

given_again : Reach start twice_given
unfolding free_conn notify_one
given_again =
    Reach.then_step woken
      (Step.give_again 4 {pool = record one_conn { conn_queue = some 4 ∷ some 4 ∷ [] }} refl)

Reach-IsKept_example : IsKept (some 4 ∷ []) twice_given
Reach-IsKept_example = Reach-IsKept (some 4 ∷ []) given_again start-IsKept
