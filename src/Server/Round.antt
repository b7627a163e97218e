-- ===== src/Server/Round.antt =====
-- code/server/server.cpp, `start`: a whole round of the event loop.
use torch_server.Base.{
  pos, negsuc, Bool, not, ◌&&◌, ◌==◌, ◌⊎◌, ℕ, suc, ◌+◌, ◌≤◌, ◌≡◌, ◌≢◌, refl, sym, ◌∙◌, ap, subst, ℤ,
  true, false, List, [], ◌∷◌, ◌++◌, length, take, drop, Option, some, none, ok, arith, get_elem?,
  Returns, returns, Returns-bind, Returns-and,
}
use torch_server.Epoller.{EpollEvent, Epoller, Kernel, IsLawful, wait, get_event_fd, get_events}
use torch_server.Server.{Server, Accept, refused, accepted, find}
use torch_server.Server.Loop.{Input, is_listen_fd, handle_from, handle_events, next_wait, round}
use torch_server.Server.Users.{opens_at}
use torch_server.Server.Healthy.{IsHealthy}
use torch_server.Server.Listening.{AreFresh, is_free}
use torch_server.Server.Serving.{LeavesOthers, handle_live}
use torch_server.Server.Reported.{reported, handle_event-frame}
use torch_server.Server.Reach.{expires-IsHealthy, waits-IsHealthy}

-- The events stand in the array, from the `i`-th place on.
abbrev pub AreAt : ℕ → List EpollEvent → List EpollEvent → Type 0
AreAt i [] array = Unit {0}
AreAt i (e ∷ later) array = (get_elem? array i ≡ some e) × AreAt (i + 1) later array

AreAt-cons :
    (i : ℕ) (later array : List EpollEvent) (e : EpollEvent)
    → AreAt i later array
    → AreAt (i + 1) later (e ∷ array)
AreAt-cons i [] array e at = tt
AreAt-cons i (f ∷ later) array e (here, at) = (
  subst (λ k. get_elem? (e ∷ array) k ≡ some f) {x = suc i} {y = i + 1} (omega arith) here,
  AreAt-cons (i + 1) later array e at,
)

AreAt-append : (ready rest : List EpollEvent) → AreAt 0 ready (ready ++ rest)
AreAt-append [] rest = tt
AreAt-append (e ∷ ready) rest =
    (refl, AreAt-cons 0 ready (ready ++ rest) e (AreAt-append ready rest))

-- The events are of other descriptors.
abbrev pub AreOthers : ℕ → List EpollEvent → Type 0
AreOthers fd [] = Unit {0}
AreOthers fd (e ∷ later) = (fd ≢ e.fd) × AreOthers fd later

-- The events that a call of `epoll_wait` reports into an array of `n` places.
abbrev pub events_of : ℕ → Option (List EpollEvent) → List EpollEvent
events_of n none = []
events_of n (some ready) = take n ready

-- When the last of these events was handled.
abbrev pub end_of : (ℕ → Input) → ℕ → ℕ → List EpollEvent → ℕ
end_of inputs i last [] = last
end_of inputs i last (e ∷ later) = end_of inputs (i + 1) (inputs i).now later

AreFresh-more :
    (free free' : ℕ → Bool) (until last : ℕ) (accepts : List Accept)
    → ((k : ℕ) → free k ≡ true → free' k ≡ true)
    → AreFresh free until last accepts
    → AreFresh free' until last accepts
AreFresh-more free free' until last [] more fresh = fresh
AreFresh-more free free' until last (refused ∷ later) more fresh = tt
AreFresh-more free free' until last (accepted a ∷ later) more
      (positive, small, late, before, here, fresh) =
    (
      positive,
      small,
      late,
      before,
      more a.fd here,
      AreFresh-more (λ k. free k && not (a.fd == k)) (λ k. free' k && not (a.fd == k)) until a.now
          later (λ k q. ground (arith, more k)) fresh,
    )

one_listens :
    (fd k : ℕ) (listen_fd : ℤ)
    → fd ≢ k
    → is_listen_fd k listen_fd ≡ true
    → is_listen_fd fd listen_fd ≡ false
unfolding is_listen_fd
one_listens fd k (pos n) other listens = ground arith
one_listens fd k (negsuc n) other listens = refl

module _ {Prob : Type 0} {kernel : Kernel} where
  -- What epoll reports of a server: events of different descriptors, each of the listening socket or
  -- of an open connection; and the inputs of their handlers, at times that do not go back, with fresh
  -- descriptors from `accept`.
  abbrev pub AreReported : (ℕ → Input) → ℕ → ℕ → List EpollEvent → Server Prob kernel → Type 0
  AreReported inputs i last [] s = Unit {0}
  AreReported inputs i last (e ∷ later) s =
      (last ≤ (inputs i).now)
      × AreFresh (is_free s) (inputs i).now last (inputs i).accepts
      × ((is_listen_fd e.fd s.listen_fd ≡ true) ⊎ (opens_at (find e.fd s.users) ≡ 1))
      × AreOthers e.fd later
      × AreReported inputs (i + 1) (inputs i).now later s

  -- The same for the events that are left, where only the listening socket needs fresh descriptors.
  abbrev AreLeft : (ℕ → Input) → ℕ → ℕ → List EpollEvent → Server Prob kernel → Type 0
  AreLeft inputs i last [] s = Unit {0}
  AreLeft inputs i last (e ∷ later) s =
      (last ≤ (inputs i).now)
      × (is_listen_fd e.fd s.listen_fd ≡ true
          → AreFresh (is_free s) (inputs i).now last (inputs i).accepts)
      × (is_listen_fd e.fd s.listen_fd ≡ false → opens_at (find e.fd s.users) ≡ 1)
      × AreOthers e.fd later
      × AreLeft inputs (i + 1) (inputs i).now later s

  AreReported-left :
      (inputs : ℕ → Input) (i last : ℕ) (events : List EpollEvent) (s : Server Prob kernel)
      (epoller : Epoller kernel)
      → AreReported inputs i last events s
      → AreLeft inputs i last events (record s { epoller = epoller })
  AreReported-left inputs i last [] s epoller r = tt
  AreReported-left inputs i last (e ∷ later) s epoller (on_time, fresh, live, others, r) = (
    on_time,
    λ _. fresh,
    λ other. ground (arith, live),
    others,
    AreReported-left inputs (i + 1) (inputs i).now later s epoller r,
  )

  -- The events that are left stay right when an event of another descriptor was handled.
  AreLeft-after :
      (inputs : ℕ → Input) (i last fd : ℕ) (events : List EpollEvent) (s s' : Server Prob kernel)
      → LeavesOthers fd s s'
      → AreOthers fd events
      → AreLeft inputs i last events s
      → AreLeft inputs i last events s'
  AreLeft-after inputs i last fd [] s s' l others left = tt
  AreLeft-after inputs i last fd (e ∷ later) s s' l (other, others)
        (on_time, fresh, live, unlike, left) =
      (
        on_time,
        λ listens.
            let listens' : is_listen_fd e.fd s.listen_fd ≡ true =
              ap (is_listen_fd e.fd) (sym l.listen_fd) ∙ listens in
            AreFresh-more (is_free s) (is_free s') (inputs i).now last (inputs i).accepts
              (l.free (one_listens fd e.fd s.listen_fd other listens')) (fresh listens'),
        λ quiet. l.stay e.fd other (live (ap (is_listen_fd e.fd) (sym l.listen_fd) ∙ quiet)),
        unlike,
        AreLeft-after inputs (i + 1) (inputs i).now fd later s s' l others left,
      )

wait-AreAt :
    {kernel : Kernel} (ready : List EpollEvent) (e : Epoller kernel)
    → AreAt 0 (take (length e.events) ready) (wait (some ready) e).1.events
unfolding wait
wait-AreAt ready e =
    let found = take (length e.events) ready in AreAt-append found (drop (length found) e.events)

module _ {Prob : Type 0} {kernel : Kernel} (lawful : IsLawful kernel) where
  handle_from-IsHealthy :
      (inputs : ℕ → Input) (i last : ℕ) (events : List EpollEvent) (s : Server Prob kernel)
      → IsHealthy last s
      → AreAt i events (reported s)
      → AreLeft inputs i last events s
      → Returns (IsHealthy (end_of inputs i last events)) (handle_from inputs (length events) i s)
  unfolding handle_from get_event_fd get_events
  handle_from-IsHealthy inputs i last [] s v at left = returns v
  handle_from-IsHealthy inputs i last (e ∷ later) s v (here, at)
        (on_time, fresh, live, others, left) =
      rw here (
        Returns-bind
          (Returns-and (handle_live lawful (inputs i) e.fd e.events last s v on_time fresh live)
            (handle_event-frame (inputs i) e.fd e.events s))
          λ s' ((v', l), same).
            handle_from-IsHealthy inputs (i + 1) (inputs i).now later s' v'
              (subst (AreAt (i + 1) later) (sym (ap (λ (f : List EpollEvent × Bool). f.0) same)) at)
              (AreLeft-after inputs (i + 1) (inputs i).now e.fd later s s' l others left))

  -- Over a lawful kernel, on a healthy server, where the timers that were due have been handled: a
  -- whole round of the event loop succeeds and leaves a healthy server, when `epoll_wait` fails or
  -- reports events of different descriptors, each of the listening socket or of a connection that is
  -- open then, when the clock does not go back from one event to the next, and when what `accept`
  -- gives is fresh. No event of the round spoils a later one.
  pub round-IsHealthy :
      (clock : ℕ → ℕ) (now last : ℕ) (time_ms : ℤ) (ready : Option (List EpollEvent))
      (inputs : ℕ → Input) (s s' : Server Prob kernel)
      → IsHealthy last s
      → next_wait clock now s ≡ ok (time_ms, s')
      → AreReported inputs 0 last (events_of (length (reported s')) ready) s'
      → Returns
          (IsHealthy (end_of inputs 0 last (events_of (length (reported s')) ready)))
          (round clock now ready inputs s)
  unfolding round handle_events wait
  round-IsHealthy clock now last time_ms none inputs s s' v run r =
      let v' = expires-IsHealthy lawful last s v clock now time_ms s' run in
      rw run (returns (waits-IsHealthy lawful last s' v' none))
  round-IsHealthy clock now last time_ms (some ready) inputs s s' v run r =
      let v' = expires-IsHealthy lawful last s v clock now time_ms s' run in
      let found = take (length (reported s')) ready in
      let epoller = (wait (some ready) s'.epoller).1 in
      rw run (
        handle_from-IsHealthy inputs 0 last found (record s' { epoller = epoller })
          (waits-IsHealthy lawful last s' v' (some ready)) (wait-AreAt ready s'.epoller)
          (AreReported-left inputs 0 last found s' epoller r))
