-- ===== src/Server/Expiry.antt =====
-- code/server/server.cpp, `start`: the timers that have run out close their connections.
use torch_server.Base.{
  ℕ, suc, ◌≡◌, refl, sym, subst, ◌∙◌, ap, Bool, true, false, ◌||◌, ◌&&◌, List, [], ◌∷◌, length,
  Option, some, none, is_some, arith, ◌==◌, Option-cases, inl, inr, Returns, returns, Returns-map,
  Returns-bind, Returns-if, erase,
}
use torch_server.Timer.{Timer, TimerHeap, get_next_tick}
use torch_server.Timer.Nodes.{view, load-ok}
use torch_server.Timer.Update.{IsValid}
use torch_server.Timer.Tick.{Fired, AllLater, tick_fires, Ticked}
use torch_server.Epoller.{Kernel, IsLawful, interest}
use torch_server.Server.{Server, find, limit}
use torch_server.Server.Loop.{run_callbacks, next_wait}
use torch_server.Server.Users.{opens_at}
use torch_server.Server.Healthy.{IsHealthyBut, IsHealthy, is_due}
use torch_server.Server.Closing.{close_conn_shuts, IsSameRest, IsSameRest-trans}

pub next_tick-Ticked :
    (clock : ℕ → ℕ) (now : ℕ) (h : TimerHeap)
    → IsValid h
    → Returns (λ (ran, time_ms, h'). Ticked clock h (ran, h')) (get_next_tick clock now h)
unfolding get_next_tick
next_tick-Ticked clock now h v = Returns-bind (tick_fires clock h v) λ (ran, h') ticked.
    Returns-if (length h'.heap == 0) (λ none_left. returns ticked)
      (λ more. rw (load-ok h'.heap 0 (ground arith)) (returns ticked))

module _ (called : ℕ → Bool) where
  -- Each timer that ran names a connection of the map.
  unfoldable all_called : List Timer → Bool
  all_called [] = true
  all_called (t ∷ ran) = called t.cb && all_called ran

-- What `tick` leaves was there before.
Fired-kept :
    (clock : ℕ → ℕ) (m m' : ℕ → Option Timer) (ran : List Timer) (k : ℕ) (t : Timer)
    → Fired clock m ran m'
    → m' k ≡ some t
    → m k ≡ some t
Fired-kept clock m m' [] k t fired e = ap (λ f. f k) (sym fired) ∙ e
Fired-kept clock m m' (u ∷ ran) k t (there, _, _, fired) e =
    let old = Fired-kept (λ i. clock (suc i)) (erase m u.id) m' ran k t fired e in ground arith

module _ (m : ℕ → Option Timer) where
  abbrev NamesConn : Type 0
  NamesConn = (k : ℕ) (t : Timer) → m k ≡ some t → t.cb ≡ k

erase-NamesConn : (m : ℕ → Option Timer) (id : ℕ) → NamesConn m → NamesConn (erase m id)
erase-NamesConn m id names k t e = ground (arith, names k t)

-- A timer is left, or its callback runs.
Fired-covers :
    (clock : ℕ → ℕ) (m m' : ℕ → Option Timer) (ran : List Timer) (k : ℕ)
    → NamesConn m
    → Fired clock m ran m'
    → is_some (m k) ≡ true
    → (is_some (m' k) || is_due k ran) ≡ true
unfolding is_due
Fired-covers clock m m' [] k names fired e = ground (arith, ap (λ f. f k) fired)
Fired-covers clock m m' (u ∷ ran) k names (there, _, _, fired) e =
    let rest =
      Fired-covers (λ i. clock (suc i)) (erase m u.id) m' ran k (erase-NamesConn m u.id names)
        fired in
    ground (arith, names u.id u there)

Fired-all_called :
    (clock : ℕ → ℕ) (m m' : ℕ → Option Timer) (ran : List Timer) (known : ℕ → Bool)
    → NamesConn m
    → ((k : ℕ) (t : Timer) → m k ≡ some t → known k ≡ true)
    → Fired clock m ran m'
    → all_called known ran ≡ true
unfolding all_called
Fired-all_called clock m m' [] known names holds fired = refl
Fired-all_called clock m m' (u ∷ ran) known names holds (there, _, _, fired) =
    let rest =
      Fired-all_called (λ i. clock (suc i)) (erase m u.id) m' ran known
        (erase-NamesConn m u.id names) (λ k t e. ground (arith, holds k t)) fired in
    ground (arith, names u.id u there, holds u.id u there)

all_called-map :
    (f g : ℕ → Bool) (ran : List Timer)
    → ((k : ℕ) → f k ≡ true → g k ≡ true)
    → all_called f ran ≡ true
    → all_called g ran ≡ true
unfolding all_called
all_called-map f g [] h e = refl
all_called-map f g (t ∷ ran) h e = ground (arith, h t.cb, all_called-map f g ran h)

module _ {Prob : Type 0} {kernel : Kernel} where
  -- The connections of the callbacks are closed and not watched, the others are as they were.
  pub record IsExpired (ran : List Timer) (s s' : Server Prob kernel) : Type 0 where
    pub closed : (k : ℕ) → is_due k ran ≡ true → opens_at (find k s'.users) ≡ 0
    pub unwatched : (k : ℕ) → is_due k ran ≡ true → interest s'.epoller k ≡ none
    pub others : (k : ℕ) → is_due k ran ≡ false → find k s'.users ≡ find k s.users
    pub watches : (k : ℕ) → is_due k ran ≡ false → interest s'.epoller k ≡ interest s.epoller k
    pub rest : IsSameRest s s'

  abbrev known : Server Prob kernel → ℕ → Bool
  known s k = is_some (find k s.users)

  module _ (lawful : IsLawful kernel) where
    run_callbacks_expires :
        (ran : List Timer) (last : ℕ) (s : Server Prob kernel)
        → IsHealthyBut ran last s
        → all_called (known s) ran ≡ true
        → Returns (λ s'. IsHealthy last s' × IsExpired ran s s') (run_callbacks ran s)
    unfolding run_callbacks is_due all_called
    run_callbacks_expires [] last s v calls = returns (
      v,
      record {
        closed = λ k q. absurd (ground arith);
        unwatched = λ k q. absurd (ground arith);
        others = λ k q. refl;
        watches = λ k q. refl;
        rest = record { timer = refl; timeout_ms = refl; listen_fd = refl; tasks = refl };
      },
    )
    run_callbacks_expires (t ∷ ran) last s v calls = elim (Option-cases (find t.cb s.users)) [
      | inl missing ↦ absurd (ground arith)
      | inr (c, there) ↦
          Returns-bind
            (close_conn_shuts lawful (t ∷ ran) ran last t.cb s v (λ k q r. ground arith) c there)
            λ s' (v', shut).
              Returns-map
                (run_callbacks_expires ran last s' v' (
                  all_called-map (known s) (known s') ran
                    (λ k q. ground (arith, shut.others k, shut.stays)) (ground arith)))
                λ s'' (v'', e). (
                  v'',
                  record {
                    closed = λ k q. ground (arith, e.closed k, e.others k, shut.closed);
                    unwatched = λ k q. ground (arith, e.unwatched k, e.watches k, shut.unwatched);
                    others = λ k q. ground (arith, e.others k, shut.others k);
                    watches = λ k q. ground (arith, e.watches k, shut.watches k);
                    rest = IsSameRest-trans shut.rest e.rest;
                  },
                )
    ]

  popped-IsHealthy :
      (clock : ℕ → ℕ) (last : ℕ) (s : Server Prob kernel) (ran : List Timer) (h : TimerHeap)
      → IsHealthy last s
      → (timeout : ℕ) → limit s.timeout_ms ≡ some timeout
      → Ticked clock s.timer (ran, h)
      → IsHealthyBut ran last (record s { timer = h }) × (all_called (known s) ran ≡ true)
  unfolding is_due
  popped-IsHealthy clock last s ran h v timeout limited (valid, fired, later) =
      let t = v.timed timeout limited in
      let kept = λ (k : ℕ) (u : Timer). Fired-kept clock (view s.timer) (view h) ran k u fired in
      let popped : IsHealthyBut ran last (record s { timer = h }) = record {
        counted = v.counted;
        bounded = v.bounded;
        named = v.named;
        watched = v.watched;
        timed = λ timeout' q. record {
          valid = valid;
          small = λ k u r. t.small k u (kept k u r);
          called = λ k u r. t.called k u (kept k u r);
          known = λ k u r. t.known k u (kept k u r);
          early = λ k u r. (v.timed timeout' q).early k u (kept k u r);
          covered = λ k q.
              Fired-covers clock (view s.timer) (view h) ran k t.called fired
                (ground (arith, t.covered k q));
        };
      } in
      (popped, Fired-all_called clock (view s.timer) (view h) ran (known s) t.called t.known fired)

  -- What one call of `get_next_tick` does to the server, its callbacks included.
  abbrev pub Expired : (ℕ → ℕ) → Server Prob kernel → Server Prob kernel → Type 0
  Expired clock s s' =
      (ran : List Timer) × Fired clock (view s.timer) ran (view s'.timer)
      × AllLater (clock (length ran)) (view s'.timer)
      × IsExpired ran (record s { timer = s'.timer }) s'

  module _ (lawful : IsLawful kernel) where
    -- Over a lawful kernel: on a healthy server with a time limit the head of the event loop
    -- succeeds and leaves a healthy server. The timers that are due leave the heap, the earliest
    -- first; their connections are closed and watched no longer; every other connection is as it
    -- was, and every timer that is left is later than the clock's last reading by a millisecond at
    -- least.
    pub next_wait_expires :
        (clock : ℕ → ℕ) (now last timeout : ℕ) (s : Server Prob kernel)
        → IsHealthy last s
        → limit s.timeout_ms ≡ some timeout
        → Returns (λ (time_ms, s'). IsHealthy last s' × Expired clock s s') (next_wait clock now s)
    unfolding next_wait
    next_wait_expires clock now last timeout s v limited =
        rw (next_wait, limited)
          (Returns-bind (next_tick-Ticked clock now s.timer (v.timed timeout limited).valid)
            λ (ran, time_ms, h) ticked.
              let (popped, calls) = popped-IsHealthy clock last s ran h v timeout limited ticked in
              Returns-bind
                (run_callbacks_expires lawful ran last (record s { timer = h }) popped calls)
                λ s' (v', e).
                  let (fired, later, e') =
                    subst
                      (λ x.
                        Fired clock (view s.timer) ran (view x)
                        × AllLater (clock (length ran)) (view x)
                        × IsExpired ran (record s { timer = x }) s')
                      (sym e.rest.timer) (ticked.1, ticked.2, e) in
                  returns (v', (ran, fired, later, e')))
