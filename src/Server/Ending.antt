-- ===== src/Server/Ending.antt =====
-- code/main.cpp and code/server/server.cpp: when the program ends, and what it closes.
use torch_server.Base.{
  fault, no_fuel, ◌>>=◌, ℕ, zero, suc, negsuc, ◌+◌, ◌<◌, ◌≡◌, ◌≢◌, refl, sym, ◌∙◌, ap, subst, ℤ,
  pos, Bool, true, false, Bytes, codes, List, [], ◌∷◌, ◌++◌, length, some, none, Option-cases, inl,
  inr, ok, arith, lt→ltb, Returns, returns, Returns-bind, Safely, safe, broken, Safely-bind,
  Safely-after, Safely-map, Safely-if, if◌then◌else◌,
}
use torch_server.Timer.{Timer, get_next_tick}
use torch_server.Epoller.{EpollEvent, Kernel, IsLawful, interest, get_event_fd, get_events, wait}
use torch_server.SqlPool.{SqlPool}
use torch_server.SqlPool as SqlPool
use torch_server.ThreadPool as ThreadPool
use torch_server.Model.{get_idx_to_label}
use torch_server.Log.{Log}
use torch_server.Server.{Server, limit}
use torch_server.Server.Loop.{Input, handle_from, handle_events, run_callbacks, next_wait, round}
use torch_server.Server.Reported.{close_conn-frame, handle_event-frame}
use torch_server.Server.Opening.{all_succeed, opened}
use torch_server.Server.Start.{prepare-IsPrepared, try_listen_starts}
use torch_server.Server.Main.{Given, Tick, Machine, build, init_torch_model, start, destroy, main}

module _ {Prob : Type 0} {kernel : Kernel} where
  abbrev SameFlag : Server Prob kernel → Server Prob kernel → Type 0
  SameFlag s s' = s'.is_closed ≡ s.is_closed

  run_callbacks_flag :
      (ran : List Timer) (s : Server Prob kernel) → Safely (SameFlag s) (run_callbacks ran s)
  unfolding run_callbacks
  run_callbacks_flag [] s = safe refl
  run_callbacks_flag (t ∷ ran) s = Safely-bind (close_conn-frame t.cb s) λ s' same.
      Safely-map (run_callbacks_flag ran s')
        λ s'' more. more ∙ ap (λ (f : List EpollEvent × Bool). f.1) same

  handle_from_flag :
      (inputs : ℕ → Input) (n i : ℕ) (s : Server Prob kernel)
      → Safely (SameFlag s) (handle_from inputs n i s)
  unfolding handle_from
  handle_from_flag inputs zero i s = safe refl
  handle_from_flag inputs (suc n) i s = Safely-after (get_event_fd i s.epoller) λ fd.
      Safely-after (get_events i s.epoller) λ events.
        Safely-bind (handle_event-frame (inputs i) fd events s) λ s' same.
          Safely-map (handle_from_flag inputs n (i + 1) s')
            λ s'' more. more ∙ ap (λ (f : List EpollEvent × Bool). f.1) same

  handle_events_flag :
      (inputs : ℕ → Input) (event_cnt : ℤ) (s : Server Prob kernel)
      → Safely (SameFlag s) (handle_events inputs event_cnt s)
  unfolding handle_events
  handle_events_flag inputs (pos n) s = handle_from_flag inputs n 0 s
  handle_events_flag inputs (negsuc n) s = safe refl

  next_wait_flag :
      (clock : ℕ → ℕ) (now : ℕ) (s : Server Prob kernel)
      → Safely (λ (time_ms, s'). SameFlag s s') (next_wait clock now s)
  unfolding next_wait
  next_wait_flag clock now s = elim (Option-cases (limit s.timeout_ms)) [
    | inl unlimited ↦ rw (next_wait, unlimited) (safe refl)
    | inr (timeout, limited) ↦
        rw (next_wait, limited)
          (Safely-after (get_next_tick clock now s.timer) λ (ran, time_ms, timer).
            Safely-bind (run_callbacks_flag ran (record s { timer = timer })) λ s' same. safe same)
  ]

  -- A loop that runs never ends by itself: whatever its rounds find, it does not return.
  pub start_endless :
      (ticks : List Tick) (s : Server Prob kernel)
      → s.is_closed ≡ false
      → Safely (λ s'. ⊥) (start ticks s)
  unfolding start round
  start_endless [] s runs =
      Safely-if s.is_closed (λ ends. absurd (ground (arith, ends))) λ _. broken
  start_endless (t ∷ later) s runs =
      Safely-if s.is_closed (λ ends. absurd (ground (arith, ends)))
        λ _.
          Safely-bind {Mid = λ s'. s'.is_closed ≡ false}
            (Safely-bind (next_wait_flag t.clock t.now s) λ (time_ms, s') same.
              Safely-map
                (handle_events_flag t.inputs (wait t.ready s'.epoller).0
                  (record s' { epoller = (wait t.ready s'.epoller).1 }))
                λ s'' more. more ∙ same ∙ runs)
            λ s' runs'. start_endless later s' runs'

  start_closed :
      (ticks : List Tick) (s : Server Prob kernel) → s.is_closed ≡ true → start ticks s ≡ ok s
  unfolding start
  start_closed [] s ends = subst (λ b. (if b then ok s else fault no_fuel) ≡ ok s) (sym ends) refl
  start_closed (t ∷ later) s ends =
      subst
        (λ b. (if b then ok s else (round t.clock t.now t.ready t.inputs s >>= start later)) ≡ ok s)
        (sym ends) refl

module _ (Prob : Type 0) {kernel : Kernel} where
  -- Over a lawful kernel that watches nothing yet, where the path of the working directory leaves
  -- room for its suffix, a connection was made, the network can be loaded, the labels can be read,
  -- and `socket` does not return 0: when a call for the socket fails, the program returns, and it
  -- closes the socket, if there is one, and then what stands in the server for it once more.
  pub main_ends :
      (lawful : IsLawful kernel) (given : Given kernel) (cwd : Bytes) (pool : SqlPool) (log : Log)
      (ticks : List Tick) (labels : List Bytes)
      → given.cwd ≡ some cwd
      → length cwd + 10 < 256
      → 0 < length given.connected
      → given.loads ≡ true
      → get_idx_to_label given.labels ≡ ok labels
      → given.calls.socket ≢ pos 0
      → ((k : ℕ) → interest given.epoller k ≡ none)
      → all_succeed given.calls ≡ false
      → Returns
          (λ closed. closed ≡ opened given.calls ++ given.calls.socket ∷ [])
          (main Prob given pool log ticks)
  unfolding main build destroy init_torch_model ThreadPool.init SqlPool.init
  main_ends lawful given cwd pool log ticks labels here room made loads read positive none_watched
        fails =
      rw (here, loads, read, lt→ltb _ _ made)
        (Returns-bind
          {Mid = λ (m : Machine Prob kernel).
            (m.closed ≡ opened given.calls)
            × (m.server.listen_fd ≡ given.calls.socket)
            × (m.server.is_closed ≡ true)}
          (Returns-bind
            (prepare-IsPrepared lawful (codes "Node") cwd (pos 1_316) (pos 3) (pos 5_000) false
              given.epoller given.raw (omega arith) room none_watched)
            λ (src_dir, s) (_, p).
              Returns-bind (try_listen_starts lawful given.calls given.epoller s positive p)
                λ (closed, s') (begun, listen_fd, ends). returns (
                  begun.1 ∙ ap (λ b. if b then opened given.calls else []) (ends fails),
                  listen_fd,
                  ends fails,
                ))
          λ m (closed, listen_fd, ends). rw (start_closed ticks m.server ends) (
            returns (
              ap (λ l. l ++ m.server.listen_fd ∷ []) closed
              ∙ ap (λ fd. opened given.calls ++ fd ∷ []) listen_fd)))
