-- ===== src/Server/Healthy.antt =====
-- code/server/server.cpp: what holds between the steps of the server, and the changes that keep it.
use torch_server.Base.{
  ℕ, ◌+◌, ◌^◌, ◌≤◌, ◌<◌, ◌≡◌, ◌≢◌, subst, pos, Bool, true, false, ◌||◌, List, [], ◌∷◌, some,
  is_some, arith, ◌==◌, ==_iff, Bool-cases, inl, inr,
}
use torch_server.Timer.{Timer, TimerHeap, ms}
use torch_server.Timer.Nodes.{view}
use torch_server.Timer.Update.{IsValid}
use torch_server.Timer.Laws.{Stored}
use torch_server.Http.Conn.{Conn}
use torch_server.Epoller.{Events, Kernel, Epoller, EpollEvent, interest}
use torch_server.Server.{Server, Task, find, store, limit, max_fd}
use torch_server.Server.Loop.{is_listen_fd}
use torch_server.Server.Users.{opens, opens_at, count_open, find-store, count_open-store}

-- `k` is the connection of one of the callbacks.
unfoldable pub is_due : ℕ → List Timer → Bool
is_due k [] = false
is_due k (t ∷ ran) = t.cb == k || is_due k ran

module _ {Prob : Type 0} {kernel : Kernel} where
  -- With a time limit: each timer names a connection, none is later than a limit after the last
  -- reading of the clock, and each open connection has a timer, or its callback is still to run.
  pub record IsTimed (due : List Timer) (timeout last : ℕ) (s : Server Prob kernel) : Type 0 where
    pub valid : IsValid s.timer
    pub small : (k : ℕ) (t : Timer) → view s.timer k ≡ some t → k < 2 ^ 31
    pub called : (k : ℕ) (t : Timer) → view s.timer k ≡ some t → t.cb ≡ k
    pub known : (k : ℕ) (t : Timer) → view s.timer k ≡ some t → is_some (find k s.users) ≡ true
    pub early : (k : ℕ) (t : Timer) → view s.timer k ≡ some t → t.expires ≤ last + ms timeout
    pub covered :
        (k : ℕ) → opens_at (find k s.users) ≡ 1 → (is_some (view s.timer k) || is_due k due) ≡ true

  -- The count of the users is that of the open connections, and bounded; the connection under a
  -- descriptor has it; and the interest list has, next to the listening socket, open connections
  -- only.
  pub record IsHealthyBut (due : List Timer) (last : ℕ) (s : Server Prob kernel) : Type 0 where
    pub counted : s.user_cnt ≡ count_open s.users
    pub bounded : s.user_cnt ≤ max_fd
    pub named : (k : ℕ) (c : Conn Prob) → find k s.users ≡ some c → c.fd ≡ pos k
    pub watched :
        (k : ℕ) (mask : Events)
        → is_listen_fd k s.listen_fd ≡ false
        → interest s.epoller k ≡ some mask
        → opens_at (find k s.users) ≡ 1
    pub timed : (timeout : ℕ) → limit s.timeout_ms ≡ some timeout → IsTimed due timeout last s

  abbrev pub IsHealthy : ℕ → Server Prob kernel → Type 0
  IsHealthy last s = IsHealthyBut [] last s

  -- A change of the connection under `fd`.
  module _ (fd : ℕ) (c : Conn Prob) (e : Epoller kernel) (n : ℕ) (s : Server Prob kernel) where
    abbrev pub changed : Server Prob kernel
    changed = record s { epoller = e; users = store fd c s.users; user_cnt = n }

    pub changed-IsHealthy :
        (due due' : List Timer) (last : ℕ)
        → IsHealthyBut due last s
        → c.fd ≡ pos fd
        → n + opens_at (find fd s.users) ≡ s.user_cnt + opens c
        → n ≤ max_fd
        → ((k : ℕ) → fd ≢ k → interest e k ≡ interest s.epoller k)
        → ((mask : Events)
            → is_listen_fd fd s.listen_fd ≡ false
            → interest e fd ≡ some mask
            → opens c ≡ 1)
        → (opens c ≡ 1
            → (timeout : ℕ) → limit s.timeout_ms ≡ some timeout
            → (is_some (view s.timer fd) || is_due fd due') ≡ true)
        → ((k : ℕ) → fd ≢ k → is_due k due ≡ true → is_due k due' ≡ true)
        → IsHealthyBut due' last changed
    changed-IsHealthy due due' last v named count small others here covers dues = record {
      counted = omega (arith, count_open-store fd c s.users, v.counted);
      bounded = small;
      named = λ k d q. ground (arith, find-store fd k c s.users, v.named k d);
      watched = λ k mask q r. elim (Bool-cases (fd == k)) [
        | inl same ↦ ground (arith, find-store fd k c s.users, here mask)
        | inr other ↦ ground (arith, find-store fd k c s.users, others k, v.watched k mask)
      ];
      timed = λ timeout q.
          let t = v.timed timeout q in
          record {
            valid = t.valid;
            small = t.small;
            called = t.called;
            known = λ k u r. ground (arith, find-store fd k c s.users, t.known k u);
            early = t.early;
            covered = λ k r. elim (Bool-cases (fd == k)) [
              | inl same ↦
                  subst (λ j. (is_some (view s.timer j) || is_due j due') ≡ true)
                    ((==_iff fd k).0 same)
                    (covers (ground (arith, find-store fd k c s.users)) timeout q)
              | inr other ↦ ground (arith, find-store fd k c s.users, t.covered k, dues k)
            ];
          };
    }

  -- Time goes on.
  pub later-IsHealthy :
      (due : List Timer) (last now : ℕ) (s : Server Prob kernel)
      → IsHealthyBut due last s
      → last ≤ now
      → IsHealthyBut due now s
  later-IsHealthy due last now s v q = record {
    counted = v.counted;
    bounded = v.bounded;
    named = v.named;
    watched = v.watched;
    timed = λ timeout r.
        let t = v.timed timeout r in
        record {
          valid = t.valid;
          small = t.small;
          called = t.called;
          known = t.known;
          early = λ k u there. omega (arith, t.early k u there);
          covered = t.covered;
        };
  }

  -- A timer of a known connection is stored, for which a callback may have stood.
  pub armed-IsHealthy :
      (t : Timer) (h : TimerHeap) (last : ℕ) (s : Server Prob kernel)
      → IsHealthyBut (t ∷ []) last s
      → Stored t s.timer h
      → t.cb ≡ t.id
      → t.id < 2 ^ 31
      → is_some (find t.id s.users) ≡ true
      → ((timeout : ℕ) → limit s.timeout_ms ≡ some timeout → t.expires ≤ last + ms timeout)
      → IsHealthy last (record s { timer = h })
  unfolding is_due
  armed-IsHealthy t h last s v (valid, there) cb small known early = record {
    counted = v.counted;
    bounded = v.bounded;
    named = v.named;
    watched = v.watched;
    timed = λ timeout q.
        let u = v.timed timeout q in
        record {
          valid = valid;
          small = λ k w r. ground (arith, there k, u.small k w);
          called = λ k w r. ground (arith, there k, u.called k w);
          known = λ k w r. ground (arith, there k, u.known k w);
          early = λ k w r. ground (arith, there k, u.early k w, early timeout q);
          covered = λ k r. ground (arith, there k, u.covered k r);
        };
  }

  -- The count of all connections, the queue and the array of events do not matter.
  pub noted-IsHealthy :
      (n : ℕ) (tasks : List Task) (events : List EpollEvent) (due : List Timer) (last : ℕ)
      (s : Server Prob kernel)
      → IsHealthyBut due last s
      → IsHealthyBut due last (record s {
        total_cnt = n;
        tasks = tasks;
        epoller = record { state = s.epoller.state; events = events };
      })
  noted-IsHealthy n tasks events due last s v = record {
    counted = v.counted;
    bounded = v.bounded;
    named = v.named;
    watched = v.watched;
    timed = λ timeout q.
        let t = v.timed timeout q in
        record {
          valid = t.valid;
          small = t.small;
          called = t.called;
          known = t.known;
          early = t.early;
          covered = t.covered;
        };
  }

  -- More callbacks may be to run.
  pub due-IsHealthy :
      (due : List Timer) (last : ℕ) (s : Server Prob kernel)
      → IsHealthy last s
      → IsHealthyBut due last s
  unfolding is_due
  due-IsHealthy due last s v = record {
    counted = v.counted;
    bounded = v.bounded;
    named = v.named;
    watched = v.watched;
    timed = λ timeout q.
        let t = v.timed timeout q in
        record {
          valid = t.valid;
          small = t.small;
          called = t.called;
          known = t.known;
          early = t.early;
          covered = λ k r. ground (arith, t.covered k r);
        };
  }
