-- ===== src/Server/Start.antt =====
-- code/server/server.cpp, the constructor and `init_socket_`: the state that the event loop starts
-- from.
use torch_server.Base.{
  ℕ, ◌+◌, ◌<◌, ◌≡◌, ◌≢◌, refl, ◌∙◌, ℤ, pos, negsuc, Bool, true, false, List, [], ◌++◌, Bytes,
  length, codes, not, ◌&&◌, ◌||◌, ◌==◌, ap, sym, subst, Returns-and, Returns→Safely, some, none,
  arith, is_some, lt→ltb, Bool-cases, inl, inr, Returns, returns, Returns-bind, if◌then◌else◌,
}
use torch_server.Timer.{empty}
use torch_server.Epoller.{Events, Kernel, Epoller, IsLawful, interest, no_events, with_in, add_fd}
use torch_server.Server.{Server, init_event_mode, is_edge_listen, is_edge_conn}
use torch_server.Server.Reach.{IsStart}
use torch_server.Server.Socket.{SocketCalls, resources, construct, prepare, try_listen}
use torch_server.Server.Opening.{all_succeed, opened, IsListening, init_socket_listens}

-- The one-digit cases of `trig_mode`.
abbrev is_mode : ℕ → ℤ → Bool
is_mode n (pos m) = m == n
is_mode n (negsuc m) = false

-- Edge-triggered in every mode but 0 and `other`.
abbrev pub at_edge : ℕ → ℤ → Bool
at_edge other mode = not (is_mode 0 mode || is_mode other mode)

listen-at_edge : (mode : ℤ) → is_edge_listen mode ≡ at_edge 1 mode
unfolding is_edge_listen
listen-at_edge (pos n) = ground arith
listen-at_edge (negsuc n) = refl

conn-at_edge : (mode : ℤ) → is_edge_conn mode ≡ at_edge 2 mode
unfolding is_edge_conn
conn-at_edge (pos n) = ground arith
conn-at_edge (negsuc n) = refl

module _ {Prob : Type 0} {kernel : Kernel} (lawful : IsLawful kernel) where
  begins :
      (calls : SocketCalls) (s : Server Prob kernel) (out : Bool × List ℤ × Server Prob kernel)
      (is_closed : Bool)
      → IsListening lawful calls s out
      → s.users ≡ []
      → s.user_cnt ≡ 0
      → s.timer ≡ empty
      → ((k : ℕ) → interest s.epoller k ≡ none)
      → IsStart (record out.2 { is_closed = is_closed })
  begins calls s out is_closed l users user_cnt timer none_watched = record {
    users = l.users ∙ users;
    user_cnt = l.user_cnt ∙ user_cnt;
    timer = l.timer ∙ timer;
    unwatched = λ k mask q r. ground (arith, l.others k, l.listen_fd, none_watched k);
  }

  -- Before `init_socket` nothing is there but what epoll watches, which is nothing.
  pub record IsPrepared (epoller : Epoller kernel) (s : Server Prob kernel) : Type 0 where
    pub users : s.users ≡ []
    user_cnt : s.user_cnt ≡ 0
    timer : s.timer ≡ empty
    is_closed : s.is_closed ≡ false
    none_watched : (k : ℕ) → interest s.epoller k ≡ none

  pub prepare-IsPrepared :
      (name cwd : Bytes) (port trig_mode timeout_ms : ℤ) (opt_linger : Bool)
      (epoller : Epoller kernel) (raw : ℤ × Events)
      → length name < 10
      → length cwd + 10 < 256
      → ((k : ℕ) → interest epoller k ≡ none)
      → Returns
          (λ (src_dir, s). (src_dir ≡ cwd ++ codes "/resources") × IsPrepared epoller s)
          (prepare {Prob = Prob} name (some cwd) port trig_mode timeout_ms opt_linger epoller raw)
  unfolding prepare resources init_event_mode
  prepare-IsPrepared name cwd port trig_mode timeout_ms opt_linger epoller raw short room
        none_watched =
      rw (lt→ltb _ _ short, lt→ltb _ _ room)
        (returns (
          refl,
          record {
            users = refl;
            user_cnt = refl;
            timer = refl;
            is_closed = refl;
            none_watched = none_watched;
          },
        ))

  -- The state that the event loop starts from, and whether it runs.
  abbrev pub Begun : SocketCalls → List ℤ → Server Prob kernel → Type 0
  Begun calls closed s =
      IsStart s
      × (closed ≡ (if s.is_closed then opened calls else []))
      × (s.is_closed ≡ false
          → (all_succeed calls ≡ true)
            × ((fd : ℕ) → calls.socket ≡ pos fd → is_some (interest s.epoller fd) ≡ true))

  pub try_listen_starts :
      (calls : SocketCalls) (epoller : Epoller kernel) (s : Server Prob kernel)
      → calls.socket ≢ pos 0
      → IsPrepared epoller s
      → Returns
          (λ (closed, s').
            Begun calls closed s'
            × (s'.listen_fd ≡ calls.socket)
            × (all_succeed calls ≡ false → s'.is_closed ≡ true))
          (try_listen calls s)
  unfolding try_listen
  try_listen_starts calls epoller s positive p =
      Returns-bind (init_socket_listens lawful calls s positive) λ (is_init, closed, s') l.
        elim (Bool-cases is_init) [
          | inl success ↦ rw success (
              returns (
                (
                  begins calls _ _ s'.is_closed l p.users p.user_cnt p.timer p.none_watched,
                  ground (arith, l.closed, l.is_closed, p.is_closed),
                  λ q. (ground (arith, l.succeeds), λ fd e. ground (arith, l.watches success fd e)),
                ),
                l.listen_fd,
                λ fails. absurd (ground (arith, l.succeeds)),
              ))
          | inr failure ↦ rw failure (
              returns (
                (
                  begins calls _ _ true l p.users p.user_cnt p.timer p.none_watched,
                  ground (arith, l.closed),
                  λ q. absurd (ground arith),
                ),
                l.listen_fd,
                λ fails. refl,
              ))
        ]

  -- What the arguments of the constructor set, and what starts at nothing.
  pub record HasSettings (given_port trig_mode given_ms : ℤ) (opt_linger : Bool)
      (s : Server Prob kernel) : Type 0 where
    pub port : s.port ≡ given_port
    pub linger : s.linger ≡ opt_linger
    pub timeout_ms : s.timeout_ms ≡ given_ms
    pub listen_event :
        s.listen_event ≡ record no_events { epollrdhup = true; epollet = at_edge 1 trig_mode }
    pub conn_event :
        s.conn_event
        ≡ record no_events { epolloneshot = true; epollrdhup = true; epollet = at_edge 2 trig_mode }
    pub et : s.et ≡ at_edge 2 trig_mode
    pub total_cnt : s.total_cnt ≡ 0
    pub tasks : s.tasks ≡ []

  prepare-HasSettings :
      (name cwd : Bytes) (port trig_mode timeout_ms : ℤ) (opt_linger : Bool)
      (epoller : Epoller kernel) (raw : ℤ × Events)
      → length name < 10
      → length cwd + 10 < 256
      → Returns
          (λ (_, s). HasSettings port trig_mode timeout_ms opt_linger s × (s.epoller ≡ epoller))
          (prepare {Prob = Prob} name (some cwd) port trig_mode timeout_ms opt_linger epoller raw)
  unfolding prepare resources init_event_mode
  prepare-HasSettings name cwd port trig_mode timeout_ms opt_linger epoller raw short room =
      rw (lt→ltb _ _ short, lt→ltb _ _ room, listen-at_edge trig_mode, conn-at_edge trig_mode)
        (returns (
          record {
            port = refl;
            linger = refl;
            timeout_ms = refl;
            listen_event = ground arith;
            conn_event = ground arith;
            et = ground arith;
            total_cnt = refl;
            tasks = refl;
          },
          refl,
        ))

  -- All calls succeed, that of `epoll_ctl` included.
  abbrev pub opens_all : SocketCalls → Server Prob kernel → Bool
  opens_all calls s =
      all_succeed calls && (add_fd calls.socket (with_in s.listen_event) s.epoller).0

  -- What `init_socket` and the test of its result make of the state.
  record IsTried (calls : SocketCalls) (s s' : Server Prob kernel) : Type 0 where
    rest :
        s' ≡ record s { listen_fd = calls.socket; epoller = s'.epoller; is_closed = s'.is_closed }
    runs : s'.is_closed ≡ not (opens_all calls s)
    watched :
        s'.is_closed ≡ false
        → (fd : ℕ) → calls.socket ≡ pos fd
        → interest s'.epoller fd ≡ some (with_in s.listen_event)

  try_listen-IsTried :
      (calls : SocketCalls) (s : Server Prob kernel)
      → calls.socket ≢ pos 0
      → s.is_closed ≡ false
      → Returns (λ (_, s'). IsTried calls s s') (try_listen calls s)
  unfolding try_listen
  try_listen-IsTried calls s positive open_still =
      Returns-bind (init_socket_listens lawful calls s positive) λ (is_init, closed, s') l.
        elim (Bool-cases is_init) [
          | inl success ↦ rw success (
              returns (record {
                rest =
                    l.rest
                    ∙ ap
                        (λ b. record s {
                          listen_fd = calls.socket;
                          epoller = s'.epoller;
                          is_closed = b;
                        })
                        (sym l.is_closed);
                runs = l.is_closed ∙ open_still ∙ ap not (sym success ∙ l.succeeds);
                watched = λ _ fd e. l.watches success fd e;
              }))
          | inr failure ↦ rw failure (
              returns (record {
                rest = ap (λ (t : Server Prob kernel). record t { is_closed = true }) l.rest;
                runs = ap not (sym failure ∙ l.succeeds);
                watched = λ q. absurd (ground (arith, q));
              }))
        ]

  HasSettings-rest :
      (port trig_mode timeout_ms : ℤ) (opt_linger : Bool) (calls : SocketCalls)
      (s s' : Server Prob kernel)
      → HasSettings port trig_mode timeout_ms opt_linger s
      → IsTried calls s s'
      → HasSettings port trig_mode timeout_ms opt_linger s'
  HasSettings-rest port trig_mode timeout_ms opt_linger calls s s' h t =
      subst (HasSettings port trig_mode timeout_ms opt_linger) (sym t.rest) (record {
        port = h.port;
        linger = h.linger;
        timeout_ms = h.timeout_ms;
        listen_event = h.listen_event;
        conn_event = h.conn_event;
        et = h.et;
        total_cnt = h.total_cnt;
        tasks = h.tasks;
      })

  -- Over a lawful kernel, whatever the port, where the name has at most 9 bytes, the path of the
  -- working directory leaves room for its suffix, and `socket` does not return 0: the constructor
  -- succeeds, on an epoll instance that watches nothing, and makes a state that the event loop can
  -- start from, with the port, the time limit and the option that it is given, no task, and the
  -- events of its mode: edge-triggered for the listening socket but in modes 0 and 1, and for the
  -- connections but in modes 0 and 2. The loop runs exactly if all calls succeed, `epoll_ctl`
  -- included. The socket is then watched for new connections; otherwise it is closed, if there is
  -- one.
  pub construct_starts :
      (name cwd : Bytes) (port trig_mode timeout_ms : ℤ) (opt_linger : Bool) (calls : SocketCalls)
      (epoller : Epoller kernel) (raw : ℤ × Events)
      → length name < 10
      → length cwd + 10 < 256
      → calls.socket ≢ pos 0
      → ((k : ℕ) → interest epoller k ≡ none)
      → Returns
          (λ (src_dir, closed, s).
            (src_dir ≡ cwd ++ codes "/resources")
            × IsStart s
            × HasSettings port trig_mode timeout_ms opt_linger s
            × (s.listen_fd ≡ calls.socket)
            × (s.is_closed
                ≡ not
                    (all_succeed calls && (add_fd calls.socket (with_in s.listen_event) epoller).0))
            × (s.is_closed ≡ false
                → (fd : ℕ) → calls.socket ≡ pos fd
                → interest s.epoller fd ≡ some (with_in s.listen_event))
            × (closed ≡ (if s.is_closed then opened calls else [])))
          (construct {Prob = Prob} name
            (some cwd)
            port
            trig_mode
            timeout_ms
            opt_linger
            calls
            epoller
            raw)
  unfolding construct
  construct_starts name cwd port trig_mode timeout_ms opt_linger calls epoller raw short room
        positive none_watched =
      Returns-bind
        (Returns-and
          (prepare-IsPrepared name cwd port trig_mode timeout_ms opt_linger epoller raw short room
            none_watched)
          (Returns→Safely (
            prepare-HasSettings name cwd port trig_mode timeout_ms opt_linger epoller raw short
              room)))
        λ (src_dir, s) ((dir, p), (h, same)).
          Returns-bind
            (Returns-and (try_listen_starts calls epoller s positive p)
              (Returns→Safely (try_listen-IsTried calls s positive p.is_closed)))
            λ (closed, s') ((begun, listens, _), t).
              let mask : s'.listen_event ≡ s.listen_event =
                ap (λ (t : Server Prob kernel). t.listen_event) t.rest in
              returns (
                dir,
                begun.0,
                HasSettings-rest port trig_mode timeout_ms opt_linger calls s s' h t,
                listens,
                t.runs
                    ∙ ap
                        (λ m.
                          not (all_succeed calls && (add_fd calls.socket (with_in m) s.epoller).0))
                        (sym mask)
                    ∙ ap
                        (λ e. not (
                          all_succeed calls && (add_fd calls.socket (with_in s'.listen_event) e).0))
                        same,
                λ q fd e. t.watched q fd e ∙ ap (λ m. some (with_in m)) (sym mask),
                begun.1,
              )
