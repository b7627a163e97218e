-- ===== src/Server/RunTests.antt =====
-- The construction of a server and a first connection, as instances of the theorems on them.
use torch_server.Base.{
  ℕ, ◌≡◌, refl, pos, negsuc, true, false, [], ◌∷◌, codes, some, none, arith, Run, ok, not, ◌&&◌,
  fault, Returns, inl, if◌then◌else◌,
}
use torch_server.Timer.{empty, add_timer, less, load, sift_up, sift_up_loop}
use torch_server.Http.Conn.{Conn}
use torch_server.Http.Conn as HttpConn
use torch_server.Http.Verify.Tests.{no_user, two_conns}
use torch_server.Http.Request.Tests.{one_label}
use torch_server.Http.Response.Tests.{one_page}
use torch_server.Epoller.{Epoller, no_events, with_in, interest, add_fd}
use torch_server.Server.{Server, refused, add_client, arm, deal_listen, limit, find}
use torch_server.Server.Loop.{Input, is_listen_fd, handle_event}
use torch_server.Server.Healthy.{IsHealthy}
use torch_server.Server.Listening.{AreFresh, is_free}
use torch_server.Server.Socket.{SocketCalls, construct, is_negative, is_minus_one}
use torch_server.Server.Main.{Given, main}
use torch_server.Server.Ending.{main_ends}
use torch_server.SqlPool.{SqlPool}
use torch_server.Model.{get_idx_to_label, first_line, quotes, store_labels}
use torch_server.Log.Tests.{noon, small_log}
use torch_server.Server.Opening.{opened, all_succeed}
use torch_server.Server.Start.{HasSettings, construct_starts}
use torch_server.Server.Reach.{IsStart, Reach, Step, Reach-IsHealthy}
use torch_server.Http.Request.{World}
use torch_server.Server.Tests.{table, table-IsLawful, idle, caller}

abbrev good_calls : SocketCalls
good_calls = record {
  socket = pos 3;
  set_linger = pos 0;
  set_reuse = pos 0;
  bind = pos 0;
  listen = pos 0;
}

abbrev unused : Epoller table
unused = record { state = λ k. none; events = [] }

construct_starts_example :
    Returns
      (λ (src_dir, closed, s).
        (src_dir ≡ codes "/srv/resources")
        × IsStart s
        × HasSettings table-IsLawful (pos 99_999) (pos 3) (pos 5_000) false s
        × (s.listen_fd ≡ pos 3)
        × (s.is_closed
            ≡ not (all_succeed good_calls && (add_fd (pos 3) (with_in s.listen_event) unused).0))
        × (s.is_closed ≡ false
            → (fd : ℕ) → pos 3 ≡ pos fd
            → interest s.epoller fd ≡ some (with_in s.listen_event))
        × (closed ≡ (if s.is_closed then opened good_calls else [])))
      (construct {Prob = ℕ} {kernel = table}
        (codes "Node")
        (some (codes "/srv"))
        (pos 99_999)
        (pos 3)
        (pos 5_000)
        false
        good_calls
        unused
        (pos 0, no_events))
construct_starts_example =
    construct_starts table-IsLawful (codes "Node") (codes "/srv") (pos 99_999) (pos 3) (pos 5_000)
      false good_calls unused (pos 0, no_events) (omega arith) (omega arith) (ground arith)
      (λ k. refl)

idle-IsStart : IsStart idle
unfolding is_listen_fd
idle-IsStart = record {
  users = refl;
  user_cnt = refl;
  timer = refl;
  unwatched = λ k mask q. ground arith;
}

abbrev start_world : World no_user one_label
start_world = (two_conns, [])

abbrev value_of : Run (Server ℕ table) → Server ℕ table
value_of (ok s) = s
value_of (fault e) = idle

abbrev one_caller : Input
one_caller = record { accepts = caller 7 10 ∷ refused ∷ []; now = 10 }

-- A connection comes in.
abbrev entered : Server ℕ table
entered = value_of (handle_event one_caller 3 (with_in no_events) idle)

enters : handle_event one_caller 3 (with_in no_events) idle ≡ ok entered
unfolding handle_event is_listen_fd deal_listen add_client arm limit HttpConn.init empty add_timer
    less load sift_up sift_up_loop
enters = refl

one_caller-AreFresh : AreFresh (is_free idle) 10 0 one_caller.accepts
unfolding find is_listen_fd
one_caller-AreFresh = (omega arith, omega arith, omega arith, omega arith, refl, tt)

listens_on_three : is_listen_fd 3 idle.listen_fd ≡ true
unfolding is_listen_fd
listens_on_three = refl

-- From the start on, one connection comes in.
Reach-IsHealthy_example : IsHealthy 10 entered
Reach-IsHealthy_example =
    Reach-IsHealthy no_user one_label one_page (λ p. []) (codes "/r") table-IsLawful idle
      start_world idle-IsStart
      (Reach.next Reach.starts (
        Step.handles one_caller 3 (with_in no_events) 0 idle entered start_world (omega arith)
          one_caller-AreFresh (inl listens_on_three) enters))

-- A program whose `bind` fails.
abbrev bad_bind : Given table
bad_bind = record {
  cwd = some (codes "/srv");
  connected = some 1 ∷ [];
  loads = true;
  labels = [];
  calls = record good_calls { bind = negsuc 0 };
  epoller = record { state = λ k. none; events = [] };
  raw = (pos 0, no_events);
  opened = (true, true);
  time = noon;
}

abbrev no_pool : SqlPool
no_pool = record { max_conn = 0; conn_queue = [] }

no_labels : get_idx_to_label [] ≡ ok []
unfolding get_idx_to_label first_line quotes store_labels
no_labels = refl

bind_fails : all_succeed bad_bind.calls ≡ false
unfolding all_succeed is_negative is_minus_one
bind_fails = refl

main_ends_example :
    Returns (λ closed. closed ≡ pos 3 ∷ pos 3 ∷ []) (main ℕ bad_bind no_pool small_log [])
unfolding opened is_negative
main_ends_example =
    main_ends ℕ table-IsLawful bad_bind (codes "/srv") no_pool small_log [] [] refl (omega arith)
      (omega arith) refl no_labels (ground arith) (λ k. refl) bind_fails
