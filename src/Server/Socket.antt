-- ===== src/Server/Socket.antt =====
-- code/server/server.cpp, `init_socket_`: the listening socket. The results of the system calls are
-- arguments, and the descriptors that are closed are returned.
use torch_server.Base.{
  ℕ, ℤ, pos, negsuc, Bool, true, false, ◌&&◌, List, [], ◌∷◌, Run, ok, fault, out_of_bounds,
  assertion, Option, some, none, Bytes, codes, length, ◌++◌, ◌+◌, assert, ◌>>=◌, ◌>>◌, ltb, ◌==◌,
  if◌then◌else◌,
}
use torch_server.Timer.{empty}
use torch_server.Epoller.{Epoller, Events, Kernel, with_in, add_fd}
use torch_server.Server.{Server, init_event_mode}

-- What the calls return, in order.
pub record SocketCalls : Type 0 where
  pub socket : ℤ
  pub set_linger : ℤ
  pub set_reuse : ℤ
  pub bind : ℤ
  pub listen : ℤ

-- `> 65535 && < 1024`
unfoldable pub is_bad_port : ℤ → Bool
is_bad_port (pos n) = ltb 65_535 n && ltb n 1_024
is_bad_port (negsuc n) = false

-- `< 0`
unfoldable pub is_negative : ℤ → Bool
is_negative (pos n) = false
is_negative (negsuc n) = true

-- `== -1`
unfoldable pub is_minus_one : ℤ → Bool
is_minus_one (pos n) = false
is_minus_one (negsuc n) = n == 0

-- `char name_[10]`, and the array that `getcwd(nullptr, 256)` makes.
abbrev name_size : ℕ
name_size = 10

abbrev src_dir_size : ℕ
src_dir_size = 256

-- A string and its terminator fit into an array.
abbrev fits : ℕ → ℕ → Run (Unit {0})
fits len size = if ltb len size then ok tt else fault out_of_bounds

-- The directory of the pages, next to the program's, which is `none` where `getcwd` fails.
unfoldable pub resources : Option Bytes → Run Bytes
resources none = fault assertion
resources (some cwd) = do fits (length cwd + 10) src_dir_size; ok (cwd ++ codes "/resources")

module _ {Prob : Type 0} {kernel : Kernel} where
  -- `assert(fd > 0)`; the descriptor's flags are no part of the model.
  unfoldable pub set_fd_nonblock : ℤ → Server Prob kernel → Run (Server Prob kernel)
  set_fd_nonblock (pos fd) s = do assert (ltb 0 fd); ok s
  set_fd_nonblock (negsuc n) s = do assert false; ok s

  -- From the call of `epoll_ctl` on.
  unfoldable pub watch_listen : Server Prob kernel → Run (Bool × List ℤ × Server Prob kernel)
  watch_listen s =
      let (added, epoller) = add_fd s.listen_fd (with_in s.listen_event) s.epoller in
      let s' = record s { epoller = epoller } in
      if added
      then (do s'' ← set_fd_nonblock s.listen_fd s'; ok (true, [], s''))
      else ok (false, s.listen_fd ∷ [], s')

  unfoldable pub init_socket :
      SocketCalls → Server Prob kernel → Run (Bool × List ℤ × Server Prob kernel)
  init_socket calls s =
      if is_bad_port s.port
      then ok (false, [], s)
      else let s' = record s { listen_fd = calls.socket } in
        let fails = ok (false, calls.socket ∷ [], s') in
        if is_negative calls.socket
        then ok (false, [], s')
        else if is_negative calls.set_linger
        then fails
        else if is_minus_one calls.set_reuse
        then fails
        else if is_negative calls.bind
        then fails
        else if is_negative calls.listen
        then fails
        else watch_listen s'

  -- The constructor, up to `init_socket`: the directory of the pages, and the state. What stands in
  -- memory where the members are that it does not set is `raw`.
  unfoldable pub prepare :
      Bytes
      → Option Bytes
      → ℤ
      → ℤ
      → ℤ
      → Bool
      → Epoller kernel
      → ℤ × Events
      → Run (Bytes × Server Prob kernel)
  prepare name cwd port trig_mode timeout_ms opt_linger epoller (raw_fd, raw_events) = do
    fits (length name) name_size
    src_dir ← resources cwd
    ok (
      src_dir,
      init_event_mode trig_mode (record {
        port = port;
        linger = opt_linger;
        timeout_ms = timeout_ms;
        is_closed = false;
        listen_fd = raw_fd;
        listen_event = raw_events;
        conn_event = raw_events;
        total_cnt = 0;
        timer = empty;
        tasks = [];
        epoller = epoller;
        users = [];
        user_cnt = 0;
        et = false;
      }),
    )

  -- `if(!init_socket_()) is_closed_ = true;`
  unfoldable pub try_listen : SocketCalls → Server Prob kernel → Run (List ℤ × Server Prob kernel)
  try_listen calls s = do
    (is_init, closed, s') ← init_socket calls s
    ok (closed, if is_init then s' else record s' { is_closed = true })

  -- The constructor. The pools, the model and the log are made by calls of their own.
  unfoldable pub construct :
      Bytes
      → Option Bytes
      → ℤ
      → ℤ
      → ℤ
      → Bool
      → SocketCalls
      → Epoller kernel
      → ℤ × Events
      → Run (Bytes × List ℤ × Server Prob kernel)
  construct name cwd port trig_mode timeout_ms opt_linger calls epoller raw = do
    (src_dir, s) ← prepare name cwd port trig_mode timeout_ms opt_linger epoller raw
    (closed, s') ← try_listen calls s
    ok (src_dir, closed, s')
