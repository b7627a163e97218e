-- ===== src/Server/Main.antt =====
-- code/main.cpp and code/server/server.cpp: the whole program, from the constructor of the server and
-- the loop of `start` to the destructor.
use torch_server.Base.{
  ℕ, ℤ, pos, Bool, true, false, Bytes, codes, List, [], ◌∷◌, ◌++◌, Option, Run, ok, fault, no_fuel,
  uncaught, ◌>>=◌, if◌then◌else◌,
}
use torch_server.Epoller.{Epoller, EpollEvent, Events, Kernel}
use torch_server.SqlPool.{SqlPool, Conn}
use torch_server.SqlPool as SqlPool
use torch_server.ThreadPool.{Pool}
use torch_server.ThreadPool as ThreadPool
use torch_server.Model.{get_idx_to_label}
use torch_server.Log.{Log, Tm}
use torch_server.Log as Log
use torch_server.Server.{Server, Task}
use torch_server.Server.Loop.{Input, round}
use torch_server.Server.Socket.{SocketCalls, prepare, try_listen}

-- What one round of the loop finds: the readings of the clock, what `epoll_wait` reports, if it does
-- not fail, and what the handlers of the events need.
pub record Tick : Type 0 where
  pub clock : ℕ → ℕ
  pub now : ℕ
  pub ready : Option (List EpollEvent)
  pub inputs : ℕ → Input

-- What the libraries give the constructor: the working directory, the connections of
-- `mysql_real_connect`, whether the network can be loaded, the file of the labels, and the results of
-- the calls for the socket and the log.
pub record Given (kernel : Kernel) : Type 0 where
  pub cwd : Option Bytes
  pub connected : List Conn
  pub loads : Bool
  pub labels : Bytes
  pub calls : SocketCalls
  pub epoller : Epoller kernel
  pub raw : ℤ × Events
  pub opened : Bool × Bool
  pub time : Tm

-- The arguments of the constructor that its callers choose, but for those that only name things.
pub record Config : Type 0 where
  pub port : ℤ
  pub trig_mode : ℤ
  pub timeout_ms : ℤ
  pub opt_linger : Bool
  pub thread_num : ℕ
  pub open_log : Bool
  pub log_level : ℤ
  pub log_que_size : ℤ
  pub name : Bytes

-- What the constructor makes: the server, with the sockets that were closed, and what it shares with
-- its threads.
pub record Machine (Prob : Type 0) (kernel : Kernel) : Type 0 where
  pub server : Server Prob kernel
  pub closed : List ℤ
  pub src_dir : Bytes
  pub threads : Pool Task
  pub conns : SqlPool
  pub labels : List Bytes
  pub log : Log

-- `torch_model::init`
unfoldable pub init_torch_model : Bool → Bytes → Run (List Bytes)
init_torch_model loads labels = if loads then get_idx_to_label labels else fault uncaught

module _ {Prob : Type 0} {kernel : Kernel} where
  -- The constructor of the server; the messages to the log are left out.
  unfoldable pub build : Config → Given kernel → SqlPool → Log → Run (Machine Prob kernel)
  build config given pool log = do
    threads ← ThreadPool.init config.thread_num
    (src_dir, s) ←
        prepare config.name given.cwd config.port config.trig_mode config.timeout_ms
          config.opt_linger given.epoller given.raw
    conns ← SqlPool.init given.connected pool
    labels ← init_torch_model given.loads given.labels
    (closed, s') ← try_listen given.calls s
    log' ←
        if config.open_log
        then Log.init given.opened given.time config.log_level (codes "./log") (codes ".log")
            config.log_que_size log
        else ok log
    ok (record {
      server = s';
      closed = closed;
      src_dir = src_dir;
      threads = threads;
      conns = conns;
      labels = labels;
      log = log';
    })

  -- The loop, for these rounds.
  unfoldable pub start : List Tick → Server Prob kernel → Run (Server Prob kernel)
  start [] s = if s.is_closed then ok s else fault no_fuel
  start (t ∷ later) s =
      if s.is_closed then ok s else (do s' ← round t.clock t.now t.ready t.inputs s; start later s')

  -- The destructor, with the descriptors that it closes.
  unfoldable pub destroy : Server Prob kernel → List ℤ × Server Prob kernel
  destroy s = (s.listen_fd ∷ [], record s { is_closed = true })

module _ (Prob : Type 0) {kernel : Kernel} where
  -- The program; its result are the descriptors that were closed.
  unfoldable pub main : Given kernel → SqlPool → Log → List Tick → Run (List ℤ)
  main given pool log ticks = do
    m ←
        build {Prob = Prob}
          (record {
            port = pos 1_316;
            trig_mode = pos 3;
            timeout_ms = pos 5_000;
            opt_linger = false;
            thread_num = 6;
            open_log = false;
            log_level = pos 0;
            log_que_size = pos 1_024;
            name = codes "Node";
          })
          given pool log
    s ← start ticks m.server
    let (closed, s') = destroy s
    ok (m.closed ++ closed)
