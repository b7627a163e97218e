-- ===== src/Server/Tests.antt =====
-- A small epoll instance and server, and instances of the theorems on the server.
use torch_server.Base.{
  ℕ, zero, suc, ◌+◌, ◌<◌, ◌≡◌, ◌≢◌, refl, pos, Bool, true, false, List, [], ◌∷◌, Option, some, none,
  is_some, arith, update, erase, Returns, ◌==◌, if◌then◌else◌,
}
use torch_server.Buffer.{count}
use torch_server.Timer.{Timer, empty}
use torch_server.Http.Conn.Tests.{answering, answering-IsReady}
use torch_server.Epoller.{
  Events, no_events, with_in, with_et, Kernel, IsLawful, CtlOp, epoll_ctl_add, epoll_ctl_mod,
  epoll_ctl_del, interest,
}
use torch_server.Server.{Server, Accept, refused, accepted, deal_listen, on_write, limit, find}
use torch_server.Server.Loop.{is_listen_fd, next_wait}
use torch_server.Server.Users.{opens_at, count_open}
use torch_server.Server.Healthy.{IsHealthy}
use torch_server.Server.Expiry.{Expired, next_wait_expires}
use torch_server.Server.Listening.{AreFresh, is_free, IsListened, arrivals, deal_listen_takes}
use torch_server.Server.Truncated.{on_write_truncates}
use torch_server.Timer.Nodes.{at}
use torch_server.Timer.Order.{IsHeap}
use torch_server.Timer.Update.{IsValid}

-- The interest list as a finite function.
abbrev pub table_ctl : CtlOp → ℕ → Events → (ℕ → Option Events) → Bool × (ℕ → Option Events)
table_ctl epoll_ctl_add fd mask s = if is_some (s fd) then (false, s) else (true, update s fd mask)
table_ctl epoll_ctl_mod fd mask s = if is_some (s fd) then (true, update s fd mask) else (false, s)
table_ctl epoll_ctl_del fd mask s = if is_some (s fd) then (true, erase s fd) else (false, s)

abbrev pub table : Kernel
table = record { State = ℕ → Option Events; epoll_ctl = table_ctl; interest = λ s k. s k }

pub table-IsLawful : IsLawful table
table-IsLawful = record {
  others = others;
  refused = refuses;
  added = λ fd mask s q. ground arith;
  modified = λ fd mask s q. ground arith;
  missing = λ fd mask s q. ground arith;
  deleted = λ fd mask s. ground arith;
}
  where
    others :
        (op : CtlOp) (fd k : ℕ) (mask : Events) (s : ℕ → Option Events)
        → fd ≢ k
        → (table_ctl op fd mask s).1 k ≡ s k
    others epoll_ctl_add fd k mask s other = ground arith
    others epoll_ctl_mod fd k mask s other = ground arith
    others epoll_ctl_del fd k mask s other = ground arith

    refuses :
        (op : CtlOp) (fd : ℕ) (mask : Events) (s : ℕ → Option Events)
        → (table_ctl op fd mask s).0 ≡ false
        → (table_ctl op fd mask s).1 fd ≡ s fd
    refuses epoll_ctl_add fd mask s q = ground arith
    refuses epoll_ctl_mod fd mask s q = ground arith
    refuses epoll_ctl_del fd mask s q = ground arith

-- The listening socket is 3, in edge-triggered mode, and connections have five seconds.
abbrev pub idle : Server ℕ table
idle = record {
  port = pos 1_316;
  linger = false;
  timeout_ms = pos 5_000;
  is_closed = false;
  listen_fd = pos 3;
  listen_event = record no_events { epollrdhup = true; epollet = true };
  conn_event = record no_events { epollrdhup = true; epolloneshot = true };
  total_cnt = 0;
  timer = empty;
  tasks = [];
  epoller = record {
    state = λ k. if 3 == k then some (with_in (with_et no_events)) else none;
    events = [];
  };
  users = [];
  user_cnt = 0;
  et = false;
}

-- A call of `accept`.
abbrev pub caller : ℕ → ℕ → Accept
caller fd now = accepted (record {
  fd = fd;
  now = now;
  iov_cnt = 0;
  iov_0 = record { base = 0; len = 0 };
  iov_1 = record { base = 0; len = 0 };
})

-- One connection is open; it has an answer of eight bytes to send, and five seconds.
abbrev its_timer : Timer
its_timer = record { id = 7; expires = 5_000_000_000; cb = 7 }

abbrev pub serving : Server ℕ table
serving = record idle {
  timer = record { heap = its_timer ∷ []; ref = λ k. if 7 == k then some 0 else none };
  epoller = record {
    state = λ k.
        if 7 == k
        then some (with_in no_events)
        else if 3 == k
        then some (with_in (with_et no_events))
        else none;
    events = [];
  };
  users = (7, answering) ∷ [];
  user_cnt = 1;
}

one_timer-IsValid : IsValid serving.timer
one_timer-IsValid = record {
  placed = record { located = located; stored = λ k i e. ground arith };
  ordered = ordered;
  bounded = omega arith;
}
  where
    located : (i : ℕ) → i < 1 → serving.timer.ref (at serving.timer.heap i).id ≡ some i
    located zero q = refl
    located (suc i) q = absurd (omega arith)

    ordered : IsHeap 1 serving.timer.heap
    ordered zero p q = absurd (omega arith)
    ordered (suc c) p q = absurd (omega arith)

pub serving-IsHealthy : IsHealthy 0 serving
unfolding count_open find limit is_listen_fd
serving-IsHealthy = record {
  counted = refl;
  bounded = omega arith;
  named = λ k c q. ground arith;
  watched = λ k mask q r. ground arith;
  timed = λ timeout q. record {
    valid = one_timer-IsValid;
    small = λ k t r. ground arith;
    called = λ k t r. ground arith;
    known = λ k t r. ground arith;
    early = λ k t r. ground arith;
    covered = λ k r. ground arith;
  };
}

-- Five seconds later the connection is closed.
next_wait_expires_example :
    Returns
      (λ (time_ms, s'). IsHealthy 0 s' × Expired (λ k. 5_000_000_000) serving s')
      (next_wait (λ k. 5_000_000_000) 5_000_000_000 serving)
unfolding limit
next_wait_expires_example =
    next_wait_expires table-IsLawful (λ k. 5_000_000_000) 5_000_000_000 0 5_000 serving
      serving-IsHealthy refl

abbrev two_callers : List Accept
two_callers = caller 8 10 ∷ caller 9 20 ∷ refused ∷ []

two_callers-AreFresh : AreFresh (is_free serving) 30 0 two_callers
unfolding find is_listen_fd
two_callers-AreFresh = (
  omega arith,
  omega arith,
  omega arith,
  omega arith,
  refl,
  (omega arith, omega arith, omega arith, omega arith, refl, tt),
)

deal_listen_takes_example :
    Returns (IsListened 30 (arrivals true two_callers) serving) (deal_listen two_callers serving)
deal_listen_takes_example =
    deal_listen_takes table-IsLawful two_callers 30 0 serving serving-IsHealthy (omega arith)
      two_callers-AreFresh

-- Four of the eight bytes are sent.
on_write_truncates_example :
    Returns
      (λ s'.
        IsHealthy 0 s'
        × (opens_at (find 7 s'.users) ≡ 0)
        × (s'.user_cnt + 1 ≡ 1)
        × (interest s'.epoller 7 ≡ none))
      (on_write (count 4 ∷ count 4 ∷ []) 7 serving)
unfolding find
on_write_truncates_example =
    on_write_truncates table-IsLawful 0 7 serving serving-IsHealthy answering refl 4 (count 4 ∷ [])
      refl refl answering-IsReady (omega arith) (omega arith) (omega arith)
