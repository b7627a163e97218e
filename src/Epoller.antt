-- ===== src/Epoller.antt =====
-- code/server/epoller.cpp and epoller.h: the wrapper of an epoll instance. The instance itself, with
-- its interest list, is a parameter.
pub mod Laws
use torch_server.Base.{
  ℕ, ◌≡◌, ◌≢◌, ℤ, pos, negsuc, Bool, true, false, ◌||◌, List, ◌++◌, drop, take, length, get_elem?,
  Option, assert, ltb, replicate, ◌>>◌, some, none, Run, assertion, or_fault, ok, ◌>>=◌,
}

-- The bits of an event mask that the program uses.
pub record Events : Type 0 where
  pub epollin : Bool
  pub epollout : Bool
  pub epollerr : Bool
  pub epollhup : Bool
  pub epollrdhup : Bool
  pub epolloneshot : Bool
  pub epollet : Bool

abbrev pub no_events : Events
no_events = record {
  epollin = false;
  epollout = false;
  epollerr = false;
  epollhup = false;
  epollrdhup = false;
  epolloneshot = false;
  epollet = false;
}

-- `mask | EPOLLIN` and the like.
abbrev pub with_in : Events → Events
with_in mask = record mask { epollin = true }

abbrev pub with_out : Events → Events
with_out mask = record mask { epollout = true }

abbrev pub with_et : Events → Events
with_et mask = record mask { epollet = true }

pub data CtlOp : Type 0 where
  epoll_ctl_add epoll_ctl_mod epoll_ctl_del : CtlOp

-- An epoll instance of the kernel: `epoll_ctl` on a descriptor, whose result is whether it is 0, and
-- the interest list.
pub record Kernel : Type 1 where
  pub State : Type 0
  pub epoll_ctl : CtlOp → ℕ → Events → State → Bool × State
  pub interest : State → ℕ → Option Events

-- What epoll_ctl(2) says of a call on `fd` that takes the state `s` to `s'`.
pub record IsLawful (kernel : Kernel) : Type 0 where
  pub others :
      (op : CtlOp) (fd k : ℕ) (mask : Events) (s : kernel.State)
      → fd ≢ k
      → kernel.interest (kernel.epoll_ctl op fd mask s).1 k ≡ kernel.interest s k
  pub refused :
      (op : CtlOp) (fd : ℕ) (mask : Events) (s : kernel.State)
      → (kernel.epoll_ctl op fd mask s).0 ≡ false
      → kernel.interest (kernel.epoll_ctl op fd mask s).1 fd ≡ kernel.interest s fd
  pub added :
      (fd : ℕ) (mask : Events) (s : kernel.State)
      → (kernel.epoll_ctl epoll_ctl_add fd mask s).0 ≡ true
      → kernel.interest (kernel.epoll_ctl epoll_ctl_add fd mask s).1 fd ≡ some mask
  pub modified :
      (fd : ℕ) (mask : Events) (s : kernel.State)
      → (kernel.epoll_ctl epoll_ctl_mod fd mask s).0 ≡ true
      → kernel.interest (kernel.epoll_ctl epoll_ctl_mod fd mask s).1 fd ≡ some mask
  -- `ENOENT`
  pub missing :
      (fd : ℕ) (mask : Events) (s : kernel.State)
      → kernel.interest s fd ≡ none
      → (kernel.epoll_ctl epoll_ctl_mod fd mask s).0 ≡ false
  pub deleted :
      (fd : ℕ) (mask : Events) (s : kernel.State)
      → kernel.interest (kernel.epoll_ctl epoll_ctl_del fd mask s).1 fd ≡ none

-- A `struct epoll_event`.
pub record EpollEvent : Type 0 where
  pub fd : ℕ
  pub events : Events

module _ (kernel : Kernel) where
  -- The events of the last `wait` are in an array of fixed size.
  pub record Epoller : Type 0 where
    pub state : kernel.State
    pub events : List EpollEvent

module _ {kernel : Kernel} where
  -- The constructor: what `epoll_create` made, if it did not fail, and the array.
  unfoldable pub new : Option kernel.State → ℕ → Run (Epoller kernel)
  new created max_event = do
    state ← or_fault created assertion
    assert (ltb 0 max_event)
    ok (record {
      state = state;
      events = replicate max_event (record { fd = 0; events = no_events });
    })

  unfoldable pub ctl : CtlOp → ℤ → Events → Epoller kernel → Bool × Epoller kernel
  ctl op (negsuc n) mask e = (false, e)
  ctl op (pos fd) mask e =
      let (is_done, state) = kernel.epoll_ctl op fd mask e.state in
      (is_done, record e { state = state })

  unfoldable pub add_fd : ℤ → Events → Epoller kernel → Bool × Epoller kernel
  add_fd fd mask e = ctl epoll_ctl_add fd mask e

  unfoldable pub mod_fd : ℤ → Events → Epoller kernel → Bool × Epoller kernel
  mod_fd fd mask e = ctl epoll_ctl_mod fd mask e

  unfoldable pub del_fd : ℤ → Epoller kernel → Bool × Epoller kernel
  del_fd fd e = ctl epoll_ctl_del fd no_events e

  -- Of the events that are ready `epoll_wait` reports, if it does not fail, as many as the array has
  -- places for, and overwrites its front with them.
  unfoldable pub wait : Option (List EpollEvent) → Epoller kernel → ℤ × Epoller kernel
  wait none e = (negsuc 0, e)
  wait (some ready) e =
      let found = take (length e.events) ready in
      (pos (length found), record e { events = found ++ drop (length found) e.events })

  unfoldable pub get_event_fd : ℕ → Epoller kernel → Run ℕ
  get_event_fd i e = do event ← or_fault (get_elem? e.events i) assertion; ok event.fd

  unfoldable pub get_events : ℕ → Epoller kernel → Run Events
  get_events i e = do event ← or_fault (get_elem? e.events i) assertion; ok event.events

  abbrev pub interest : Epoller kernel → ℕ → Option Events
  interest e k = kernel.interest e.state k
