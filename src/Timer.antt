-- ===== src/Timer.antt =====
-- code/timer/timer_heap.cpp and timer_heap.h: a binary heap of timers by expiry, with the position
-- of each id. A time point is its count of nanoseconds; each reading of the clock is an argument.
-- A callback is known by its timer: the calls that run callbacks also return those timers, in order.
pub mod Nodes
pub mod Order
pub mod SiftUp
pub mod Sift
pub mod Update
pub mod Laws
pub mod Tick
pub mod Room
pub mod Tests
use torch_server.Base.{
  ℕ, zero, suc, ◌+◌, ◌-◌, ◌*◌, ◌/◌, ◌%◌, ◌^◌, ◌≡◌, Bool, true, false, not, Option, some, none, List,
  [], ◌∷◌, ◌++◌, get_elem?, get_or, set, length, Run, ok, fault, assertion, out_of_bounds, no_fuel,
  or_fault, assert, ◌>>=◌, ◌>>◌, if◌then◌else◌, ltb, leb, ◌==◌, is_some, update, erase, drop_last,
  ◌&&◌, ◌||◌, ℤ, pos, negsuc, neg, to_int, to_size,
}

-- `cb` names the callback; the server's callbacks are `close_conn_` of a connection.
pub record Timer : Type 0 where
  pub id : ℕ
  pub expires : ℕ
  pub cb : ℕ

pub record TimerHeap : Type 0 where
  pub heap : List Timer
  pub ref : ℕ → Option ℕ

unfoldable pub empty : TimerHeap
empty = record { heap = []; ref = λ id. none }

-- `MS(timeout)` in nanoseconds.
abbrev pub ms : ℕ → ℕ
ms timeout = timeout * 1_000_000

unfoldable pub less : Timer → Timer → Bool
less s t = ltb s.expires t.expires

unfoldable pub load : List Timer → ℕ → Run Timer
load heap i = or_fault (get_elem? heap i) out_of_bounds

-- `ref_[id]`, where the key is present.
unfoldable pub position : TimerHeap → ℕ → Run ℕ
position h id = or_fault (h.ref id) out_of_bounds

unfoldable pub swap_node : ℕ → ℕ → TimerHeap → Run TimerHeap
swap_node i j h = do
  assert (ltb i (length h.heap))
  assert (ltb j (length h.heap))
  x ← load h.heap i
  y ← load h.heap j
  ok (record { heap = set (set h.heap i y) j x; ref = update (update h.ref y.id i) x.id j })

-- `(i - 1) / 2` on `size_t`: at the root the subtraction wraps.
abbrev pub parent : ℕ → ℕ
parent i = ((i + 2 ^ 64 - 1) % 2 ^ 64) / 2

unfoldable pub sift_up_loop : ℕ → ℕ → TimerHeap → Run TimerHeap
sift_up_loop zero i h = fault no_fuel
sift_up_loop (suc fuel) i h =
    let climb = λ (h' : TimerHeap). sift_up_loop fuel (parent i) h' in
    if ltb (parent i) (length h.heap)
    then (do
      above ← load h.heap (parent i)
      this ← load h.heap i
      if less above this then ok h else swap_node i (parent i) h >>= climb)
    else ok h

unfoldable pub sift_up : ℕ → TimerHeap → Run TimerHeap
sift_up i h = do assert (ltb i (length h.heap)); sift_up_loop (i + 1) i h

-- `j + 1 < n && heap_[j + 1] < heap_[j]`, which moves to the right child.
unfoldable pub earlier_child : List Timer → ℕ → ℕ → Run ℕ
earlier_child heap j n =
    if ltb (j + 1) n
    then (do
      right ← load heap (j + 1)
      left ← load heap j
      ok (if less right left then j + 1 else j))
    else ok j

-- Returns the last `i` too.
unfoldable pub sift_down_loop : ℕ → ℕ → ℕ → TimerHeap → Run (ℕ × TimerHeap)
sift_down_loop zero i n h = fault no_fuel
sift_down_loop (suc fuel) i n h =
    let sink = λ (j : ℕ) (h' : TimerHeap). sift_down_loop fuel j n h' in
    if ltb (i * 2 + 1) n
    then (do
      j ← earlier_child h.heap (i * 2 + 1) n
      this ← load h.heap i
      below ← load h.heap j
      if less this below then ok (i, h) else swap_node i j h >>= sink j)
    else ok (i, h)

unfoldable pub sift_down : ℕ → ℕ → TimerHeap → Run (Bool × TimerHeap)
sift_down index n h = do
  assert (ltb index (length h.heap))
  assert (leb n (length h.heap))
  (i, h') ← sift_down_loop (n + 1) index n h
  ok (ltb index i, h')

-- `if(!sift_down_(i, n)) sift_up_(i);`
unfoldable pub settle : ℕ → ℕ → TimerHeap → Run TimerHeap
settle i n h = do (moved, h') ← sift_down i n h; if moved then ok h' else sift_up i h'

unfoldable pub add_timer : ℕ → ℕ → ℕ → ℕ → TimerHeap → Run TimerHeap
add_timer now id timeout cb h =
    let node : Timer = record { id = id; expires = now + ms timeout; cb = cb } in
    if is_some (h.ref id)
    then (do
      i ← position h id
      old ← load h.heap i
      settle i (length h.heap)
          (record h { heap = set h.heap i (record old { expires = node.expires; cb = cb }) }))
    else sift_up (length h.heap)
        (record { heap = h.heap ++ node ∷ []; ref = update h.ref id (length h.heap) })

-- Removes the last node, `heap_.pop_back()` and the entry of its id.
unfoldable pub drop_back : TimerHeap → Run TimerHeap
drop_back h = do
  back ← load h.heap (length h.heap - 1)
  ok (record { heap = drop_last h.heap; ref = erase h.ref back.id })

unfoldable pub del : ℕ → TimerHeap → Run TimerHeap
del i h =
    let n = length h.heap - 1 in
    do
      assert (ltb i (length h.heap))
      h' ← if ltb i n then swap_node i n h >>= settle i n else ok h
      drop_back h'

unfoldable pub rm_timer : ℕ → TimerHeap → Run (List Timer × TimerHeap)
rm_timer id h =
    if length h.heap == 0 || not (is_some (h.ref id))
    then ok ([], h)
    else (do i ← position h id; node ← load h.heap i; h' ← del i h; ok (node ∷ [], h'))

unfoldable pub adjust : ℕ → ℕ → ℕ → TimerHeap → Run TimerHeap
adjust now id timeout h = do
  assert (not (length h.heap == 0) && is_some (h.ref id))
  i ← position h id
  old ← load h.heap i
  let h' = record h { heap = set h.heap i (record old { expires = now + ms timeout }) }
  (moved, h'') ← sift_down i (length h'.heap) h'
  ok h''

unfoldable pub pop : TimerHeap → Run TimerHeap
pop h = do assert (not (length h.heap == 0)); del 0 h

unfoldable pub clear : TimerHeap → TimerHeap
clear h = record { heap = []; ref = λ id. none }

-- `duration_cast<MS>(expires - now).count() > 0`: the cast rounds towards zero.
unfoldable pub is_later : ℕ → Timer → Bool
is_later now t = ltb 0 ((t.expires - now) / 1_000_000)

-- One reading of the clock for each round. The list holds the callbacks that ran.
unfoldable pub tick_loop : ℕ → (ℕ → ℕ) → TimerHeap → Run (List Timer × TimerHeap)
tick_loop zero clock h = fault no_fuel
tick_loop (suc fuel) clock h =
    let next = λ (h' : TimerHeap). tick_loop fuel (λ k. clock (suc k)) h' in
    if length h.heap == 0 then ok ([], h) else (do
      node ← load h.heap 0
      if is_later (clock 0) node
          then ok ([], h)
          else (do h' ← pop h; (ran, h'') ← next h'; ok (node ∷ ran, h'')))

unfoldable pub tick : (ℕ → ℕ) → TimerHeap → Run (List Timer × TimerHeap)
tick clock h = tick_loop (length h.heap + 1) clock h

-- `duration_cast<MS>(expires - now).count()`, as a `size_t`.
unfoldable pub remaining : ℕ → Timer → ℕ
remaining now t =
    if leb now t.expires
    then to_size (pos ((t.expires - now) / 1_000_000))
    else to_size (neg ((now - t.expires) / 1_000_000))

-- `res` is a `size_t`, so the branch for `res < 0` is never taken. The second reading of the clock
-- is `now`.
unfoldable pub get_next_tick : (ℕ → ℕ) → ℕ → TimerHeap → Run (List Timer × ℤ × TimerHeap)
get_next_tick clock now h = do
  (ran, h') ← tick clock h
  if length h'.heap == 0 then ok (ran, to_int (to_size (negsuc 0)), h') else (do
    front ← load h'.heap 0
    let res = remaining now front
    ok (ran, to_int (if ltb res 0 then 0 else res), h'))
