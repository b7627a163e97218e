-- ===== src/Log/Async.antt =====
-- code/log/log.cpp and log.h: `flush`, the macro LOG_BASE, the thread that writes, and the
-- destructor.
use torch_server.Base.{
  ℤ, pos, negsuc, Bool, true, false, ◌&&◌, Bytes, List, [], ◌∷◌, ◌++◌, some, none, Run, ok, fault,
  waits, out_of_bounds, or_fault, ◌>>=◌, ◌>>◌, leb, is_some, if◌then◌else◌,
}
use torch_server.BlockDeque.{BlockDeque, push_back}
use torch_server.BlockDeque as BlockDeque
use torch_server.Log.{Log, Tm, write, fputs, get_level}

-- `<=` on an `int`.
unfoldable pub is_at_most : ℤ → ℤ → Bool
is_at_most (pos m) (pos n) = leb m n
is_at_most (pos m) (negsuc n) = false
is_at_most (negsuc m) (pos n) = true
is_at_most (negsuc m) (negsuc n) = leb n m

-- `mtx_.lock()`, by a thread that holds it already or does not; the mutex is not recursive.
unfoldable pub lock : Bool → Run (Unit {0})
lock true = fault waits
lock false = ok tt

-- `flush` by a thread that holds `mtx_` already or does not. Flushing the file changes nothing here,
-- and flushing the deque is a notification.
unfoldable pub flush : Bool → Log → Run Log
flush holds_mtx log = do
  lock holds_mtx
  if log.is_async then (do d ← or_fault log.deque out_of_bounds; ok log) else ok log

-- `LOG_BASE`
unfoldable pub log_base : Bool → Tm → ℤ → Bytes → Log → Run Log
log_base opened t level text log =
    if log.is_open && is_at_most (get_level log) level
    then write opened t level text log >>= flush false
    else ok log

-- One round of the loop of `async_write_`, on the item that `pop_front` gave.
unfoldable pub async_write : Bytes → Log → Run Log
async_write str log = fputs (str ++ 0 ∷ []) log

-- The rounds of the thread that writes, until the deque is empty.
unfoldable pub drain : List Bytes → Log → Run Log
drain [] log = ok log
drain (str ∷ later) log = async_write str log >>= drain later

-- The destructor: the thread empties the deque and is joined, and the file is flushed under the lock
-- and closed.
unfoldable pub destroy : Log → Run Log
destroy log = do
  log' ← elim log.deque [
    | none ↦ ok log
    | some d ↦ (do
      drained ← drain d.deq log
      ok (record drained { deque = some (BlockDeque.close d) }))
  ]
  if is_some log'.fp then (do log'' ← flush true log'; ok (record log'' { fp = none })) else ok log'
