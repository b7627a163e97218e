-- ===== src/Log/Exit.antt =====
-- code/log/log.cpp, `~Log`: what becomes of the lines in the queue, and the lock that is taken twice.
use torch_server.Base.{
  ◌≡◌, refl, Bytes, List, [], ◌∷◌, ◌++◌, some, ok, fault, waits, ◌==◌, Bool-cases, inl, inr,
  Option-cases, Returns, returns, Returns-bind, Returns-value,
}
use torch_server.BlockDeque.{BlockDeque}
use torch_server.Log.Async.{async_write, drain, destroy, flush, lock}
use torch_server.Log.{Log, c_str, fputs}

c_str_ends : (s : Bytes) → (t : Bytes) × (c_str (s ++ 0 ∷ []) ≡ ok t)
unfolding c_str
c_str_ends [] = ([], refl)
c_str_ends (c ∷ s) = elim (Bool-cases (c == 0)) [
  | inl end ↦ ([], rw end refl)
  | inr more ↦ let (t, e) = c_str_ends s in (c ∷ t, rw (more, e) refl)
]

async_write-fp :
    (str name : Bytes) (log : Log)
    → log.fp ≡ some name
    → Returns (λ log'. log'.fp ≡ some name) (async_write str log)
unfolding async_write fputs
async_write-fp str name log named = let (t, e) = c_str_ends str in rw (e, named) (returns refl)

drain-fp :
    (queue : List Bytes) (name : Bytes) (log : Log)
    → log.fp ≡ some name
    → Returns (λ log'. log'.fp ≡ some name) (drain queue log)
unfolding drain
drain-fp [] name log named = returns named
drain-fp (str ∷ later) name log named =
    Returns-bind (async_write-fp str name log named) λ log' named'. drain-fp later name log' named'

destroy_drained :
    (log drained : Log) (d : BlockDeque Bytes) (name : Bytes)
    → log.deque ≡ some d
    → drain d.deq log ≡ ok drained
    → drained.fp ≡ some name
    → destroy log ≡ fault waits
unfolding destroy flush lock
destroy_drained log drained d name there run named = rw (there, run, named) refl

-- The end of the program for a log with an open file, whatever its queue holds: the destructor of the
-- log takes the lock and calls `flush`, which waits for the same lock, so it does not return.
pub destroy_waits : (log : Log) (name : Bytes) → log.fp ≡ some name → destroy log ≡ fault waits
unfolding destroy flush lock
destroy_waits log name named = elim (Option-cases log.deque) [
  | inl e ↦ rw (e, named) refl
  | inr (d, e) ↦
      let (drained, run, named') = Returns-value (drain-fp d.deq name log named) in
      destroy_drained log drained d name e run named'
]
