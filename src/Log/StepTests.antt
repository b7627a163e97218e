-- ===== src/Log/StepTests.antt =====
-- A line that goes through the queue of a small log, and the end of the program.
use torch_server.Base.{
  ◌≡◌, refl, pos, true, false, Bytes, codes, List, [], ◌∷◌, ◌++◌, some, none, ok, fault, waits,
  arith,
}
use torch_server.Buffer.{
  append, ensure_writable, writable_bytes, readable_bytes, has_written, write_at, read_at,
  retrieve_all, zeroed, retrieve_all_to_str,
}
use torch_server.BlockDeque.{full, push_back, pop_front}
use torch_server.Http.Response.{to_string, decimal}
use torch_server.Log.Async.{async_write, destroy}
use torch_server.Log.{
  Log, stamp_of, padded, rotate, snprintf, level_text, append_log_level, format_line, put_line,
  write, fputs, c_str,
}
use torch_server.Log.Lines.{line_of}
use torch_server.Log.Stored.{occurs}
use torch_server.Log.Steps.{Journal, CanWrite, Step, Reach, IsJournal, Reach-IsJournal}
use torch_server.Log.Order.{Flow, IsInOrder, Flow-IsInOrder}
use torch_server.Log.Exit.{destroy_waits}
use torch_server.Log.Tests.{noon, small_log, short_stamp, hello_set}

abbrev async_log : Log
async_log = record small_log {
  is_async = true;
  deque = some (record { deq = []; capacity = 1_000; is_closed = false });
}

abbrev line : Bytes
line = codes "2024-01-02 12:00:05.000017 [info] : hello\n"

abbrev queue_log : Log
queue_log = record async_log {
  line_count = 2;
  deque = some (record { deq = (line ++ 0 ∷ []) ∷ []; capacity = 1_000; is_closed = false });
}

written : write true noon (pos 1) (codes "hello") async_log ≡ ok queue_log
unfolding write rotate format_line snprintf append_log_level level_text stamp_of padded to_string
    decimal append ensure_writable writable_bytes readable_bytes has_written write_at read_at
    retrieve_all zeroed retrieve_all_to_str put_line full push_back
written = refl

abbrev filed_log : Log
filed_log = record async_log { line_count = 2; put = (codes "log/a.log", line) ∷ [] }

filed : async_write (line ++ 0 ∷ []) (record queue_log { deque = async_log.deque }) ≡ ok filed_log
unfolding async_write fputs c_str
filed = refl

abbrev start : Journal
start = record { log = async_log; in_hand = none; logged = [] }

start-IsJournal : IsJournal start
unfolding occurs
start-IsJournal = record {
  ready = record { valid = omega arith; read_pos = refl; write_pos = refl };
  held = [];
  waiting = [];
  held_set = tt;
  waiting_set = tt;
  in_hand = refl;
  in_queue = refl;
  each = λ l. refl;
}

abbrev end : Journal
end = record { log = filed_log; in_hand = none; logged = line_of noon (pos 1) (codes "hello") ∷ [] }

fits : CanWrite noon (codes "hello") (codes "log/a.log") async_log
fits = record {
  short = omega (arith, short_stamp);
  set = hello_set;
  fits = omega (arith, short_stamp);
  named = refl;
}

abbrev logged : List Bytes
logged = line_of noon (pos 1) (codes "hello") ∷ []

written_step : Step start (record { log = queue_log; in_hand = none; logged = logged })
written_step = Step.writes noon (pos 1) (codes "hello") (codes "log/a.log") fits written

taken_step :
    Step
      (record { log = queue_log; in_hand = none; logged = logged })
      (record {
        log = record queue_log { deque = async_log.deque };
        in_hand = some (line ++ 0 ∷ []);
        logged = logged;
      })
unfolding pop_front
taken_step = Step.takes {str = line ++ 0 ∷ []} refl refl refl

filed_step :
    Step
      (record {
        log = record queue_log { deque = async_log.deque };
        in_hand = some (line ++ 0 ∷ []);
        logged = logged;
      })
      end
filed_step = Step.puts (line ++ 0 ∷ []) refl filed

through : Reach start end
through =
    Reach.then_step (Reach.then_step (Reach.then_step Reach.stay written_step) taken_step)
      filed_step

start-IsInOrder : IsInOrder start
start-IsInOrder = record {
  ready = start-IsJournal.ready;
  later = [];
  later_set = tt;
  pending = refl;
  order = refl;
}

Flow-IsInOrder_example : IsInOrder end
unfolding written_step full taken_step filed_step
Flow-IsInOrder_example =
    Flow-IsInOrder
      (Flow.then_step (Flow.then_step (Flow.then_step Flow.stay written_step refl) taken_step tt)
        filed_step tt)
      start-IsInOrder

Reach-IsJournal_example : IsJournal end
Reach-IsJournal_example = Reach-IsJournal through start-IsJournal

destroy_waits_example : destroy queue_log ≡ fault waits
destroy_waits_example = destroy_waits queue_log (codes "log/a.log") refl
