-- ===== src/Log/Steps.antt =====
-- code/log/log.cpp: the threads that log and the thread that writes, as steps. No line is lost, and
-- none is put twice.
use torch_server.Base.{
  ◌+◌, ◌<◌, ◌≤◌, ◌≡◌, refl, ◌∙◌, sym, ap, subst, ℤ, true, Bytes, List, [], ◌∷◌, ◌++◌, length,
  Option, some, none, Option-cases, ok, arith, Bool-cases, inl, inr, Safely-value, Returns→Safely,
}
use torch_server.BlockDeque.{BlockDeque, Popped, pop_front}
use torch_server.Log.Async.{async_write}
use torch_server.Log.{Log, Tm, stamp_of, write, fputs, c_str}
use torch_server.Log.Lines.{line_of}
use torch_server.Log.Text.{no_nul, no_nul-line_of, c_str-append}
use torch_server.Log.Write.{IsReady, IsPut, file_of, queued, has_room, write_puts}
use torch_server.Log.Stored.{
  stored_none, stored_cons, occurs, occurs-append, texts, texts-append, stored, stored-append,
  AreSet, AreSet-append,
}

-- The log, the line that the writing thread has taken and not yet put, and the lines of all calls of
-- `write`, in order.
pub record Journal : Type 0 where
  pub log : Log
  pub in_hand : Option Bytes
  pub logged : List Bytes

-- A message that fits into the buffer, on a log whose file is open or can be opened.
pub record CanWrite (t : Tm) (text name : Bytes) (log : Log) : Type 0 where
  pub short : length (stamp_of t) < 128
  pub set : no_nul text ≡ true
  pub fits : length (stamp_of t) + 11 + length text ≤ length log.buff.buffer
  pub named : file_of t log ≡ some name

pub data Step : Journal → Journal → Type 0 where
  writes :
      {j : Journal} (t : Tm) (level : ℤ) (text name : Bytes) {log : Log}
      → CanWrite t text name j.log
      → write true t level text j.log ≡ ok log
      → Step j (record j { log = log; logged = j.logged ++ line_of t level text ∷ [] })
  takes :
      {j : Journal} {d d' : BlockDeque Bytes} {str : Bytes}
      → j.in_hand ≡ none
      → j.log.deque ≡ some d
      → pop_front d ≡ Popped.item str d'
      → Step j (record j { log = record j.log { deque = some d' }; in_hand = some str })
  puts :
      {j : Journal} {log : Log} (str : Bytes)
      → j.in_hand ≡ some str
      → async_write str j.log ≡ ok log
      → Step j (record j { log = log; in_hand = none })

pub data Reach : Journal → Journal → Type 0 where
  stay : {j : Journal} → Reach j j
  then_step : {j j' j'' : Journal} → Reach j j' → Step j' j'' → Reach j j''

-- The line in the hand of the writing thread, if there is one, and those in the queue.
abbrev pub hand : Option Bytes → List Bytes
hand none = []
hand (some str) = str ∷ []

-- Every line that was logged is in a file, in the queue or in the hand of the writing thread, as
-- often as it was logged.
pub record IsJournal (j : Journal) : Type 0 where
  pub ready : IsReady j.log
  pub held : List Bytes
  pub waiting : List Bytes
  pub held_set : AreSet held
  pub waiting_set : AreSet waiting
  pub in_hand : hand j.in_hand ≡ stored held
  pub in_queue : queued j.log ≡ stored waiting
  pub each :
      (line : Bytes)
      → occurs line (texts j.log.put) + occurs line held + occurs line waiting
        ≡ occurs line j.logged

pub pop_front-item_inv :
    (d : BlockDeque Bytes) {d' : BlockDeque Bytes} {str : Bytes}
    → pop_front d ≡ Popped.item str d'
    → d.deq ≡ str ∷ d'.deq
unfolding pop_front
pop_front-item_inv d e = ground (arith, e)

-- What the writing thread puts into the file is the line without its terminator.
pub async_write_puts :
    (line : Bytes) (log : Log) {log' : Log}
    → no_nul line ≡ true
    → async_write (line ++ 0 ∷ []) log ≡ ok log'
    → (name : Bytes) × (log' ≡ record log { put = log.put ++ (name, line) ∷ [] })
unfolding async_write fputs
async_write_puts line log {log'} set e = elim (Option-cases log.fp) [
  | inl unnamed ↦ absurd (ground (arith, e, peek, unnamed))
  | inr (name, named) ↦ (name, ground (arith, e, peek, named))
]
  where
    peek : c_str ((line ++ 0 ∷ []) ++ 0 ∷ []) ≡ ok line
    peek = c_str-append line (0 ∷ []) set

-- A line that `write` hands over.
writes-IsJournal :
    {j : Journal} (line name : Bytes) (log : Log)
    → no_nul line ≡ true
    → IsPut line name j.log log
    → IsReady log
    → IsJournal j
    → IsJournal (record j { log = log; logged = j.logged ++ line ∷ [] })
unfolding occurs
writes-IsJournal {j} line name log set put ready v = elim (Bool-cases (has_room j.log)) [
  | inl room ↦
      let (same, longer) = put.to_queue room in
      record {
        ready = ready;
        held = v.held;
        waiting = v.waiting ++ line ∷ [];
        held_set = v.held_set;
        waiting_set = AreSet-append v.waiting (line ∷ []) v.waiting_set (set, tt);
        in_hand = v.in_hand;
        in_queue =
            longer
            ∙ ap (λ q. q ++ (line ++ 0 ∷ []) ∷ []) v.in_queue
            ∙ sym (stored-append v.waiting (line ∷ []));
        each = λ l. omega (
          arith,
          v.each l,
          ap (λ p. occurs l (texts p)) same,
          occurs-append l v.waiting (line ∷ []),
          occurs-append l j.logged (line ∷ []),
        );
      }
  | inr full_up ↦
      let (longer, same) = put.to_file full_up in
      record {
        ready = ready;
        held = v.held;
        waiting = v.waiting;
        held_set = v.held_set;
        waiting_set = v.waiting_set;
        in_hand = v.in_hand;
        in_queue = same ∙ v.in_queue;
        each = λ l. omega (
          arith,
          v.each l,
          ap (λ p. occurs l (texts p)) longer,
          ap (occurs l) (texts-append j.log.put ((name, line) ∷ [])),
          occurs-append l (texts j.log.put) (line ∷ []),
          occurs-append l j.logged (line ∷ []),
        );
      }
]

Step-IsJournal : {j j' : Journal} → Step j j' → IsJournal j → IsJournal j'
unfolding occurs
Step-IsJournal {j} (Step.writes t level text name {log} can e) v =
    let (put, ready, _, _, _) =
      Safely-value
        (Returns→Safely
          (write_puts t level text name j.log v.ready can.short can.named can.set can.fits))
        e in
    writes-IsJournal (line_of t level text) name log (no_nul-line_of t level text can.set) put ready
      v
Step-IsJournal {j} (Step.takes {d = d} {d'} {str} empty_hand there e) v =
    let none_held : v.held ≡ [] = stored_none v.held (ap hand (sym empty_hand) ∙ v.in_hand) in
    let items = pop_front-item_inv d e in
    let (line, more, first, same, rest) =
      stored_cons str d'.deq v.waiting (sym items ∙ ground (arith, there) ∙ v.in_queue) in
    let set = subst AreSet first v.waiting_set in
    record {
      ready = record {
        valid = v.ready.valid;
        read_pos = v.ready.read_pos;
        write_pos = v.ready.write_pos;
      };
      held = line ∷ [];
      waiting = more;
      held_set = (set.0, tt);
      waiting_set = set.1;
      in_hand = ap (λ s. s ∷ []) same;
      in_queue = rest;
      each = λ l. omega (arith, v.each l, ap (occurs l) none_held, ap (occurs l) first);
    }
Step-IsJournal {j} (Step.puts str in_hand e) v =
    let (line, more, first, same, rest) =
      stored_cons str [] v.held (ap hand (sym in_hand) ∙ v.in_hand) in
    let set = subst AreSet first v.held_set in
    let none_more : more ≡ [] = stored_none more rest in
    let (name, put) =
      async_write_puts line j.log set.0 (ap (λ s. async_write s j.log) (sym same) ∙ e) in
    subst (λ log. IsJournal (record j { log = log; in_hand = none })) (sym put)
      (record {
        ready = record {
          valid = v.ready.valid;
          read_pos = v.ready.read_pos;
          write_pos = v.ready.write_pos;
        };
        held = [];
        waiting = v.waiting;
        held_set = tt;
        waiting_set = v.waiting_set;
        in_hand = refl;
        in_queue = v.in_queue;
        each = λ l. omega (
          arith,
          v.each l,
          ap (occurs l) first,
          ap (occurs l) none_more,
          ap (occurs l) (texts-append j.log.put ((name, line) ∷ [])),
          occurs-append l (texts j.log.put) (line ∷ []),
        );
      })

-- In every state that is reached from one where this holds, by calls of `write` with messages that
-- fit and the rounds of the writing thread, in any order: each line is in a file, in the hand of
-- the writing thread or in the queue, as often as it was logged.
pub Reach-IsJournal : {j j' : Journal} → Reach j j' → IsJournal j → IsJournal j'
Reach-IsJournal Reach.stay v = v
Reach-IsJournal (Reach.then_step run step) v = Step-IsJournal step (Reach-IsJournal run v)
