-- ===== src/Log/Order.antt =====
-- code/log/log.cpp: while each line finds room in the queue, the files hold the lines in the order in
-- which they were logged.
use torch_server.Base.{
  ◌≡◌, ◌∙◌, sym, ap, subst, true, Bytes, List, [], ◌∷◌, ◌++◌, append_assoc, none, arith,
  Safely-value, Returns→Safely,
}
use torch_server.Log.Async.{async_write}
use torch_server.Log.Lines.{line_of}
use torch_server.Log.Text.{no_nul-line_of}
use torch_server.Log.Write.{IsReady, queued, has_room, write_puts}
use torch_server.Log.Stored.{
  stored_cons, texts, texts-append, stored, stored-append, AreSet, AreSet-append,
}
use torch_server.Log.Steps.{Journal, Step, hand, pop_front-item_inv, async_write_puts}

-- A call of `write` that finds room in the queue; any step of the writing thread.
abbrev pub FindsRoom : {j j' : Journal} → Step j j' → Type 0
FindsRoom {j} (Step.writes t level text name can e) = has_room j.log ≡ true
FindsRoom (Step.takes empty_hand there e) = Unit {0}
FindsRoom (Step.puts str in_hand e) = Unit {0}

pub data Flow : Journal → Journal → Type 0 where
  stay : {j : Journal} → Flow j j
  then_step : {j j' j'' : Journal} → Flow j j' → (step : Step j' j'') → FindsRoom step → Flow j j''

-- The lines in the files, and then the one in the hand of the writing thread and those in the queue,
-- are the logged ones, in order.
pub record IsInOrder (j : Journal) : Type 0 where
  pub ready : IsReady j.log
  pub later : List Bytes
  pub later_set : AreSet later
  pub pending : hand j.in_hand ++ queued j.log ≡ stored later
  pub order : texts j.log.put ++ later ≡ j.logged

Step-IsInOrder : {j j' : Journal} (step : Step j j') → FindsRoom step → IsInOrder j → IsInOrder j'
Step-IsInOrder {j} (Step.writes t level text name {log} can e) room v =
    let (put, ready, _, _, _) =
      Safely-value
        (Returns→Safely
          (write_puts t level text name j.log v.ready can.short can.named can.set can.fits))
        e in
    let line = line_of t level text in
    let (same, longer) = put.to_queue room in
    record {
      ready = ready;
      later = v.later ++ line ∷ [];
      later_set =
          AreSet-append v.later (line ∷ []) v.later_set (no_nul-line_of t level text can.set, tt);
      pending =
          ap (λ q. hand j.in_hand ++ q) longer
          ∙ sym (append_assoc (hand j.in_hand) (queued j.log) ((line ++ 0 ∷ []) ∷ []))
          ∙ ap (λ q. q ++ (line ++ 0 ∷ []) ∷ []) v.pending
          ∙ sym (stored-append v.later (line ∷ []));
      order =
          ap (λ p. texts p ++ (v.later ++ line ∷ [])) same
          ∙ sym (append_assoc (texts j.log.put) v.later (line ∷ []))
          ∙ ap (λ l. l ++ line ∷ []) v.order;
    }
Step-IsInOrder {j} (Step.takes {d = d} {d'} {str} empty_hand there e) room v =
    let items = pop_front-item_inv d e in
    record {
      ready = record {
        valid = v.ready.valid;
        read_pos = v.ready.read_pos;
        write_pos = v.ready.write_pos;
      };
      later = v.later;
      later_set = v.later_set;
      pending =
          sym items
          ∙ ground (arith, there)
          ∙ ap (λ h. hand h ++ queued j.log) (sym empty_hand)
          ∙ v.pending;
      order = v.order;
    }
Step-IsInOrder {j} (Step.puts str in_hand e) room v =
    let (line, more, first, same, rest) =
      stored_cons str (queued j.log) v.later
        (ap (λ h. hand h ++ queued j.log) (sym in_hand) ∙ v.pending) in
    let set = subst AreSet first v.later_set in
    let (name, put) =
      async_write_puts line j.log set.0 (ap (λ s. async_write s j.log) (sym same) ∙ e) in
    subst (λ log. IsInOrder (record j { log = log; in_hand = none })) (sym put)
      (record {
        ready = record {
          valid = v.ready.valid;
          read_pos = v.ready.read_pos;
          write_pos = v.ready.write_pos;
        };
        later = more;
        later_set = set.1;
        pending = rest;
        order =
            ap (λ p. p ++ more) (texts-append j.log.put ((name, line) ∷ []))
            ∙ append_assoc (texts j.log.put) (line ∷ []) more
            ∙ ap (λ l. texts j.log.put ++ l) (sym first)
            ∙ v.order;
      })

-- In every state that is reached from one where this holds, by calls of `write` with messages that
-- fit, each of which finds room in the queue, and the rounds of the writing thread, in any order: the
-- lines in the files, then the one in the hand of the writing thread and those in the queue are the
-- logged lines, in the order in which they were logged.
pub Flow-IsInOrder : {j j' : Journal} → Flow j j' → IsInOrder j → IsInOrder j'
Flow-IsInOrder Flow.stay v = v
Flow-IsInOrder (Flow.then_step run step room) v = Step-IsInOrder step room (Flow-IsInOrder run v)
