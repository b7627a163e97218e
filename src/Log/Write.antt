-- ===== src/Log/Write.antt =====
-- code/log/log.cpp, `write`: where a line goes, and what a message that is too long does.
use torch_server.Base.{
  ℕ, ◌+◌, ◌-◌, ◌%◌, ◌^◌, ◌≤◌, ◌<◌, ◌≡◌, refl, sym, ◌∙◌, ap, subst, ℤ, Bool, true, false, not, ◌&&◌,
  ◌||◌, Bytes, List, [], ◌∷◌, ◌++◌, length, take, drop, take-append-drop, Option, some, none,
  Option-cases, ok, fault, out_of_bounds, Returns, returns, Returns-bind, Returns-of, arith, ◌==◌,
  ◌>>=◌, if◌then◌else◌, Bool-cases, inl, inr, ◌⊎◌,
}
use torch_server.Buffer.{retrieve_all, retrieve_all_to_str}
use torch_server.Buffer.Valid.{IsValid, unread, length-zeroed}
use torch_server.Buffer.Taking.{retrieve_all_to_str_lem, retrieve_all-IsValid}
use torch_server.BlockDeque.{BlockDeque, full, push_back}
use torch_server.Log.{
  Log, Tm, max_lines, next_name, rotate, format_line, stamp_of, fputs, put_line, write, c_str,
}
use torch_server.Log.Lines.{line_of, format_line_fills, format_line_overflows}
use torch_server.Log.Text.{no_nul, no_nul-line_of, c_str-append}

-- Between two calls of an opened log: its buffer holds nothing.
pub record IsReady (log : Log) : Type 0 where
  pub valid : IsValid log.buff
  pub read_pos : log.buff.read_pos ≡ 0
  pub write_pos : log.buff.write_pos ≡ 0

-- The day is over, or the file is full.
abbrev pub rotates : Tm → Log → Bool
rotates t log =
    not (log.today == t.tm_mday) || (not (log.line_count == 0) && log.line_count % max_lines == 0)

-- The file of the next line, where one is open, and the number of lines before it.
abbrev pub file_of : Tm → Log → Option Bytes
file_of t log = elim log.fp [
  | none ↦ none
  | some old ↦ some (if rotates t log then next_name t log else old)
]

abbrev pub count_of : Tm → Log → ℕ
count_of t log = if log.today == t.tm_mday then log.line_count else 0

-- The deque has room for one more line.
abbrev pub has_room : Log → Bool
has_room log = elim log.deque [ none ↦ false | some d ↦ log.is_async && not (full d) ]

abbrev pub queued : Log → List Bytes
queued log = elim log.deque [ none ↦ [] | some d ↦ d.deq ]

abbrev rotated : Tm → Log → Log
rotated t log = record log { fp = file_of t log; today = t.tm_mday; line_count = count_of t log }

-- Where `line` went.
pub record IsPut (line name : Bytes) (log log' : Log) : Type 0 where
  pub to_queue :
      has_room log ≡ true
      → (log'.put ≡ log.put) × (queued log' ≡ queued log ++ (line ++ 0 ∷ []) ∷ [])
  pub to_file :
      has_room log ≡ false → (log'.put ≡ log.put ++ (name, line) ∷ []) × (queued log' ≡ queued log)

module _ (line name : Bytes) (log : Log) (v : IsValid log.buff)
    (filled : unread log.buff ≡ line ++ 0 ∷ []) (set : no_nul line ≡ true)
    (named : log.fp ≡ some name) where
  peek : c_str (drop log.buff.read_pos log.buff.buffer) ≡ ok line
  peek =
      let n = log.buff.write_pos - log.buff.read_pos in
      let rest = drop log.buff.read_pos log.buff.buffer in
      ap c_str (sym (take-append-drop n rest) ∙ ap (λ s. s ++ drop n rest) filled)
      ∙ c_str-append line (drop n rest) set

  fputs_puts :
      fputs (drop log.buff.read_pos log.buff.buffer) log
      ≡ ok (record log { put = log.put ++ (name, line) ∷ [] })
  unfolding fputs
  fputs_puts = rw (peek, named) refl

  -- What `put_line` leaves.
  abbrev Put : Log → Type 0
  Put log' =
      IsPut line name log log'
      × IsValid log'.buff
      × (length log'.buff.buffer ≡ length log.buff.buffer)
      × (log'.line_count ≡ log.line_count)
      × (log'.fp ≡ log.fp)
      × (log'.today ≡ log.today)

  filed : has_room log ≡ false → Returns Put (fputs (drop log.buff.read_pos log.buff.buffer) log)
  filed full_up =
      Returns-of (record log { put = log.put ++ (name, line) ∷ [] }) fputs_puts
        (
          record { to_queue = λ q. absurd (ground arith); to_file = λ q. (refl, refl) },
          v,
          refl,
          refl,
          refl,
          refl,
        )

  put_line-filed :
      has_room log ≡ false → put_line log ≡ fputs (drop log.buff.read_pos log.buff.buffer) log
  unfolding put_line
  put_line-filed full_up = elim (Option-cases log.deque) [
    | inl e ↦ rw e refl
    | inr (d, e) ↦
        let no_room : (log.is_async && not (full d)) ≡ false = ground arith in rw (e, no_room) refl
  ]

  put_line-queued :
      (d : BlockDeque Bytes)
      → log.deque ≡ some d
      → has_room log ≡ true
      → put_line log ≡ (
          retrieve_all_to_str log.buff >>= λ (str, buff).
          ok (record log { buff = buff; deque = some (record d { deq = d.deq ++ str ∷ [] }) }))
  unfolding put_line push_back
  put_line-queued d e room =
      let test : (log.is_async && not (full d)) ≡ true = ground arith in
      let free : full d ≡ false = ground arith in rw (e, test, free) refl

  put_line_puts : Returns Put (put_line log)
  put_line_puts = elim (Bool-cases (has_room log)) [
    | inr full_up ↦ subst (Returns Put) (sym (put_line-filed full_up)) (filed full_up)
    | inl room ↦ elim (Option-cases log.deque) [
      | inl e ↦ absurd (ground arith)
      | inr (d, e) ↦ subst (Returns Put) (sym (put_line-queued d e room)) (
          Returns-bind (retrieve_all_to_str_lem log.buff v) λ (str, buff) (same, _, v', size).
            returns (
              record {
                to_queue = λ q. (
                  refl,
                  ap (λ s. d.deq ++ s ∷ []) (same ∙ filled)
                      ∙ ap (λ q. q ++ (line ++ 0 ∷ []) ∷ []) (deq_of e),
                );
                to_file = λ q. absurd (ground arith);
              },
              v',
              size,
              refl,
              refl,
              refl,
            ))
    ]
  ]
    where
      deq_of : {d : BlockDeque Bytes} → log.deque ≡ some d → d.deq ≡ queued log
      deq_of e = ground arith

rotate-ok :
    (t : Tm) (log : Log) (old : Bytes) → log.fp ≡ some old → rotate true t log ≡ ok (rotated t log)
unfolding rotate
rotate-ok t log old there = elim (Bool-cases (log.today == t.tm_mday)) [
  | inl same ↦ ground (arith, there)
  | inr other ↦ ground (arith, other, there)
]

rotate-named :
    (t : Tm) (log : Log) (name : Bytes)
    → file_of t log ≡ some name
    → rotate true t log ≡ ok (rotated t log)
rotate-named t log name named = elim (Option-cases log.fp) [
  | inl missing ↦ absurd (ground (arith, missing, named))
  | inr (old, there) ↦ rotate-ok t log old there
]

-- Without an open file there is none to close.
rotate-none :
    (t : Tm) (log : Log)
    → log.fp ≡ none
    → (rotate true t log ≡ fault out_of_bounds) ⊎ (rotate true t log ≡ ok log)
unfolding rotate
rotate-none t log missing = elim (Bool-cases (rotates t log)) [
  | inl over ↦ inl (rw (over, missing) refl)
  | inr stays ↦ inr (rw stays refl)
]

module _ (t : Tm) (level : ℤ) (text name : Bytes) (log : Log) (v : IsReady log)
    (short : length (stamp_of t) < 128) (named : file_of t log ≡ some name) where
  no_unread : unread log.buff ≡ []
  no_unread =
      let none_left : log.buff.write_pos - log.buff.read_pos ≡ 0 = omega (arith, v.write_pos) in
      ap (λ n. take n (drop log.buff.read_pos log.buff.buffer)) none_left

  -- On a log whose buffer is valid and empty, where the stamp has at most 127 bytes, a file is
  -- open and a new one can be opened, and the message has no zero byte and fits with the rest of
  -- its line into the buffer: `write` returns and empties the buffer. If a deque has room, the
  -- line and a zero byte stand at its end; otherwise the line is put into the file, before all
  -- that the deque still holds. The count of lines is one more, from 0 on a new day, and the file
  -- is another one exactly where the day has changed or the count was a positive multiple of
  -- 50000.
  pub write_puts :
      no_nul text ≡ true
      → length (stamp_of t) + 11 + length text ≤ length log.buff.buffer
      → Returns
          (λ log'.
            IsPut (line_of t level text) name log log'
            × IsReady log'
            × (log'.line_count ≡ count_of t log + 1)
            × (log'.fp ≡ some name)
            × (length log'.buff.buffer ≡ length log.buff.buffer))
          (write true t level text log)
  unfolding write retrieve_all
  write_puts set room = rw (rotate-named t log name named) (
      Returns-bind
        (format_line_fills t level text log.buff v.valid short (omega (arith, v.write_pos)))
        λ buff f.
          Returns-bind
            (put_line_puts (line_of t level text) name
              (record (rotated t log) { line_count = count_of t log + 1; buff = buff }) f.valid
              (f.contents ∙ ap (λ s. s ++ (line_of t level text ++ 0 ∷ [])) no_unread)
              (no_nul-line_of t level text set) named)
            λ log' (put, v', size, count, fp, _). returns (
              record { to_queue = put.to_queue; to_file = put.to_file },
              record {
                valid = retrieve_all-IsValid log'.buff v';
                read_pos = refl;
                write_pos = refl;
              },
              count,
              fp ∙ named,
              length-zeroed (length log'.buff.buffer) ∙ size ∙ f.size,
            ))

module _ (t : Tm) (level : ℤ) (text : Bytes) (log : Log) (v : IsReady log)
    (short : length (stamp_of t) < 128) where
  -- On a log whose buffer is valid and empty, where the stamp has at most 127 bytes and fits with the
  -- level into the buffer, and a new file can be opened: a message that is longer than what is then
  -- free makes `write` put the end of its line outside the array, or use a null file pointer before
  -- that, where no file is open and it has to be changed. The sizes are those of an `int`.
  pub write_overflows :
      length (stamp_of t) + 10 ≤ length log.buff.buffer
      → length log.buff.buffer < length (stamp_of t) + 9 + length text
      → length text < 2 ^ 31
      → length log.buff.buffer < 2 ^ 31
      → write true t level text log ≡ fault out_of_bounds
  unfolding write
  write_overflows room long small size = elim (Option-cases log.fp) [
    | inr (old, there) ↦ rw (rotate-ok t log old there, over) refl
    | inl missing ↦ elim (rotate-none t log missing) [
      | inl refuses ↦ rw refuses refl
      | inr stays ↦ rw (stays, over) refl
    ]
  ]
    where
      over : format_line t level text log.buff ≡ fault out_of_bounds
      over =
          format_line_overflows t level text log.buff v.valid short (omega (arith, v.write_pos))
            (omega (arith, v.write_pos)) small size
