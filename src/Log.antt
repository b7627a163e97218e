-- ===== src/Log.antt =====
-- code/log/log.cpp and log.h: the log. The clock, the message that `vsnprintf` formats, and whether
-- `fopen` succeeds are arguments; what was put into which file is a list.
pub mod Lines
pub mod Async
pub mod Text
pub mod Write
pub mod Stored
pub mod Steps
pub mod Order
pub mod Exit
pub mod StepTests
pub mod Tests
use torch_server.Base.{
  ℕ, zero, suc, ◌+◌, ◌-◌, ◌/◌, ◌%◌, ◌≡◌, ℤ, pos, negsuc, Bool, true, false, not, ◌&&◌, ◌||◌, Bytes,
  codes, List, [], ◌∷◌, ◌++◌, length, take, drop, replicate, Option, some, none, Run, ok, fault,
  waits, out_of_bounds, assertion, assert, or_fault, ◌>>=◌, ◌>>◌, ltb, leb, ◌==◌, is_some,
  if◌then◌else◌,
}
use torch_server.Buffer.{
  Buffer, readable_bytes, writable_bytes, write_at, has_written, append, retrieve_all,
  retrieve_all_to_str,
}
use torch_server.Buffer as ByteBuffer
use torch_server.BlockDeque.{BlockDeque, push_back}
use torch_server.BlockDeque as BlockDeque
use torch_server.Http.Response.{to_string}

-- `struct tm` and the microseconds, in the fields' own counts.
pub record Tm : Type 0 where
  pub tm_year : ℕ
  pub tm_mon : ℕ
  pub tm_mday : ℕ
  pub tm_hour : ℕ
  pub tm_min : ℕ
  pub tm_sec : ℕ
  pub tv_usec : ℕ

-- `fp` is the name of the open file. `put` has what `fputs` put into which file, in order.
pub record Log : Type 0 where
  pub path : Bytes
  pub suffix : Bytes
  pub line_count : ℕ
  pub today : ℕ
  pub is_open : Bool
  pub buff : Buffer
  pub level : ℤ
  pub is_async : Bool
  pub fp : Option Bytes
  pub put : List (Bytes × Bytes)
  pub deque : Option (BlockDeque Bytes)

abbrev pub max_lines : ℕ
max_lines = 50_000

abbrev pub log_name_len : ℕ
log_name_len = 256

-- `%0wd`
unfoldable pub padded : ℕ → ℕ → Bytes
padded width n = replicate (width - length (to_string n)) b'0' ++ to_string n

-- `%04d_%02d_%02d_%02d_%02d`
unfoldable pub name_of : Tm → Bytes
name_of t =
    padded 4 (t.tm_year + 1_900)
    ++ (codes "_"
        ++ (padded 2 (t.tm_mon + 1)
            ++ (codes "_"
                ++ (padded 2 t.tm_mday
                    ++ (codes "_" ++ (padded 2 t.tm_hour ++ (codes "_" ++ padded 2 t.tm_min)))))))

-- `%d-%02d-%02d %02d:%02d:%02d.%06ld `
unfoldable pub stamp_of : Tm → Bytes
stamp_of t =
    to_string (t.tm_year + 1_900)
    ++ (codes "-"
        ++ (padded 2 (t.tm_mon + 1)
            ++ (codes "-"
                ++ (padded 2 t.tm_mday
                    ++ (codes " "
                        ++ (padded 2 t.tm_hour
                            ++ (codes ":"
                                ++ (padded 2 t.tm_min
                                    ++ (codes ":"
                                        ++ (padded 2 t.tm_sec
                                            ++ (codes "."
                                                ++ (padded 6 t.tv_usec ++ codes " "))))))))))))

-- The constructor; the level is what stands in memory.
unfoldable pub new : ℤ → Log
new level = record {
  path = [];
  suffix = [];
  line_count = 0;
  today = 0;
  is_open = false;
  buff = ByteBuffer.init 65_535;
  level = level;
  is_async = false;
  fp = none;
  put = [];
  deque = none;
}

-- `max_queue_cap > 0`
unfoldable pub is_positive : ℤ → Bool
is_positive (pos n) = ltb 0 n
is_positive (negsuc n) = false

-- The deque with its default capacity, and the thread that writes, which are made once.
unfoldable pub init_deque : ℤ → Log → Run Log
init_deque max_queue_cap log =
    if is_positive max_queue_cap
    then elim log.deque [
      | some d ↦ ok (record log { is_async = true })
      | none ↦ BlockDeque.new 1_000 >>= λ d. ok (record log { is_async = true; deque = some d })
    ]
    else ok (record log { is_async = false })

-- `opened` tells whether the first `fopen` succeeds, and the one after `mkdir`.
unfoldable pub init : Bool × Bool → Tm → ℤ → Bytes → Bytes → ℤ → Log → Run Log
init (first, second) t level path suffix max_queue_cap log = if log.is_open then ok log else (do
  log' ← init_deque max_queue_cap (record log { is_open = true; level = level })
  assert (first || second)
  ok (record log' {
    line_count = 0;
    path = path;
    suffix = suffix;
    today = t.tm_mday;
    buff = retrieve_all log'.buff;
    fp = some (take (log_name_len - 2) (path ++ (codes "/" ++ (name_of t ++ suffix))));
  }))

-- The file of another day, or of the next lines of the same one.
unfoldable pub next_name : Tm → Log → Bytes
next_name t log =
    let number =
      if log.today == t.tm_mday then codes "-" ++ to_string (log.line_count / max_lines) else [] in
    take (log_name_len - 72 - 1) (log.path ++ (codes "/" ++ (name_of t ++ (number ++ log.suffix))))

-- The first part of `write`: another file where the day is over or the file is full. The old one
-- is closed, through a pointer that must not be null, and `opened` tells whether the `fopen` of
-- the new one succeeds.
unfoldable pub rotate : Bool → Tm → Log → Run Log
rotate opened t log =
    let is_over = not (log.today == t.tm_mday) in
    let is_full = not (log.line_count == 0) && log.line_count % max_lines == 0 in
    if is_over || is_full
    then (do
      old ← or_fault log.fp out_of_bounds
      assert opened
      ok (record log {
        fp = some (next_name t log);
        today = t.tm_mday;
        line_count = if is_over then 0 else log.line_count;
      }))
    else ok log

-- `snprintf` to where the buffer is written, of at most `size` bytes; it returns the length of the
-- whole text.
unfoldable pub snprintf : ℕ → Bytes → Buffer → Run (ℕ × Buffer)
snprintf zero text b = ok (length text, b)
snprintf (suc size) text b = do
  array ← write_at b.buffer b.write_pos (take size text ++ 0 ∷ [])
  ok (length text, record b { buffer = array })

unfoldable pub level_text : ℤ → Bytes
level_text (negsuc n) = codes "[info] : "
level_text (pos n) =
    if n == 0
    then codes "[debug]: "
    else if n == 2
    then codes "[warn] : "
    else if n == 3
    then codes "[error]: "
    else codes "[info] : "

unfoldable pub append_log_level : ℤ → Buffer → Run Buffer
append_log_level level b = append (level_text level) b

-- The C string at a pointer.
unfoldable pub c_str : Bytes → Run Bytes
c_str [] = fault out_of_bounds
c_str (c ∷ rest) = if c == 0 then ok [] else c_str rest >>= λ s. ok (c ∷ s)

-- `fputs(str, fp_)`
unfoldable pub fputs : Bytes → Log → Run Log
fputs memory log = do
  text ← c_str memory
  name ← or_fault log.fp out_of_bounds
  ok (record log { put = log.put ++ (name, text) ∷ [] })

-- The line in the buffer goes to the deque, if there is one with room, and otherwise to the file.
unfoldable pub put_line : Log → Run Log
put_line log =
    let to_file = fputs (drop log.buff.read_pos log.buff.buffer) log in
    elim log.deque [
      | none ↦ to_file
      | some d ↦
          if log.is_async && not (BlockDeque.full d)
          then (do
            (line, buff) ← retrieve_all_to_str log.buff
            d' ← or_fault (push_back line d) waits
            ok (record log { buff = buff; deque = some d' }))
          else to_file
    ]

-- The stamp, the level, the message and the end of the line, in the buffer.
unfoldable pub format_line : Tm → ℤ → Bytes → Buffer → Run Buffer
format_line t level text b = do
  (n, b₁) ← snprintf 128 (stamp_of t) b
  b₂ ← append_log_level level (has_written n b₁)
  (m, b₃) ← snprintf (writable_bytes b₂) text b₂
  append (codes "\n" ++ 0 ∷ []) (has_written m b₃)

unfoldable pub write : Bool → Tm → ℤ → Bytes → Log → Run Log
write opened t level text log = do
  log' ← rotate opened t log
  buff ← format_line t level text log'.buff
  log'' ← put_line (record log' { line_count = log'.line_count + 1; buff = buff })
  ok (record log'' { buff = retrieve_all log''.buff })

unfoldable pub get_level : Log → ℤ
get_level log = log.level

unfoldable pub set_level : ℤ → Log → Log
set_level level log = record log { level = level }
