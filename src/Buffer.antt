-- ===== src/Buffer.antt =====
-- code/buffer/buffer.cpp and buffer.h: a byte queue in a growing array, with a scattered read from
-- a descriptor. What the kernel returns is an argument of `read_fd` and `write_fd`.
pub mod Valid
pub mod Taking
pub mod Contents
pub mod ReadFd
pub mod Tests
use torch_server.Base.{
  ℕ, ◌+◌, ◌-◌, ◌%◌, ◌^◌, ◌≡◌, Bytes, [], ◌++◌, take, drop, replicate, length, Run, ok, fault,
  out_of_bounds, uncaught, assert, ◌>>=◌, ◌>>◌, if◌then◌else◌, ltb, leb,
}

-- `a - b` on `size_t`.
abbrev pub size_sub : ℕ → ℕ → ℕ
size_sub a b = (a + 2 ^ 64 - b) % 2 ^ 64

-- `std::vector<char>::max_size()`
abbrev pub max_size : ℕ
max_size = 2 ^ 63 - 1

pub record Buffer : Type 0 where
  pub buffer : Bytes
  pub read_pos : ℕ
  pub write_pos : ℕ

-- The outcome of a system call that counts bytes: -1 with `errno`, or the count.
pub data Count : Type 0 where
  failed : ℕ → Count
  count : ℕ → Count

-- What `readv` did: it failed with an `errno`, or it delivered these bytes.
pub data ReadV : Type 0 where
  refused : ℕ → ReadV
  delivered : Bytes → ReadV

unfoldable pub readable_bytes : Buffer → ℕ
readable_bytes b = size_sub b.write_pos b.read_pos

unfoldable pub writable_bytes : Buffer → ℕ
writable_bytes b = size_sub (length b.buffer) b.write_pos

unfoldable pub prependable_bytes : Buffer → ℕ
prependable_bytes b = b.read_pos

-- `n` zero bytes, as in `char buff[65535] = {0}`.
unfoldable pub zeroed : ℕ → Bytes
zeroed n = replicate n 0

unfoldable pub init : ℕ → Buffer
init init_buffer_size = record { buffer = zeroed init_buffer_size; read_pos = 0; write_pos = 0 }

-- Reads `n` bytes from the array at `pos`, as through a `const char*`.
unfoldable pub read_at : Bytes → ℕ → ℕ → Run Bytes
read_at array pos n =
    if leb (pos + n) (length array) then ok (take n (drop pos array)) else fault out_of_bounds

-- `std::copy(str, str + len, array + pos)`
unfoldable pub write_at : Bytes → ℕ → Bytes → Run Bytes
write_at array pos str =
    if leb (pos + length str) (length array)
    then ok (take pos array ++ (str ++ drop (pos + length str) array))
    else fault out_of_bounds

unfoldable pub retrieve : ℕ → Buffer → Run Buffer
retrieve len b = do
  assert (leb len (readable_bytes b))
  ok (record b { read_pos = b.read_pos + len })

-- A pointer into the array is its index there.
unfoldable pub retrieve_until : ℕ → Buffer → Run Buffer
retrieve_until end b = do assert (leb b.read_pos end); retrieve (end - b.read_pos) b

unfoldable pub retrieve_all : Buffer → Buffer
retrieve_all b = record { buffer = zeroed (length b.buffer); read_pos = 0; write_pos = 0 }

unfoldable pub retrieve_all_to_str : Buffer → Run (Bytes × Buffer)
retrieve_all_to_str b = do
  str ← read_at b.buffer b.read_pos (readable_bytes b)
  ok (str, retrieve_all b)

unfoldable pub has_written : ℕ → Buffer → Buffer
has_written len b = record b { write_pos = b.write_pos + len }

-- `buffer_.resize(n)`: new bytes are zero, and more than the vector can hold is an exception.
unfoldable pub resize : ℕ → Bytes → Run Bytes
resize n array =
    if leb n max_size then ok (take n array ++ zeroed (n - length array)) else fault uncaught

-- The first branch of `make_space_`: the array grows.
unfoldable pub grow : ℕ → Buffer → Run Buffer
grow len b = do array ← resize (b.write_pos + len + 1) b.buffer; ok (record b { buffer = array })

-- The second branch: the unread bytes move to the front.
unfoldable pub move_to_front : Buffer → Run Buffer
move_to_front b = do
  unread ← read_at b.buffer b.read_pos (readable_bytes b)
  array ← write_at b.buffer 0 unread
  ok (record { buffer = array; read_pos = 0; write_pos = readable_bytes b })

unfoldable pub make_space : ℕ → Buffer → Run Buffer
make_space len b =
    if ltb (writable_bytes b + prependable_bytes b) len then grow len b else move_to_front b

unfoldable pub ensure_writable : ℕ → Buffer → Run Buffer
ensure_writable len b = do
  b' ← if ltb (writable_bytes b) len then make_space len b else ok b
  assert (leb len (writable_bytes b'))
  ok b'

-- `append(const char* str, size_t len)`, which the other overloads end in.
unfoldable pub append : Bytes → Buffer → Run Buffer
append str b = do
  b' ← ensure_writable (length str) b
  array ← write_at b'.buffer b'.write_pos str
  ok (has_written (length str) (record b' { buffer = array }))

unfoldable pub append_buffer : Buffer → Buffer → Run Buffer
append_buffer other b = do
  str ← read_at other.buffer other.read_pos (readable_bytes other)
  append str b

-- The size of the array on the stack that takes what does not fit.
abbrev pub stack_size : ℕ
stack_size = 65535

-- The last branch of `read_fd`: the array is full, and the rest stands in `buff`.
unfoldable pub spill : Bytes → ℕ → Buffer → Run Buffer
spill buff len b = do rest ← read_at buff 0 (size_sub len b.write_pos); append rest b

-- `readv` fills the free end of the array first, then `buff`, which was zeroed.
unfoldable pub read_fd : ReadV → Buffer → Run (Buffer × Count)
read_fd (refused errno) b = ok (b, failed errno)
read_fd (delivered s) b = do
  array ← write_at b.buffer b.write_pos (take (writable_bytes b) s)
  let buff = take stack_size (drop (writable_bytes b) s ++ zeroed stack_size)
  done ←
      if leb (length s) (writable_bytes b)
      then ok (record b { buffer = array; write_pos = b.write_pos + length s })
      else spill buff (length s) (record b { buffer = array; write_pos = length array })
  ok (done, count (length s))

-- `write` is offered `readable` bytes and reports a count.
unfoldable pub write_fd : Count → Buffer → Buffer × Count
write_fd (failed errno) b = (b, failed errno)
write_fd (count len) b = (record b { read_pos = b.read_pos + len }, count len)
