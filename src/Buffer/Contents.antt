-- ===== src/Buffer/Contents.antt =====
-- code/buffer/buffer.cpp: the operations on a valid buffer are those of a queue of bytes.
use torch_server.Base.{
  ℕ, ◌+◌, ◌-◌, ◌≤◌, ◌≡◌, refl, Bytes, ◌++◌, take, drop, length, length-append, length-take,
  length-drop, take-length-append, take_all, ok, Returns, returns, Returns-bind, Returns-if,
  Returns-of, arith, ltb, le→leb, if◌then◌else◌,
}
use torch_server.Buffer.{
  Buffer, max_size, resize, grow, move_to_front, make_space, ensure_writable, append, has_written,
  prependable_bytes, zeroed,
}
use torch_server.Buffer.Valid.{
  IsValid, length-zeroed, unread, readable_lem, writable_lem, length-unread, read_at-ok,
  write_at-ok, slice-write, slice_kept,
}

-- The outcome of making room: the same unread bytes, and `len` free bytes behind them.
pub record HasRoom (b : Buffer) (len : ℕ) (b' : Buffer) : Type 0 where
  pub valid : IsValid b'
  pub kept : unread b' ≡ unread b
  pub free : b'.write_pos + len ≤ length b'.buffer
  pub no_later : b'.write_pos ≤ b.write_pos

resize-ok :
    (n : ℕ) (array : Bytes)
    → n ≤ max_size
    → length array ≤ n
    → resize n array ≡ ok (array ++ zeroed (n - length array))
unfolding resize
resize-ok n array h k = rw (le→leb _ _ h, take_all n array k)

grow-HasRoom :
    (b : Buffer) (len : ℕ)
    → IsValid b
    → b.write_pos + len + 1 ≤ max_size
    → length b.buffer ≤ b.write_pos + len + 1
    → Returns (HasRoom b len) (grow len b)
unfolding grow
grow-HasRoom b len v room larger =
    let n = b.write_pos + len + 1 in
    let zeros : Bytes = zeroed (n - length b.buffer) in
    let size : length (b.buffer ++ zeros) ≡ n =
      omega (arith, length-append b.buffer zeros, length-zeroed (n - length b.buffer)) in
    Returns-of (record b { buffer = b.buffer ++ zeros }) (rw (resize-ok n b.buffer room larger))
      (record {
        valid = record {
          ordered = v.ordered;
          inside = omega (arith, size);
          bounded = omega (arith, size);
        };
        kept = slice_kept b.read_pos (b.write_pos - b.read_pos) b.buffer zeros (omega arith);
        free = omega (arith, size);
        no_later = omega arith;
      })

move_to_front-HasRoom :
    (b : Buffer) (len : ℕ)
    → IsValid b
    → len + b.write_pos ≤ length b.buffer + b.read_pos
    → Returns (HasRoom b len) (move_to_front b)
unfolding move_to_front
move_to_front-HasRoom b len v fits =
    let n = b.write_pos - b.read_pos in
    let size = length-unread v in
    let tail = drop (0 + length (unread b)) b.buffer in
    let same : length (unread b ++ tail) ≡ length b.buffer =
      omega (
        arith,
        size,
        length-append (unread b) tail,
        length-drop (0 + length (unread b)) b.buffer,
      ) in
    rw
      (
        readable_lem v,
        read_at-ok b.buffer b.read_pos n (omega arith),
        write_at-ok b.buffer 0 (unread b) (omega (arith, size)),
      )
      (returns (record {
        valid = record {
          ordered = omega arith;
          inside = omega (arith, same);
          bounded = omega (arith, same);
        };
        kept = take-length-append (n - 0) (unread b) tail (omega (arith, size));
        free = omega (arith, same);
        no_later = omega arith;
      }))

make_space-HasRoom :
    (b : Buffer) (len : ℕ)
    → IsValid b
    → b.write_pos + len + 1 ≤ max_size
    → Returns (HasRoom b len) (make_space len b)
unfolding make_space prependable_bytes
make_space-HasRoom b len v room = rw (writable_lem v) (
    Returns-if (ltb (length b.buffer - b.write_pos + b.read_pos) len)
      (λ short. grow-HasRoom b len v room (ground arith))
      (λ enough. move_to_front-HasRoom b len v (ground arith)))

-- No assertion of `ensure_writable` fails on a valid buffer.
pub ensure_writable-HasRoom :
    (b : Buffer) (len : ℕ)
    → IsValid b
    → b.write_pos + len + 1 ≤ max_size
    → Returns (HasRoom b len) (ensure_writable len b)
unfolding ensure_writable
ensure_writable-HasRoom b len v room =
    let spaced : Returns (HasRoom b len)
        (if ltb (length b.buffer - b.write_pos) len then make_space len b else ok b) =
      Returns-if (ltb (length b.buffer - b.write_pos) len)
        (λ short. make_space-HasRoom b len v room)
        (λ enough.
          returns
            (record { valid = v; kept = refl; free = ground arith; no_later = omega arith })) in
    rw (writable_lem v) (
      Returns-bind spaced λ b' h.
        rw
          (
            writable_lem h.valid,
            le→leb len (length b'.buffer - b'.write_pos) (omega (arith, h.free)),
          )
          (returns h))

-- The outcome of writing `str` behind the unread bytes.
pub record Appended (b : Buffer) (str : Bytes) (b' : Buffer) : Type 0 where
  pub valid : IsValid b'
  pub contents : unread b' ≡ unread b ++ str
  pub bound : b'.write_pos ≤ b.write_pos + length str

pub length-written :
    (pos : ℕ) (array str after : Bytes)
    → pos ≤ length array
    → length (take pos array ++ (str ++ after)) ≡ pos + length str + length after
length-written pos array str after h = omega (
  arith,
  length-append (take pos array) (str ++ after),
  length-append str after,
  length-take pos array,
)

pub write-Appended :
    (b : Buffer) (str after : Bytes)
    → IsValid b
    → b.write_pos + length str ≤ length b.buffer
    → length after + b.write_pos + length str ≡ length b.buffer
    → Appended b str (record {
      buffer = take b.write_pos b.buffer ++ (str ++ after);
      read_pos = b.read_pos;
      write_pos = b.write_pos + length str;
    })
write-Appended b str after v fits whole =
    let n = b.write_pos - b.read_pos in
    let size : length (take b.write_pos b.buffer ++ (str ++ after)) ≡ length b.buffer =
      omega (arith, length-written b.write_pos b.buffer str after v.inside) in
    let end : b.read_pos + n ≡ b.write_pos = omega arith in
    let more : b.write_pos + length str - b.read_pos ≡ n + length str = omega arith in
    record {
      valid = record {
        ordered = omega arith;
        inside = omega (arith, size);
        bounded = omega (arith, size);
      };
      contents = rw more (rw end at (slice-write b.read_pos n b.buffer str after (omega arith)));
      bound = omega arith;
    }

module _ (b : Buffer) (v : IsValid b) where
  -- On a valid buffer that stays below the vector's maximal size `append` succeeds, and adds
  -- exactly the given bytes behind the unread ones.
  pub append_adds :
      (str : Bytes)
      → b.write_pos + length str + 1 ≤ max_size
      → Returns (Appended b str) (append str b)
  unfolding append has_written
  append_adds str room = Returns-bind (ensure_writable-HasRoom b (length str) v room) λ b' h.
      let after = drop (b'.write_pos + length str) b'.buffer in
      let a =
        write-Appended b' str after h.valid h.free
          (omega (arith, h.free, length-drop (b'.write_pos + length str) b'.buffer)) in
      rw (write_at-ok b'.buffer b'.write_pos str h.free) (
        returns (record {
          valid = a.valid;
          contents = rw (← h.kept) a.contents;
          bound = omega (arith, h.no_later, a.bound);
        }))
