-- ===== src/Buffer/Valid.antt =====
-- code/buffer/buffer.cpp: the valid buffers, and slices of their arrays.
use torch_server.Base.{
  ℕ, ◌+◌, ◌-◌, ◌≤◌, ◌≡◌, ap, ◌∙◌, Bytes, ◌++◌, take, drop, length, length-append, length-take,
  length-drop, length-replicate, take-length-append, drop-length-append, take-append-drop, take-add,
  append_assoc, ok, arith, le→leb,
}
use torch_server.Buffer.{
  Buffer, max_size, readable_bytes, writable_bytes, read_at, write_at, zeroed,
}

-- What the constructor establishes and every operation keeps.
pub record IsValid (b : Buffer) : Type 0 where
  pub ordered : b.read_pos ≤ b.write_pos
  pub inside : b.write_pos ≤ length b.buffer
  pub bounded : length b.buffer ≤ max_size

pub length-zeroed : (n : ℕ) → length (zeroed n) ≡ n
unfolding zeroed
length-zeroed n = length-replicate n 0

-- The bytes that were written and not yet retrieved.
abbrev pub unread : Buffer → Bytes
unread b = take (b.write_pos - b.read_pos) (drop b.read_pos b.buffer)

pub readable_lem : {b : Buffer} → IsValid b → readable_bytes b ≡ b.write_pos - b.read_pos
unfolding readable_bytes
readable_lem v = omega arith

pub writable_lem : {b : Buffer} → IsValid b → writable_bytes b ≡ length b.buffer - b.write_pos
unfolding writable_bytes
writable_lem v = omega arith

pub length-unread : {b : Buffer} → IsValid b → length (unread b) ≡ b.write_pos - b.read_pos
length-unread {b} v = omega (
  arith,
  length-take (b.write_pos - b.read_pos) (drop b.read_pos b.buffer),
  length-drop b.read_pos b.buffer,
)

pub read_at-ok :
    (array : Bytes) (pos n : ℕ)
    → pos + n ≤ length array
    → read_at array pos n ≡ ok (take n (drop pos array))
unfolding read_at
read_at-ok array pos n h = rw (le→leb _ _ h)

pub write_at-ok :
    (array : Bytes) (pos : ℕ) (str : Bytes)
    → pos + length str ≤ length array
    → write_at array pos str ≡ ok (take pos array ++ (str ++ drop (pos + length str) array))
unfolding write_at
write_at-ok array pos str h = rw (le→leb _ _ h)

-- The middle of three pieces.
pub slice_middle :
    (r n : ℕ) (before middle after : Bytes)
    → r ≡ length before
    → n ≡ length middle
    → take n (drop r (before ++ (middle ++ after))) ≡ middle
slice_middle r n before middle after e f =
    rw (drop-length-append r before (middle ++ after) e) (take-length-append n middle after f)

-- A slice that ends where new bytes are written is extended by them.
pub slice-write :
    (r n : ℕ) (array str after : Bytes)
    → r + n ≤ length array
    → take (n + length str) (drop r (take (r + n) array ++ (str ++ after)))
      ≡ take n (drop r array) ++ str
slice-write r n array str after h =
    rw (take-add r n array, append_assoc, ← append_assoc (take n (drop r array)) str after)
      (slice_middle r (n + length str) (take r array) (take n (drop r array) ++ str) after
        (omega (arith, length-take r array))
        (omega (
          arith,
          length-append (take n (drop r array)) str,
          length-take n (drop r array),
          length-drop r array,
        )))

-- A slice of an array is also the slice of a longer one.
pub slice_kept :
    (r n : ℕ) (array after : Bytes)
    → r + n ≤ length array
    → take n (drop r (array ++ after)) ≡ take n (drop r array)
slice_kept r n array after h =
    ap (λ a. take n (drop r a)) pieces
    ∙ slice_middle r n (take r array) (take n (drop r array)) (drop n (drop r array) ++ after)
        (omega (arith, length-take r array))
        (omega (arith, length-take n (drop r array), length-drop r array))
  where
    pieces :
        array ++ after ≡ take r array ++ (take n (drop r array) ++ (drop n (drop r array) ++ after))
    pieces = rw (
      ← append_assoc (take n (drop r array)) (drop n (drop r array)) after,
      take-append-drop n (drop r array),
      ← append_assoc (take r array) (drop r array) after,
      take-append-drop r array,
    )
