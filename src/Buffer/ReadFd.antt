-- ===== src/Buffer/ReadFd.antt =====
-- code/buffer/buffer.cpp, `read_fd` and `write_fd`: what becomes of the bytes that the kernel moves.
use native.Mathlib.Decide.{dec_le}
use torch_server.Base.{
  ℕ, ◌+◌, ◌-◌, ◌≤◌, ◌<◌, ◌≡◌, refl, sym, ap, ◌∙◌, Bytes, ◌++◌, take, drop, length, length-append,
  length-take, length-drop, take-add, take-take, take-append_left, take_all, append_assoc, ok,
  fault, out_of_bounds, ◌>>=◌, Returns, returns, Returns-bind, Returns-map, leb-false, ◌^◌, arith,
  leb, le→leb, false, ◌⊎◌, inl, inr,
}
use torch_server.Buffer.{
  Buffer, max_size, stack_size, size_sub, delivered, failed, count, zeroed, read_at, write_at,
  spill, read_fd, write_fd,
}
use torch_server.Buffer.Valid.{
  IsValid, unread, writable_lem, read_at-ok, write_at-ok, length-zeroed,
}
use torch_server.Buffer.Taking.{unread-drop}
use torch_server.Buffer.Contents.{Appended, write-Appended, append_adds, length-written}

abbrev pub free : Buffer → ℕ
free b = length b.buffer - b.write_pos

module _ (b : Buffer) (s : Bytes) (v : IsValid b) where
  first_write :
      length s ≤ free b
      → write_at b.buffer b.write_pos s
        ≡ ok (take b.write_pos b.buffer ++ (s ++ drop (b.write_pos + length s) b.buffer))
  first_write h = write_at-ok b.buffer b.write_pos s (omega (arith, v.inside))

  -- The prefix that fills the array up.
  abbrev head_part : Bytes
  head_part = take (free b) s

  abbrev filled : Bytes
  filled =
      take b.write_pos b.buffer ++ (head_part ++ drop (b.write_pos + length head_part) b.buffer)

  abbrev full : Buffer
  full = record b { buffer = filled; write_pos = length filled }

  abbrev overflow : Bytes
  overflow = take stack_size (drop (free b) s ++ zeroed stack_size)

  length-head_part : free b < length s → length head_part ≡ free b
  length-head_part h = omega (arith, length-take (free b) s)

  length-filled : free b < length s → length filled ≡ b.write_pos + length head_part
  length-filled h =
      let after = drop (b.write_pos + length head_part) b.buffer in
      omega (
        arith,
        length-head_part h,
        length-written b.write_pos b.buffer head_part after v.inside,
        length-drop (b.write_pos + length head_part) b.buffer,
      )

  full-Appended : free b < length s → Appended b head_part full
  full-Appended h =
      let after = drop (b.write_pos + length head_part) b.buffer in
      rw (length-filled h) (
        write-Appended b head_part after v (omega (arith, length-head_part h, v.inside)) (
          omega (
            arith,
            length-head_part h,
            v.inside,
            length-drop (b.write_pos + length head_part) b.buffer,
          )))

  length-overflow : length overflow ≡ stack_size
  length-overflow = omega (
    arith,
    length-take stack_size (drop (free b) s ++ zeroed stack_size),
    length-append (drop (free b) s) (zeroed stack_size),
    length-zeroed stack_size,
  )

  module _ (h : free b < length s) (fits : length s ≤ free b + stack_size) where
    -- The bytes that `append` is asked for, when the subtraction does not wrap.
    spilled_part :
        length b.buffer ≤ length s
        → take (length s - length b.buffer) (drop 0 overflow)
          ≡ take (length s - length b.buffer) (drop (free b) s)
    spilled_part e =
        let n = length s - length b.buffer in
        let zeros : Bytes = zeroed stack_size in
        let more = drop (free b) s in
        rw (take-take n stack_size (more ++ zeros) (omega arith))
          (take-append_left n more zeros (omega (arith, length-drop (free b) s)))

    spill_short :
        length b.buffer ≤ length s
        → length s + 1 ≤ max_size
        → Returns (Appended b (take (length s - b.write_pos) s)) (spill overflow (length s) full)
    unfolding spill
    spill_short e room =
        let size = length-filled h in
        let n : size_sub (length s) full.write_pos ≡ length s - length b.buffer =
          omega (arith, size, length-head_part h, v.inside) in
        let more = take (length s - length b.buffer) (drop (free b) s) in
        let a = full-Appended h in
        let asked : read_at overflow 0 (length s - length b.buffer) ≡ ok more =
          read_at-ok overflow 0 (length s - length b.buffer)
            (omega (arith, length-overflow, v.inside))
          ∙ ap ok (spilled_part e) in
        let more_size : length more ≡ length s - length b.buffer = omega (
          arith,
          v.inside,
          length-take (length s - length b.buffer) (drop (free b) s),
          length-drop (free b) s,
        ) in
        rw (n, asked)
          (Returns-map
            (append_adds full a.valid more
              (omega (arith, size, length-head_part h, more_size, v.inside)))
            λ b' w. record {
              valid = w.valid;
              contents =
                  w.contents
                  ∙ ap (λ u. u ++ more) a.contents
                  ∙ append_assoc (unread b) head_part more
                  ∙ ap (◌++◌ (unread b)) joined;
              bound = omega (
                arith,
                w.bound,
                size,
                length-head_part h,
                more_size,
                v.inside,
                length-take (length s - b.write_pos) s,
              );
            })
      where
        joined :
            head_part ++ take (length s - length b.buffer) (drop (free b) s)
            ≡ take (length s - b.write_pos) s
        joined = sym (
            rw (← take-add (free b) (length s - length b.buffer) s)
              (ap (λ k. take k s) (omega (arith, v.inside))))

    spill_faults : length s < length b.buffer → spill overflow (length s) full ≡ fault out_of_bounds
    unfolding spill read_at
    spill_faults e =
        let n : size_sub (length s) full.write_pos ≡ length s + 2 ^ 64 - length b.buffer =
          omega (arith, length-filled h, length-head_part h, v.inside, v.bounded) in
        let beyond : leb (0 + (length s + 2 ^ 64 - length b.buffer)) (length overflow) ≡ false =
          leb-false _ _ (omega (arith, length-overflow, v.inside, v.bounded)) in
        rw (n, beyond)

  read_fd_small :
      length s ≤ free b
      → Returns (λ (b', n). Appended b s b' × (n ≡ count (length s))) (read_fd (delivered s) b)
  unfolding read_fd
  read_fd_small h =
      let after = drop (b.write_pos + length s) b.buffer in
      let a =
        write-Appended b s after v (omega (arith, v.inside))
          (omega (arith, v.inside, length-drop (b.write_pos + length s) b.buffer)) in
      rw (writable_lem v, take_all (free b) s h, first_write h, le→leb (length s) (free b) h)
        (returns (a, refl))

  read_fd_large :
      free b < length s
      → read_fd (delivered s) b
        ≡ (spill overflow (length s) full >>= λ b'. ok (b', count (length s)))
  unfolding read_fd
  read_fd_large h =
      let written : write_at b.buffer b.write_pos head_part ≡ ok filled =
        write_at-ok b.buffer b.write_pos head_part (omega (arith, v.inside, length-head_part h)) in
      rw (writable_lem v, written, leb-false (length s) (free b) h)

  -- On a valid buffer that stays below the vector's maximal size: where `readv` delivers more bytes
  -- than the free end of the array takes, and at least as many as the whole array has, the last
  -- `write_pos` of them do not reach the queue, although the count reports them.
  pub read_fd_loses :
      free b < length s
      → length s ≤ free b + stack_size
      → length b.buffer ≤ length s
      → length s + 1 ≤ max_size
      → Returns
          (λ (b', n). Appended b (take (length s - b.write_pos) s) b' × (n ≡ count (length s)))
          (read_fd (delivered s) b)
  read_fd_loses h fits e room =
      rw (read_fd_large h) (Returns-bind (spill_short h fits e room) λ b' a. returns (a, refl))

  -- On a valid buffer: where `readv` delivers more bytes than the free end of the array takes, but
  -- fewer than the whole array has, `read_fd` reads outside the array on the stack.
  pub read_fd_faults :
      free b < length s
      → length s ≤ free b + stack_size
      → length s < length b.buffer
      → read_fd (delivered s) b ≡ fault out_of_bounds
  read_fd_faults h fits e = rw (read_fd_large h, spill_faults h fits e)

  -- On a valid buffer that stays below the vector's maximal size: where the bytes that `readv`
  -- delivers fit into the free end of the array, or the write position is 0, all of them come to
  -- stand behind the unread bytes, and their number is returned.
  pub read_fd_keeps :
      length s ≤ free b + stack_size
      → length s + 1 ≤ max_size
      → (length s ≤ free b) ⊎ (b.write_pos ≡ 0)
      → Returns (λ (b', n). Appended b s b' × (n ≡ count (length s))) (read_fd (delivered s) b)
  read_fd_keeps fits room (inl h) = read_fd_small h
  read_fd_keeps fits room (inr e) = elim (dec_le (length s) (free b)) [
    | yes h ↦ read_fd_small h
    | no h ↦
        let whole : take (length s - b.write_pos) s ≡ s =
          take_all (length s - b.write_pos) s (omega arith) in
        rw whole at (read_fd_loses (omega arith) fits (omega (arith, v.inside)) room)
  ]

-- `write` takes a number of the readable bytes, and those leave the queue; on an error none does.
pub write_fd_removes :
    (b : Buffer) (len : ℕ)
    → IsValid b
    → len ≤ length (unread b)
    → IsValid (write_fd (count len) b).0
      × (unread (write_fd (count len) b).0 ≡ drop len (unread b))
      × ((errno : ℕ) → write_fd (failed errno) b ≡ (b, failed errno))
unfolding write_fd
write_fd_removes b len v h = let r = unread-drop b v len h in (r.0, r.1, λ errno. refl)
