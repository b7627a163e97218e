-- ===== src/Buffer/Taking.antt =====
-- code/buffer/buffer.cpp: what is taken from the front of a valid buffer.
use torch_server.Base.{
  ℕ, ◌+◌, ◌-◌, ◌≤◌, ◌<◌, ◌≡◌, refl, sym, ap, ◌∙◌, [], take, drop, length, drop-take, drop-drop,
  fault, assertion, Returns, returns, arith, le→leb,
}
use torch_server.Buffer.{
  Buffer, max_size, retrieve, retrieve_until, retrieve_all, retrieve_all_to_str, init,
}
use torch_server.Buffer.Valid.{
  IsValid, length-zeroed, unread, readable_lem, length-unread, read_at-ok,
}

module _ (b : Buffer) (v : IsValid b) where
  pub unread-drop :
      (len : ℕ)
      → len ≤ length (unread b)
      → let b' = record b { read_pos = b.read_pos + len } in
        IsValid b' × (unread b' ≡ drop len (unread b))
  unread-drop len h = (
    record { ordered = omega (arith, length-unread v); inside = v.inside; bounded = v.bounded },
    sym (
        drop-take len (b.write_pos - b.read_pos) (drop b.read_pos b.buffer)
        ∙ rw (drop-drop len b.read_pos b.buffer)
            (ap (λ n. take n (drop (b.read_pos + len) b.buffer)) (omega arith))),
  )

  -- `retrieve` removes the given number of bytes from the front of the queue.
  pub retrieve_removes :
      (len : ℕ)
      → len ≤ length (unread b)
      → Returns (λ b'. IsValid b' × (unread b' ≡ drop len (unread b))) (retrieve len b)
  unfolding retrieve
  retrieve_removes len h =
      let size = length-unread v in
      rw (readable_lem v, le→leb len (b.write_pos - b.read_pos) (omega arith))
        (returns (unread-drop len h))

  -- On a valid buffer `retrieve_until`, given a pointer between the two positions, removes exactly
  -- the unread bytes before it.
  pub retrieve_until_removes :
      (end : ℕ)
      → b.read_pos ≤ end
      → end ≤ b.write_pos
      → Returns
          (λ b'. IsValid b' × (unread b' ≡ drop (end - b.read_pos) (unread b)))
          (retrieve_until end b)
  unfolding retrieve_until
  retrieve_until_removes end h k =
      rw (le→leb b.read_pos end h)
        (retrieve_removes (end - b.read_pos) (omega (arith, length-unread v)))

  -- A larger number fails the assertion.
  pub retrieve_beyond : (len : ℕ) → length (unread b) < len → retrieve len b ≡ fault assertion
  unfolding retrieve
  retrieve_beyond len h = rw (readable_lem v) (ground (arith, length-unread v))

  -- On a valid buffer `retrieve_all_to_str` returns the unread bytes and leaves a valid buffer
  -- without any, with an array of the same size.
  pub retrieve_all_to_str_lem :
      Returns
        (λ (str, b').
          (str ≡ unread b) × (unread b' ≡ []) × IsValid b' × (length b'.buffer ≡ length b.buffer))
        (retrieve_all_to_str b)
  unfolding retrieve_all_to_str retrieve_all
  retrieve_all_to_str_lem =
      rw (readable_lem v, read_at-ok b.buffer b.read_pos (b.write_pos - b.read_pos) (omega arith))
        (returns (
          refl,
          refl,
          omega (arith, length-zeroed (length b.buffer)),
          length-zeroed (length b.buffer),
        ))

-- A new buffer is valid and empty.
pub init-IsValid : (n : ℕ) → n ≤ max_size → IsValid (init n) × (unread (init n) ≡ [])
unfolding init
init-IsValid n h = (omega (arith, length-zeroed n), refl)

-- `retrieve_all` empties the queue and keeps the size of the array.
pub retrieve_all-IsValid : (b : Buffer) → IsValid b → IsValid (retrieve_all b)
unfolding retrieve_all
retrieve_all-IsValid b v = omega (arith, v.bounded, length-zeroed (length b.buffer))
