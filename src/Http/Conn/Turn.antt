-- ===== src/Http/Conn/Turn.antt =====
-- code/http/http_conn.cpp: one turn of a connection, from the wait for a request over `read` and
-- `write` to the next wait.
use torch_server.Base.{
  ℕ, ◌+◌, ◌%◌, ◌^◌, ◌≤◌, ◌<◌, ◌≡◌, refl, ◌∙◌, sym, ap, subst, Bool, true, false, Bytes, List, [],
  ◌∷◌, ◌++◌, length, length-drop, ok, arith, Returns, Returns-map, Returns-and, Returns-value, pos,
  ==-false, inl, inr, Safely, safe, broken, Safely-if, Safely-bind, Safely-map, Safely-after, ltb,
  ◌==◌, ◌||◌, Bool-cases, if◌then◌else◌,
}
use torch_server.Buffer.{
  Buffer, Count, failed, count, delivered, refused, max_size, stack_size, retrieve, read_fd,
  retrieve_all,
}
use torch_server.Buffer.Valid.{IsValid, unread}
use torch_server.Buffer.Taking.{retrieve_all-IsValid}
use torch_server.Buffer.ReadFd.{read_fd_keeps}
use torch_server.Http.Request.{ParseState}
use torch_server.Http.Request as HttpRequest
use torch_server.Http.Conn.{Conn, read, read_loop, write, advance, reset, bytes_to_write, is_large}
use torch_server.Http.Conn.Write.{
  IsReady, pending, Stops, AreTaken, sum, then_stop, write_sends, bytes_left,
}
use torch_server.Http.Conn.Page.{IsIdle}

module _ {Prob : Type 0} where
  -- The buffers of a connection are empty after `reset`.
  pub reset-IsIdle : (c : Conn Prob) → IsValid c.read_buff → IsValid c.write_buff → IsIdle (reset c)
  unfolding reset HttpRequest.init retrieve_all
  reset-IsIdle c v v' = record {
    reading = retrieve_all-IsValid c.read_buff v;
    read_start = refl;
    writing = retrieve_all-IsValid c.write_buff v';
    write_start = refl;
    state = refl;
    header = refl;
  }

  read_delivered :
      (et : Bool) (s : Bytes) (errno : ℕ) (c : Conn Prob) (b' : Buffer)
      → 0 < length s
      → read_fd (delivered s) c.read_buff ≡ ok (b', count (length s))
      → read et (delivered s ∷ refused errno ∷ []) 0 c
        ≡ ok (length s, if et then errno else 0, record c { read_buff = b' })
  unfolding read read_loop read_fd
  read_delivered true s errno c b' some_bytes run =
      rw (run, ==-false (length s) 0 (omega arith)) (ground arith)
  read_delivered false s errno c b' some_bytes run =
      rw (run, ==-false (length s) 0 (omega arith)) (ground arith)

  -- A connection that waits reads all bytes that `readv` delivers, when they fit into the two arrays.
  pub read_request :
      (et : Bool) (s : Bytes) (errno : ℕ) (c : Conn Prob)
      → IsIdle c
      → 0 < length s
      → length s ≤ length c.read_buff.buffer + stack_size
      → length s + 1 ≤ max_size
      → (b' : Buffer) × IsValid b'
        × (unread b' ≡ s)
        × (read et (delivered s ∷ refused errno ∷ []) 0 c
            ≡ ok (length s, if et then errno else 0, record c { read_buff = b' }))
  read_request et s errno c idle some_bytes fits room =
      let empty : unread c.read_buff ≡ [] = ground (arith, idle.read_start, idle.reading.ordered) in
      let ((b', n), run, (a, e)) = Returns-value (
        read_fd_keeps c.read_buff s idle.reading (omega (arith, fits, idle.read_start)) room
          (inr idle.read_start)) in
      (
        b',
        a.valid,
        a.contents ∙ ap (λ u. u ++ s) empty,
        read_delivered et s errno c b' some_bytes (run ∙ ap (λ m. ok (b', m)) e),
      )

  -- What `write` does not touch.
  abbrev Kept : Conn Prob → Conn Prob → Type 0
  Kept c c' = (c'.request ≡ c.request) × (c'.read_buff ≡ c.read_buff)

  advance-Kept : (n : ℕ) (c : Conn Prob) → Safely (Kept c) (advance n c)
  unfolding advance
  advance-Kept n c =
      Safely-if (ltb c.iov_0.len n)
        (λ _. safe (elim (Bool-cases (c.iov_0.len == 0)) [
          | inl e ↦ rw e (refl, refl)
          | inr e ↦ rw e (refl, refl)
        ]))
        λ _. Safely-after (retrieve n c.write_buff) λ buff. safe (refl, refl)

  write-Kept :
      (et : Bool) (counts : List Count) (c : Conn Prob)
      → Safely (λ (ret, c'). Kept c c') (write et counts c)
  unfolding write
  write-Kept et [] c = broken
  write-Kept et (failed errno ∷ later) c = safe (refl, refl)
  write-Kept et (count len ∷ later) c =
      Safely-if (len == 0 || (c.iov_0.len + c.iov_1.len) % 2 ^ 64 == 0) (λ _. safe (refl, refl))
        λ _. Safely-bind (advance-Kept len c) λ c' (p, q).
          Safely-if (et || is_large (bytes_to_write c'))
            (λ _. Safely-map (write-Kept et later c') λ (ret, d) (p', q'). (p' ∙ p, q' ∙ q))
            λ _. safe (p, q)

  -- In edge-triggered mode `write` sends a whole answer, when `writev` takes all of it.
  pub write_whole :
      (ns : List ℕ) (stop : Count) (c : Conn Prob)
      → Stops stop
      → IsReady c
      → IsValid c.read_buff
      → AreTaken ns (length (pending c))
      → sum ns ≡ length (pending c)
      → Returns
          (λ (ret, c').
            (bytes_to_write c' ≡ pos 0)
            × (c'.request ≡ c.request)
            × IsValid c'.read_buff
            × IsValid c'.write_buff)
          (write true (then_stop ns stop) c)
  write_whole ns stop c stops ready reading taken all =
      Returns-map
        (Returns-and (write_sends ns stop c stops ready taken)
          (write-Kept true (then_stop ns stop) c))
        λ (ret, c') ((same, ready', left), (request, buff)). (
          bytes_left c' ready'
              ∙ ap pos (omega (arith, ap length left, length-drop (sum ns) (pending c), all)),
          request,
          subst IsValid (sym buff) reading,
          ready'.valid,
        )
