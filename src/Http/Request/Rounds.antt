-- ===== src/Http/Request/Rounds.antt =====
-- code/http/http_request.cpp: the rounds of the loop of `parse`, on the unread bytes.
use torch_server.Base.{
  ℕ, suc, ◌+◌, ◌-◌, ◌<◌, ◌≡◌, refl, ◌∙◌, sym, ap, true, false, ◌||◌, Bytes, ◌∷◌, ◌++◌, length, drop,
  take, ok, ◌>>=◌, arith, ◌==◌, ==-false, ==_iff, take_all, Returns-value, drop-drop,
  take-length-append, drop-length-append, length-append,
}
use torch_server.Buffer.{Buffer, retrieve_until}
use torch_server.Buffer.Valid.{IsValid, unread, readable_lem, length-unread, read_at-ok}
use torch_server.Buffer.Taking.{retrieve_until_removes}
use torch_server.Http.Verify.{Mysql}
use torch_server.Http.Lines.{find_crlf, has_char}
use torch_server.Http.Lines.Laws.{find_crlf-append, find_crlf_missing}
use torch_server.Http.Request.{
  Classifier, Request, ParseResult, Handled, World, is_finished, handle_line, after_line,
  parse_loop,
}

module _ (sql : Mysql) (model : Classifier) where
  open model use {Prob}

  -- A round on unread bytes: the line is what stands before the first "\r\n".
  pub parse_loop_round :
      (n : ℕ) (r : Request Prob) (b : Buffer) (w : World sql model)
      → IsValid b
      → 0 < length (unread b)
      → is_finished r.state ≡ false
      → parse_loop sql model (suc n) r b w
        ≡ handle_line sql model (take (find_crlf (unread b)) (unread b)) (length (unread b)) r w
          >>= after_line sql model (parse_loop sql model n) (b.read_pos + find_crlf (unread b)) b
  unfolding parse_loop
  parse_loop_round n r b w v some_bytes open_state =
      let size = length-unread v in
      rw (
        readable_lem v,
        ==-false (b.write_pos - b.read_pos) 0 (omega arith),
        open_state,
        read_at-ok b.buffer b.read_pos (b.write_pos - b.read_pos)
            (omega (arith, v.ordered, v.inside)),
        size,
      )

  pub parse_loop_stops :
      (n : ℕ) (r : Request Prob) (b : Buffer) (w : World sql model)
      → IsValid b
      → (length (unread b) == 0 || is_finished r.state) ≡ true
      → parse_loop sql model (suc n) r b w ≡ ok (ParseResult.done, r, b, w)
  unfolding parse_loop
  parse_loop_stops n r b w v stop = rw (readable_lem v, ← length-unread v, stop)

  -- A round on a line that is closed by "\r\n" goes on with the bytes behind it.
  pub parse_loop_line :
      (n : ℕ) (r r' : Request Prob) (b : Buffer) (w w' : World sql model) (line rest : Bytes)
      → IsValid b
      → is_finished r.state ≡ false
      → has_char 13 line ≡ false
      → unread b ≡ line ++ 13 ∷ 10 ∷ rest
      → handle_line sql model line (length line + 2 + length rest) r w ≡ ok (Handled.parsed, r', w')
      → (b' : Buffer) × IsValid b'
        × (unread b' ≡ rest)
        × (parse_loop sql model (suc n) r b w ≡ parse_loop sql model n r' b' w')
  unfolding after_line
  parse_loop_line n r r' b w w' line rest v open_state no_cr shape handled =
      let k = length line in
      let total : length (unread b) ≡ k + 2 + length rest =
        ap length shape ∙ omega (arith, length-append line (13 ∷ 10 ∷ rest)) in
      let at : find_crlf (unread b) ≡ k = ap find_crlf shape ∙ find_crlf-append line rest no_cr in
      let cut : take k (unread b) ≡ line =
        ap (take k) shape ∙ take-length-append k line (13 ∷ 10 ∷ rest) refl in
      let left : drop (k + 2) (unread b) ≡ rest =
        ap (drop (k + 2)) shape
        ∙ sym (drop-drop 2 k (line ++ 13 ∷ 10 ∷ rest))
        ∙ ap (drop 2) (drop-length-append k line (13 ∷ 10 ∷ rest) refl) in
      go_on at cut total left (
        Returns-value (
          retrieve_until_removes b v (b.read_pos + k + 2) (omega arith)
            (omega (arith, length-unread v))))
    where
      go_on :
          find_crlf (unread b) ≡ length line
          → take (length line) (unread b) ≡ line
          → length (unread b) ≡ length line + 2 + length rest
          → drop (length line + 2) (unread b) ≡ rest
          → (b' : Buffer) × (retrieve_until (b.read_pos + length line + 2) b ≡ ok b')
            × (IsValid b'
                × (unread b' ≡ drop (b.read_pos + length line + 2 - b.read_pos) (unread b)))
          → (b' : Buffer) × IsValid b'
            × (unread b' ≡ rest)
            × (parse_loop sql model (suc n) r b w ≡ parse_loop sql model n r' b' w')
      go_on at cut total left (b', e, (v', u)) = (
        b',
        v',
        u ∙ ap (λ m. drop m (unread b)) (omega arith) ∙ left,
        parse_loop_round n r b w v (omega (arith, total)) open_state
            ∙ rw (
              at,
              cut,
              total,
              handled,
              ==-false (b.read_pos + length line) b.write_pos
                  (omega (arith, total, length-unread v)),
              e,
            ),
      )

  -- A round on a line that nothing closes is the last one.
  pub parse_loop_last :
      (n : ℕ) (r r' : Request Prob) (b : Buffer) (w w' : World sql model) (line : Bytes)
      → IsValid b
      → is_finished r.state ≡ false
      → has_char 13 line ≡ false
      → unread b ≡ line
      → 0 < length line
      → handle_line sql model line (length line) r w ≡ ok (Handled.parsed, r', w')
      → parse_loop sql model (suc n) r b w ≡ ok (ParseResult.done, r', b, w')
  unfolding after_line
  parse_loop_last n r r' b w w' line v open_state no_cr shape some_bytes handled =
      let k = length line in
      let total : length (unread b) ≡ k = ap length shape in
      let at : find_crlf (unread b) ≡ k = ap find_crlf shape ∙ find_crlf_missing line no_cr in
      let cut : take k (unread b) ≡ line = ap (take k) shape ∙ take_all k line (omega arith) in
      let end : (b.read_pos + k == b.write_pos) ≡ true =
        (==_iff (b.read_pos + k) b.write_pos).1 (omega (arith, length-unread v)) in
      parse_loop_round n r b w v (omega arith) open_state ∙ rw (at, cut, total, handled, end)
