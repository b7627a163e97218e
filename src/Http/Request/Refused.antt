-- ===== src/Http/Request/Refused.antt =====
-- code/http/http_request.cpp: what `parse` makes of a bad request line, of one that has not arrived
-- as a whole, and of a body that is too short.
use torch_server.Base.{
  ℕ, ◌≤◌, ◌<◌, ◌≡◌, ap, Bytes, [], ◌∷◌, ◌++◌, length, take, none, ok, arith, ltb, ==-false, ◌⊎◌,
  inl, inr, ltb-false, Bool-cases, codes, length-append,
}
use torch_server.Buffer.{Buffer, readable_bytes}
use torch_server.Buffer.Valid.{IsValid, unread, readable_lem, length-unread}
use torch_server.Http.Verify.{Mysql}
use torch_server.Http.Lines.{match_request_line, find_crlf}
use torch_server.Http.Request.{
  Classifier, Request, ParseState, ParseResult, Handled, World, is_finished, handle_line,
  parse_request_line, after_line, parse,
}
use torch_server.Http.Request.Rounds.{parse_loop_round, parse_loop_last}
use torch_server.Http.Request.Message.{Head, IsHead, request_line}
use torch_server.Http.Request.Whole.{with_head, handle_line_request}

-- The bytes before the first "\r\n", or all of them.
abbrev pub first_line : Bytes → Bytes
first_line s = take (find_crlf s) s

module _ (sql : Mysql) (model : Classifier) where
  open model use {Prob}

  handle_line_refused :
      (line : Bytes) (readable : ℕ) (r : Request Prob) (w : World sql model)
      → r.state ≡ ParseState.request_line
      → (256 ≤ length line) ⊎ (match_request_line line ≡ none)
      → handle_line sql model line readable r w ≡ ok (Handled.refused, r, w)
  unfolding handle_line parse_request_line
  handle_line_refused line readable r w e (inl long) = rw (e, ltb-false (length line) 256 long)
  handle_line_refused line readable r w e (inr unmatched) =
      elim (Bool-cases (ltb (length line) 256)) [
        | inl short ↦ rw (e, parse_request_line, short, unmatched)
        | inr long ↦ rw (e, parse_request_line, long)
      ]

  -- A parser at its start refuses a first line that is too long or that the expression does not
  -- match: it returns -1, and neither the request nor the buffer nor the database changes.
  pub parse_refuses :
      (r : Request Prob) (b : Buffer) (w : World sql model)
      → IsValid b
      → r.state ≡ ParseState.request_line
      → 0 < length (unread b)
      → (256 ≤ length (first_line (unread b))) ⊎ (match_request_line (first_line (unread b)) ≡ none)
      → parse sql model r b w ≡ ok (ParseResult.bad, r, b, w)
  unfolding parse after_line
  parse_refuses r b w v e some_bytes wrong = rw (
    ==-false (readable_bytes b) 0 (omega (arith, readable_lem v, length-unread v)),
    parse_loop_round sql model (readable_bytes b) r b w v some_bytes (ap is_finished e),
    handle_line_refused (first_line (unread b)) (length (unread b)) r w e wrong,
  )

  -- A request line that arrives alone, without its "\r\n", is taken for a whole request by a parser
  -- at its start: `parse` returns 0, and leaves the line in the buffer.
  pub parse_cut_off :
      (h : Head) (r : Request Prob) (b : Buffer) (w : World sql model)
      → IsHead h
      → IsValid b
      → r.state ≡ ParseState.request_line
      → unread b ≡ request_line h
      → parse sql model r b w
        ≡ ok (
          ParseResult.done,
          with_head sql model (record h { fields = [] }) ParseState.headers r,
          b,
          w,
        )
  unfolding parse
  parse_cut_off h r b w v valid e shape =
      rw
        (==-false (readable_bytes b) 0
          (omega (arith, readable_lem valid, length-unread valid, ap length shape, positive)))
        (parse_loop_last sql model (readable_bytes b) r
          (with_head sql model (record h { fields = [] }) ParseState.headers r) b w w
          (request_line h) valid (ap is_finished e) v.one_line shape positive
          (handle_line_request sql model h (length (request_line h)) r w v e))
    where
      positive : 0 < length (request_line h)
      positive =
          unfold request_line in
          omega
            (arith, length-append h.method (b' ' ∷ (h.path ++ b' ' ∷ (codes "HTTP/" ++ h.version))))
