-- ===== src/Http/Request/Whole.antt =====
-- code/http/http_request.cpp: what `parse` makes of a whole request that stands in the buffer.
use torch_server.Base.{
  ℕ, suc, ◌+◌, ◌-◌, ◌≤◌, ◌<◌, ◌≡◌, refl, ◌∙◌, ap, Bool, true, false, Bytes, List, [], ◌∷◌, ◌++◌,
  append_assoc, length, length-append, some, ok, arith, leb, leb-false, lt→ltb, ==-false,
  if◌then◌else◌, put,
}
use torch_server.Buffer.{Buffer, readable_bytes}
use torch_server.Buffer.Valid.{IsValid, unread, readable_lem, length-unread}
use torch_server.Http.Verify.{Mysql}
use torch_server.Http.Lines.{match_request_line, parse_path, has_char}
use torch_server.Http.Lines.Laws.{
  match_request_line-append, match_header-append, match_header_colonless,
}
use torch_server.Http.Request.{
  Classifier, Request, ParseState, ParseResult, Handled, World, is_finished, handle_line,
  parse_request_line, parse_path_of, parse_header, header_line, parse_body, parse_loop, parse,
}
use torch_server.Http.Request.Rounds.{parse_loop_stops, parse_loop_line, parse_loop_last}
use torch_server.Http.Request.Message.{
  Head, request_line, render_field, render_fields, render, AreFields, IsHead, rounds, rounds_lem,
  store_fields, state_before, state_before_lem, has_char-append, fields_bound,
}

module _ (sql : Mysql) (model : Classifier) where
  open model use {Prob}

  pub handle_line_request :
      (h : Head) (readable : ℕ) (r : Request Prob) (w : World sql model)
      → IsHead h
      → r.state ≡ ParseState.request_line
      → handle_line sql model (request_line h) readable r w
        ≡ ok (
          Handled.parsed,
          record r {
            state = ParseState.headers;
            method = h.method;
            path = parse_path h.path;
            version = h.version;
          },
          w,
        )
  unfolding handle_line parse_request_line parse_path_of
  handle_line_request h readable r w v e = rw (e, lt→ltb _ _ v.short, matched)
    where
      matched : match_request_line (request_line h) ≡ some (h.method, h.path, h.version)
      matched =
          unfold request_line in
          match_request_line-append h.method h.path h.version v.method_word v.path_word
            v.version_word

  handle_line_field :
      (name value : Bytes) (readable : ℕ) (r : Request Prob) (w : World sql model)
      → r.state ≡ ParseState.headers
      → has_char b':' name ≡ false
      → has_char 10 value ≡ false
      → has_char 13 value ≡ false
      → 2 < readable
      → handle_line sql model (render_field (name, value)) readable r w
        ≡ ok (Handled.parsed, record r { header = put r.header name value }, w)
  unfolding handle_line header_line parse_header render_field
  handle_line_field name value readable r w e hn hl hr long = rw (
    e,
    header_line,
    leb-false readable 2 long,
    parse_header,
    match_header-append name value hn hl hr,
  )

  state_if :
      (b : Bool) (r : Request Prob)
      → (if b then record r { state = ParseState.finish } else record r { state = ParseState.body })
        ≡ record r { state = if b then ParseState.finish else ParseState.body }
  state_if true r = refl
  state_if false r = refl

  -- The blank line: the end of the request, or the way to its body.
  handle_line_blank :
      (readable : ℕ) (r : Request Prob) (w : World sql model)
      → r.state ≡ ParseState.headers
      → handle_line sql model [] readable r w
        ≡ ok (
          Handled.parsed,
          record r { state = if leb readable 2 then ParseState.finish else ParseState.body },
          w,
        )
  unfolding handle_line header_line parse_header
  handle_line_blank readable r w e =
      rw (e, header_line, parse_header, match_header_colonless [] (unfold has_char in refl))
        (ap (λ r'. ok (Handled.parsed, r', w)) (state_if (leb readable 2) r))

  -- The rounds on the fields.
  parse_loop_fields :
      (fs : List (Bytes × Bytes)) (n : ℕ) (r : Request Prob) (b : Buffer) (w : World sql model)
      (rest : Bytes)
      → IsValid b
      → r.state ≡ ParseState.headers
      → AreFields fs
      → unread b ≡ render_fields fs ++ rest
      → (b' : Buffer) × IsValid b'
        × (unread b' ≡ rest)
        × (parse_loop sql model (rounds fs n) r b w
            ≡ parse_loop sql model n (record r { header = store_fields fs r.header }) b' w)
  unfolding render_fields
  parse_loop_fields [] n r b w rest v e ok_fields shape = (b, v, shape, refl)
  parse_loop_fields ((name, value) ∷ fs) n r b w rest v e ok_fields shape =
      let line = render_field (name, value) in
      let (hn, cn, hl, hr, more_fields) = ok_fields in
      let (b', v', u, first) =
        parse_loop_line sql model (rounds fs n) r (record r { header = put r.header name value }) b
          w w line (render_fields fs ++ rest) v (ap is_finished e) (no_cr cn hr)
          (shape ∙ append_assoc line (13 ∷ 10 ∷ render_fields fs) rest)
          (handle_line_field name value _ r w e hn hl hr (ground (arith, long))) in
      let (b'', v'', u', others) =
        parse_loop_fields fs n (record r { header = put r.header name value }) b' w rest v' e
          more_fields u in
      (b'', v'', u', first ∙ others)
    where
      no_cr :
          has_char 13 name ≡ false
          → has_char 13 value ≡ false
          → has_char 13 (render_field (name, value)) ≡ false
      no_cr cn hr =
          unfold render_field in
          has_char-append 13 name (b':' ∷ b' ' ∷ value) cn (unfold has_char in hr)

      long : 1 ≤ length (render_field (name, value))
      long = unfold render_field in omega (arith, length-append name (b':' ∷ b' ' ∷ value))

  -- What stands in the request when the loop comes to the body.
  abbrev pub with_head : Head → ParseState → Request Prob → Request Prob
  with_head h s r = record r {
    state = s;
    method = h.method;
    path = parse_path h.path;
    version = h.version;
    header = store_fields h.fields r.header;
  }

  -- The rounds on the head.
  parse_loop_head :
      (h : Head) (body : Bytes) (n : ℕ) (r : Request Prob) (b : Buffer) (w : World sql model)
      → IsHead h
      → IsValid b
      → r.state ≡ ParseState.request_line
      → unread b ≡ render h body
      → (b' : Buffer) × IsValid b'
        × (unread b' ≡ body)
        × (parse_loop sql model (suc (rounds h.fields (suc n))) r b w
            ≡ parse_loop sql model n (with_head h (state_before body) r) b' w)
  unfolding render
  parse_loop_head h body n r b w v valid e shape =
      let r₁ = with_head (record h { fields = [] }) ParseState.headers r in
      let r₂ = with_head h ParseState.headers r in
      let (b₁, v₁, u₁, first) =
        parse_loop_line sql model (rounds h.fields (suc n)) r r₁ b w w (request_line h)
          (render_fields h.fields ++ 13 ∷ 10 ∷ body) valid (ap is_finished e) v.one_line shape
          (handle_line_request h _ r w v e) in
      let (b₂, v₂, u₂, fields) =
        parse_loop_fields h.fields (suc n) r₁ b₁ w (13 ∷ 10 ∷ body) v₁ refl v.fields u₁ in
      let (b₃, v₃, u₃, blank) =
        parse_loop_line sql model n r₂ _ b₂ w w [] body v₂ refl (unfold has_char in refl) u₂
          (handle_line_blank (0 + 2 + length body) r₂ w refl) in
      (
        b₃,
        v₃,
        u₃,
        first
            ∙ fields
            ∙ blank
            ∙ ap (λ s. parse_loop sql model n (with_head h s r) b₃ w) (state_before_lem body),
      )

  -- The rounds that `parse` allows are enough for the whole request.
  parse-rounds :
      (h : Head) (body : Bytes) (r : Request Prob) (b : Buffer) (w : World sql model)
      → IsValid b
      → unread b ≡ render h body
      → (n : ℕ) × (parse sql model r b w
          ≡ parse_loop sql model (suc (rounds h.fields (suc (suc n)))) r b w)
  unfolding parse render
  parse-rounds h body r b w v shape = (
    n,
    rw (==-false (readable_bytes b) 0 (omega (arith, enough))) (
        ap (λ m. parse_loop sql model (suc m) r b w)
          (omega (arith, rounds_lem h.fields (suc (suc n)), enough))),
  )
    where
      tail : Bytes
      tail = render_fields h.fields ++ 13 ∷ 10 ∷ body

      n : ℕ
      n = readable_bytes b - (length h.fields + 2)

      enough : length h.fields + 2 ≤ readable_bytes b
      enough = omega (
        arith,
        readable_lem v,
        length-unread v,
        ap length shape,
        length-append (request_line h) (13 ∷ 10 ∷ tail),
        length-append (render_fields h.fields) (13 ∷ 10 ∷ body),
        fields_bound h.fields,
      )

  -- A buffer that holds exactly a well-formed head, with the blank line and nothing behind it, is
  -- parsed to the end by a parser at its start, and used up. The request line is taken apart, the
  -- path is completed, the fields are stored in order, and the body stays as it was, whatever
  -- `Content-Length` says.
  pub parse-render_head :
      (h : Head) (r : Request Prob) (b : Buffer) (w : World sql model)
      → IsHead h
      → IsValid b
      → r.state ≡ ParseState.request_line
      → unread b ≡ render h []
      → (b' : Buffer) × IsValid b'
        × (unread b' ≡ [])
        × (parse sql model r b w ≡ ok (ParseResult.done, with_head h ParseState.finish r, b', w))
  parse-render_head h r b w v valid e shape =
      let (n, opened) = parse-rounds h [] r b w valid shape in
      let (b', v', u, run) = parse_loop_head h [] (suc n) r b w v valid e shape in
      (b', v', u, opened ∙ run ∙ parse_loop_stops sql model n _ b' w v' (ground (arith, u)))

  -- A buffer that holds exactly a well-formed head and a body that is not empty and has no "\r" is
  -- parsed to the end by a parser at its start, when the body handler accepts the whole body: the
  -- request is the handler's, and the body stays unread in the buffer.
  pub parse-render_body :
      (h : Head) (c : ℕ) (cs : Bytes) (r r' : Request Prob) (b : Buffer) (w w' : World sql model)
      → IsHead h
      → IsValid b
      → r.state ≡ ParseState.request_line
      → has_char 13 (c ∷ cs) ≡ false
      → unread b ≡ render h (c ∷ cs)
      → parse_body sql model (c ∷ cs) (with_head h ParseState.body r) w ≡ ok (true, r', w')
      → (b' : Buffer) × IsValid b'
        × (unread b' ≡ c ∷ cs)
        × (parse sql model r b w ≡ ok (ParseResult.done, r', b', w'))
  unfolding handle_line
  parse-render_body h c cs r r' b w w' v valid e no_cr shape handled =
      let (n, opened) = parse-rounds h (c ∷ cs) r b w valid shape in
      let (b', v', u, run) = parse_loop_head h (c ∷ cs) (suc n) r b w v valid e shape in
      (
        b',
        v',
        u,
        opened
            ∙ run
            ∙ parse_loop_last sql model n (with_head h ParseState.body r) r' b' w w' (c ∷ cs) v'
                refl no_cr u (omega arith) (rw handled),
      )
