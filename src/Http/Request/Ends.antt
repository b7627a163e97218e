-- ===== src/Http/Request/Ends.antt =====
-- code/http/http_request.cpp: the loop of `parse` comes to an end, and takes bytes from the front.
use torch_server.Base.{
  ℕ, zero, suc, ◌+◌, ◌-◌, ◌≤◌, ◌<◌, ◌≡◌, refl, ◌∙◌, ap, Bool, not, ◌||◌, Bytes, codes, List, [],
  ◌∷◌, length, drop, Run, ok, fault, arith, Ends, ends, breaks, Ends-bind, Ends-map, Ends-if,
  Ends-assert, Ends-or_fault, Returns→Ends, waits, uncaught, inl, inr, is_some, ◌==◌, ltb,
  drop-drop, length-drop, ◌++◌, bytes_eq, returns, Bool-cases, to_size, Returns-bind, Option-cases,
  ◌⊎◌,
}
use torch_server.Buffer.{Buffer, readable_bytes}
use torch_server.Buffer.Valid.{IsValid, unread, readable_lem, length-unread}
use torch_server.Buffer.Taking.{retrieve_until_removes}
use torch_server.SqlPool.{SqlPool, Conn, get_conn, free_conn, raii_acquire, raii_release}
use torch_server.Http.Form.{Fields, Scan, ahead, scan_char, scan, parse_from_url_encoded}
use torch_server.Http.Base64.{base64_decode}
use torch_server.Http.Verify.{Mysql, verify_user, select_query}
use torch_server.Http.Request.Rounds.{parse_loop_round, parse_loop_stops}
use torch_server.Http.Lines.{atoi, contains, find_crlf, default_html_tag}
use torch_server.Http.Lines.Laws.{find_crlf_bound}
use torch_server.Http.Request.{
  Classifier, Request, is_finished, ParseState, Handled, World, Parsed, verify_page, classify_page,
  dispatch_post, parse_post, parse_body, handle_line, after_line, parse_loop, parse, entry,
}

-- The call comes to an end, whatever it returns.
abbrev Halts {ℓ} : {A : Type ℓ} → Run A → Type ℓ
Halts m = Ends (λ _. Unit {0}) m

ahead-Halts : (rest : Bytes) (k : ℕ) → Halts (ahead rest k)
unfolding ahead
ahead-Halts rest k = Ends-or_fault _ _ (ground arith)

scan_char-Halts : (c : ℕ) (rest : Bytes) (s : Scan) → Halts (scan_char c rest s)
unfolding scan_char
scan_char-Halts c rest s =
    Ends-if (c == b'=') (λ _. ends tt)
      λ _.
        Ends-if (c == b'%')
          (λ _. Ends-bind (ahead-Halts rest 0) λ _ _. Ends-bind (ahead-Halts rest 1) λ _ _. ends tt)
          λ _. Ends-if (c == b'&') (λ _. ends tt) λ _. ends tt

scan-Halts : (body : Bytes) (skip : ℕ) (s : Scan) → Halts (scan body skip s)
unfolding scan
scan-Halts [] skip s = ends tt
scan-Halts (c ∷ rest) zero s =
    Ends-bind (scan_char-Halts c rest s) λ (s', skip) _. scan-Halts rest skip s'
scan-Halts (c ∷ rest) (suc skip) s = scan-Halts rest skip s

parse_from_url_encoded-Halts :
    (body : Bytes) (post : Fields) → Halts (parse_from_url_encoded body post)
unfolding parse_from_url_encoded
parse_from_url_encoded-Halts body post =
    Ends-if (length body == 0) (λ _. ends tt) λ _. Ends-bind (scan-Halts body 0 _) λ _ _. ends tt

get_conn-Halts : (pool : SqlPool) → Halts (get_conn pool)
unfolding get_conn
get_conn-Halts pool = first pool.conn_queue
  where
    first :
        (queue : List Conn)
        → Halts (
            let r : Run (Conn × SqlPool) = elim queue [
              | [] ↦ fault waits
              | sql ∷ rest ↦ ok (sql, record pool { conn_queue = rest })
            ] in
            r)
    first [] = breaks waits (ground arith)
    first (sql ∷ rest) = ends tt

free_conn-Halts : (sql : Conn) (pool : SqlPool) → Halts (free_conn sql pool)
unfolding free_conn
free_conn-Halts sql pool =
    Ends-bind (Ends-assert {Post = λ _. Unit {0}} (is_some sql) tt) λ _ _. ends tt

module _ (sql : Mysql) (model : Classifier) where
  open sql use {Db}
  open model use {Prob, classify}

  verify_user-Halts :
      (username pwd : Bytes) (log_in : Bool) (pool : SqlPool) (db : Db)
      → Halts (verify_user sql username pwd log_in (pool, db))
  unfolding verify_user raii_acquire raii_release
  verify_user-Halts username pwd log_in pool db =
      Ends-if (length username == 0 || length pwd == 0) (λ _. ends tt)
        λ _. Ends-bind (get_conn-Halts pool) λ (conn, taken) _.
          Ends-bind
            (Ends-if {Post = λ _. Unit {0}} (is_some conn) (λ _. free_conn-Halts conn taken)
              λ _. ends tt)
            λ returned _. Ends-bind (Ends-assert {Post = λ _. Unit {0}} (is_some conn) tt) λ _ _.
              Ends-if (not (sql.query (select_query username) db).0) (λ _. ends tt)
                λ _. Ends-bind (free_conn-Halts conn returned) λ _ _. ends tt

  classify_page-Halts : (r : Request Prob) → Halts (classify_page sql model r)
  unfolding classify_page
  classify_page-Halts r =
      Ends-bind
        (Ends-or_fault (classify (base64_decode (entry (codes "img_str") r.post).0)) uncaught
          (ground arith))
        λ _ _. ends tt

  dispatch_post-Halts :
      (r : Request Prob) (w : World sql model) → Halts (dispatch_post sql model r w)
  unfolding dispatch_post verify_page
  dispatch_post-Halts r (pool, db) = elim (Option-cases (default_html_tag r.path)) [
    | inl e ↦
        rw (dispatch_post, e)
          (Ends-if (bytes_eq r.path (codes "/result.html"))
            (λ _. Ends-bind (classify_page-Halts r) λ _ _. ends tt) λ _. ends tt)
    | inr (tag, e) ↦
        rw (dispatch_post, e)
          (Ends-if (tag == 0 || tag == 1)
            (λ _. Ends-bind (verify_user-Halts _ _ (tag == 1) pool db) λ _ _. ends tt) λ _. ends tt)
  ]

  parse_post-Halts : (r : Request Prob) (w : World sql model) → Halts (parse_post sql model r w)
  unfolding parse_post
  parse_post-Halts r w =
      Ends-if (bytes_eq r.method (codes "POST"))
        (λ _.
          Ends-if
            (contains (codes "application/x-www-form-urlencoded")
              (entry (codes "Content-Type") r.header).0)
            (λ _.
              Ends-bind (parse_from_url_encoded-Halts r.body r.post) λ _ _. dispatch_post-Halts _ w)
            λ _. ends tt)
        λ _. ends tt

  parse_body-Halts :
      (line : Bytes) (r : Request Prob) (w : World sql model)
      → Halts (parse_body sql model line r w)
  unfolding parse_body
  parse_body-Halts line r w =
      Ends-if (length (entry (codes "Content-Length") r.header).0 == 0) (λ _. ends tt)
        λ _.
          Ends-if
            (ltb (length (r.body ++ line))
              (to_size (atoi (entry (codes "Content-Length") r.header).0)))
            (λ _. ends tt) λ _. Ends-bind (parse_post-Halts _ w) λ _ _. ends tt

  handle_line-Halts :
      (line : Bytes) (readable : ℕ) (r : Request Prob) (w : World sql model)
      → Halts (handle_line sql model line readable r w)
  unfolding handle_line
  handle_line-Halts line readable r w = by_state r.state refl
    where
      by_state : (s : ParseState) → r.state ≡ s → Halts (handle_line sql model line readable r w)
      by_state ParseState.request_line e = rw (handle_line, e) (ends tt)
      by_state ParseState.headers e = rw (handle_line, e) (ends tt)
      by_state ParseState.body e =
          rw (handle_line, e) (Ends-bind (parse_body-Halts line r w) λ _ _. ends tt)
      by_state ParseState.finish e = rw (handle_line, e) (ends tt)

  -- What the loop leaves in the buffer: an end of what stood there.
  abbrev pub Consumed : Buffer → Parsed sql model → Type 0
  Consumed b (result, r, b', w) = IsValid b' × ((k : ℕ) × (unread b' ≡ drop k (unread b)))

  untouched : {b : Buffer} → IsValid b → IsValid b × ((k : ℕ) × (unread b ≡ drop k (unread b)))
  untouched v = (v, (0, refl))

  after_line-Ends :
      (n : ℕ) (b : Buffer) (size : ℕ) (handled : Handled × Request Prob × World sql model)
      (next : Request Prob → Buffer → World sql model → Run (Parsed sql model))
      → IsValid b
      → (size ≡ length (unread b)) ⊎ (size + 2 ≤ length (unread b))
      → length (unread b) < suc n
      → ((r : Request Prob) (b' : Buffer) (w : World sql model)
          → IsValid b'
          → length (unread b') < n
          → Ends (Consumed b') (next r b' w))
      → Ends (Consumed b) (after_line sql model next (b.read_pos + size) b handled)
  unfolding after_line
  after_line-Ends n b size (Handled.refused, r, w) next v bound fuel h = ends (untouched v)
  after_line-Ends n b size (Handled.unfinished, r, w) next v bound fuel h = Returns→Ends (
      Returns-bind
        (retrieve_until_removes b v (b.read_pos + size) (omega arith)
          (omega (arith, bound, length-unread v)))
        λ b' (v', u). returns (v', (_, u)))
  after_line-Ends n b size (Handled.parsed, r, w) next v bound fuel h =
      Ends-if (b.read_pos + size == b.write_pos) (λ _. ends (untouched v))
        λ e.
          let inside : size + 2 ≤ length (unread b) =
            ground (arith, bound, length-unread v, e, v.ordered) in
          Ends-bind
            (Returns→Ends (
              retrieve_until_removes b v (b.read_pos + size + 2) (omega arith)
                (omega (arith, inside, length-unread v))))
            λ b' (v', u).
              let left =
                ap length u ∙ length-drop (b.read_pos + size + 2 - b.read_pos) (unread b) in
              Ends-map (h r b' w v' (omega (arith, left, inside))) λ (_, _, b'', _) (v'', (k, u')).
                (
                  v'',
                  (
                    _,
                    u'
                        ∙ ap (drop k) u
                        ∙ drop-drop k (b.read_pos + size + 2 - b.read_pos) (unread b),
                  ),
                )

  parse_loop-Ends :
      (n : ℕ) (r : Request Prob) (b : Buffer) (w : World sql model)
      → IsValid b
      → length (unread b) < n
      → Ends (Consumed b) (parse_loop sql model n r b w)
  parse_loop-Ends zero r b w v h = absurd (omega arith)
  parse_loop-Ends (suc n) r b w v h =
      elim (Bool-cases (length (unread b) == 0 || is_finished r.state)) [
        | inl stop ↦ rw (parse_loop_stops sql model n r b w v stop) (ends (untouched v))
        | inr on ↦ rw (parse_loop_round sql model n r b w v (ground arith) (ground arith)) (
            Ends-bind (handle_line-Halts _ _ r w) λ handled _.
              after_line-Ends n b (find_crlf (unread b)) handled (parse_loop sql model n) v
                (find_crlf_bound (unread b)) h (parse_loop-Ends n))
      ]

  -- On every valid buffer `parse` comes to an end: its rounds never run out before the loop does, so
  -- it returns, or stops in a fault of the program's own. When it returns, the buffer is valid and
  -- holds an end of what it held.
  pub parse-Ends :
      (r : Request Prob) (b : Buffer) (w : World sql model)
      → IsValid b
      → Ends (Consumed b) (parse sql model r b w)
  unfolding parse
  parse-Ends r b w v =
      Ends-if (readable_bytes b == 0) (λ _. ends (untouched v))
        λ _.
          parse_loop-Ends (suc (readable_bytes b)) r b w v
            (omega (arith, readable_lem v, length-unread v))
