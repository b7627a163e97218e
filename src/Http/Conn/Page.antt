-- ===== src/Http/Conn/Page.antt =====
-- code/http/http_conn.cpp, `process`: the answer to a request for a page.
use torch_server.Base.{
  ℕ, ◌+◌, ◌-◌, ◌^◌, ◌≤◌, ◌<◌, ◌≡◌, refl, ◌∙◌, sym, ap, subst, Bool, true, false, Bytes, codes, List,
  [], ◌++◌, length, length-append, take, take_all, some, none, arith, Returns, returns,
  Returns-bind, bytes_eq, inr, lt→ltb, ◌&&◌,
}
use torch_server.Buffer.{Buffer, max_size}
use torch_server.Buffer.Valid.{IsValid, unread, readable_lem, length-unread}
use torch_server.Http.Verify.{Mysql}
use torch_server.Http.Lines.{parse_path}
use torch_server.Http.Request.{Classifier, Request, World, ParseState, is_keep_alive}
use torch_server.Http.Request.Message.{Head, IsHead, render, store_fields}
use torch_server.Http.Request.Whole.{with_head, parse-render_head}
use torch_server.Http.Response.{
  FileStat, Files, Response, no_stat, content_length, status_of, code_status, code_path,
}
use torch_server.Http.Response as HttpResponse
use torch_server.Http.Response.Text.{HasPlace, state_line, header_text}
use torch_server.Http.Response.Make.{is_minus_one, choose_code, error_html, make_response}
use torch_server.Http.Response.Laws.{make_file_sends}
use torch_server.Http.Conn.{Conn, set_vectors, answer, process}
use torch_server.Http.Conn.Write.{IsReady, pending}

-- The head of the answer to a request for a page of `size` bytes.
abbrev pub page_head : Bool → Bytes → ℕ → Bytes
page_head keep_alive path size =
    (state_line (some 200) ++ header_text keep_alive path) ++ content_length size

-- What `stat` finds for a file of this size that others may read.
abbrev pub file_stat : ℕ → FileStat
file_stat size = record { is_dir = false; others_read = true; size = size }

-- A page that others may read, and that is mapped as a whole.
pub record IsPage (files : Files) (src_dir path mapped : Bytes) : Type 0 where
  pub placed : bytes_eq src_dir [] ≡ false
  pub named : bytes_eq path [] ≡ false
  pub other : bytes_eq path (codes "/result.html") ≡ false
  pub status : files.stat (src_dir ++ path) ≡ some (file_stat (length mapped))
  pub opened : files.open_file (src_dir ++ path) ≡ true
  pub content : files.mmap (src_dir ++ path) (length mapped) ≡ some mapped
  pub plain : is_minus_one mapped ≡ false
  pub filled : 0 < length mapped

module _ (files : Files) {Prob : Type 0} (prob_text : Prob → Bytes) (src_dir path mapped : Bytes)
    (p : IsPage files src_dir path mapped) where
  -- What `init` makes of the response to a good request, and what `make_response` then makes of it.
  abbrev asked : Bool → List (Bytes × Prob) → Response Prob
  asked keep_alive cls_probs = record {
    code = some 200;
    is_keep_alive = keep_alive;
    path = path;
    src_dir = src_dir;
    mm_file = none;
    mm_file_stat = no_stat;
    cls_probs = cls_probs;
  }

  abbrev mapping : Bool → List (Bytes × Prob) → Response Prob
  mapping keep_alive cls_probs = record (asked keep_alive cls_probs) {
    mm_file_stat = file_stat (length mapped);
    mm_file = some mapped;
  }

  make_response_page :
      (keep_alive : Bool) (cls_probs : List (Bytes × Prob)) (b : Buffer)
      → HasPlace (length (page_head keep_alive path (length mapped))) b
      → Returns
          (λ (r', b').
            (r' ≡ mapping keep_alive cls_probs)
            × (unread b' ≡ unread b ++ page_head keep_alive path (length mapped))
            × IsValid b')
          (make_response files prob_text (asked keep_alive cls_probs) b)
  unfolding make_response choose_code error_html code_path status_of code_status
  make_response_page keep_alive cls_probs b h =
      let r = record (asked keep_alive cls_probs) { mm_file_stat = file_stat (length mapped) } in
      let size =
        length-append (state_line (some 200) ++ header_text keep_alive path)
          (content_length (length mapped)) in
      rw (p.other, choose_code, p.status)
        (make_file_sends files prob_text r b mapped
          (record { valid = h.valid; place = omega (arith, h.place, size) }) p.opened p.content
          p.plain)

  -- The vectors over an answer with a mapped file.
  set_vectors_page :
      (c : Conn Prob) (keep_alive : Bool) (cls_probs : List (Bytes × Prob)) (b : Buffer)
      (text : Bytes)
      → IsValid b
      → unread b ≡ text
      → length text + length mapped < 2 ^ 31
      → let c' =
          set_vectors (record c { response = mapping keep_alive cls_probs; write_buff = b }) in
        IsReady c'
        × (pending c' ≡ text ++ mapped)
        × (c'.request ≡ c.request)
        × (c'.read_buff ≡ c.read_buff)
  unfolding set_vectors
  set_vectors_page c keep_alive cls_probs b text v u small =
      let size : b.write_pos - b.read_pos ≡ length text =
        omega (arith, length-unread v, ap length u) in
      rw (readable_lem v, lt→ltb 0 (length mapped) p.filled)
        (
          record {
            valid = v;
            first = inr (refl, refl);
            second = omega arith;
            small = omega (arith, small, size);
          },
          ap (λ t. t ++ take (length mapped) mapped) u
              ∙ ap (λ t. text ++ t) (take_all (length mapped) mapped (omega arith)),
          refl,
          refl,
        )

-- A connection that waits for a request, with nothing in its buffers.
pub record IsIdle {Prob : Type 0} (c : Conn Prob) : Type 0 where
  pub reading : IsValid c.read_buff
  pub read_start : c.read_buff.write_pos ≡ 0
  pub writing : IsValid c.write_buff
  pub write_start : c.write_buff.write_pos ≡ 0
  pub state : c.request.state ≡ ParseState.request_line
  pub header : c.request.header ≡ (λ k. none)

-- Whether the connection is to stay open, as the head of the request has it.
unfoldable pub keeps_alive : Head → Bool
keeps_alive h = elim (store_fields h.fields (λ k. none) (codes "Connection")) [
  | none ↦ false
  | some value ↦ bytes_eq value (codes "keep-alive") && bytes_eq h.version (codes "1.1")
]

-- The whole answer.
abbrev pub page_answer : Head → Bytes → Bytes
page_answer h mapped = page_head (keeps_alive h) (parse_path h.path) (length mapped) ++ mapped

-- The connection holds the whole answer to the request for a page.
pub record IsAnswered {Prob : Type 0} (h : Head) (mapped : Bytes) (c : Conn Prob) : Type 0 where
  pub ready : IsReady c
  pub answer : pending c ≡ page_answer h mapped
  pub keeps : is_keep_alive c.request ≡ keeps_alive h
  pub reading : IsValid c.read_buff

module _ (sql : Mysql) (model : Classifier) (files : Files) (prob_text : model.Prob → Bytes)
    (src_dir : Bytes) (h : Head) (mapped : Bytes)
    (p : IsPage files src_dir (parse_path h.path) mapped) where
  open model use {Prob}

  is_keep_alive-with_head :
      (r : Request Prob)
      → r.header ≡ (λ k. none)
      → is_keep_alive (with_head sql model h ParseState.finish r) ≡ keeps_alive h
  unfolding is_keep_alive keeps_alive
  is_keep_alive-with_head r e = rw e

  answer_page :
      (c : Conn Prob) (b : Buffer)
      → IsIdle c
      → IsValid b
      → HasPlace (length (page_answer h mapped)) c.write_buff
      → unread c.write_buff ≡ []
      → length (page_answer h mapped) < 2 ^ 31
      → let r = with_head sql model h ParseState.finish c.request in
        Returns (IsAnswered h mapped) (
          answer sql model files prob_text src_dir
            (keeps_alive h)
            (some 200)
            (record c { request = r; read_buff = b }))
  unfolding answer HttpResponse.init
  answer_page c b idle reading place empty small =
      let c₁ = record c {
        request = with_head sql model h ParseState.finish c.request;
        read_buff = b;
      } in
      let text = page_head (keeps_alive h) (parse_path h.path) (length mapped) in
      let total = length-append text mapped in
      rw (p.placed, p.named)
        (Returns-bind
          (make_response_page files prob_text src_dir (parse_path h.path) mapped p (keeps_alive h)
            c.request.cls_probs c.write_buff
            (record { valid = place.valid; place = omega (arith, place.place, total) }))
          λ (resp, buff) (made, u, valid).
            let (ready, sends, same_request, same_buff) =
              set_vectors_page files prob_text src_dir (parse_path h.path) mapped p c₁
                (keeps_alive h) c.request.cls_probs buff text valid (u ∙ ap (λ t. t ++ text) empty)
                (omega (arith, total, small)) in
            rw made (
              returns (record {
                ready = ready;
                answer = sends;
                keeps =
                    ap is_keep_alive same_request ∙ is_keep_alive-with_head c.request idle.header;
                reading = subst IsValid (sym same_buff) reading;
              })))

  -- A connection that waited, with the request in its buffer.
  pub process_page :
      (c : Conn Prob) (b : Buffer) (w : World sql model)
      → IsHead h
      → IsIdle c
      → IsValid b
      → unread b ≡ render h []
      → c.write_buff.write_pos + length (page_answer h mapped) + 1 ≤ max_size
      → length (page_answer h mapped) < 2 ^ 31
      → Returns
          (λ (done, c', w'). (done ≡ true) × IsAnswered h mapped c' × (w' ≡ w))
          (process sql model files prob_text src_dir (record c { read_buff = b }) w)
  unfolding process
  process_page c b w v idle valid shape place small =
      let (b', v', u, run) = parse-render_head sql model h c.request b w v valid idle.state shape in
      let keeps = is_keep_alive-with_head c.request idle.header in
      rw (run, keeps)
        (Returns-bind
          (answer_page c b' idle v' (record { valid = idle.writing; place = place })
            (ground (arith, idle.write_start, idle.writing.ordered)) small)
          λ c' a. returns (refl, a, refl))
