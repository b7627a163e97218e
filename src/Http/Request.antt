-- ===== src/Http/Request.antt =====
-- code/http/http_request.cpp and http_request.h: the request parser, from `init` to `parse`. The
-- database and the classifier are parameters; lines and fields are those of the sibling modules.
pub mod Ends
pub mod Rounds
pub mod Message
pub mod Whole
pub mod Refused
pub mod Tests
use torch_server.Base.{
  ℕ, zero, suc, ◌+◌, Bool, true, false, ◌&&◌, ◌||◌, Bytes, codes, List, [], ◌∷◌, ◌++◌, length, take,
  Option, some, none, Run, ok, fault, uncaught, no_fuel, assert, or_fault, ◌>>=◌, ◌>>◌, ltb, leb,
  ◌==◌, not, bytes_eq, if◌then◌else◌, put, to_size, is_some,
}
use torch_server.Buffer.{Buffer, readable_bytes, read_at, retrieve_until}
use torch_server.SqlPool.{SqlPool}
use torch_server.Http.Base64.{base64_decode}
use torch_server.Http.Form.{Fields, parse_from_url_encoded}
use torch_server.Http.Lines.{
  match_request_line, match_header, parse_path, default_html_tag, contains, atoi, find_crlf,
}
use torch_server.Http.Verify.{Mysql, verify_user}

-- The neural network: labels with their probabilities for the bytes of an image, or an exception.
pub record Classifier : Type 1 where
  pub Prob : Type 0
  pub classify : Bytes → Option (List (Bytes × Prob))

pub data ParseState : Type 0 where
  request_line headers body finish : ParseState

-- What `parse` returns: 0, 1 or -1.
pub data ParseResult : Type 0 where
  done more bad : ParseResult

pub record Request (Prob : Type 0) : Type 0 where
  pub state : ParseState
  pub method : Bytes
  pub path : Bytes
  pub version : Bytes
  pub body : Bytes
  pub header : Fields
  pub post : Fields
  pub cls_probs : List (Bytes × Prob)

-- `operator[]` of the map: a missing key is stored with the empty string.
unfoldable pub entry : Bytes → Fields → Bytes × Fields
entry key m = elim (m key) [ some value ↦ (value, m) | none ↦ ([], put m key []) ]

module _ {Prob : Type 0} where
  unfoldable pub init : Request Prob → Request Prob
  init r = record r {
    method = [];
    version = [];
    body = [];
    path = codes "/404.html";
    state = ParseState.request_line;
    header = λ _. none;
    post = λ _. none;
  }

  -- The constructor, of which `init` fills in the rest.
  unfoldable pub new : Request Prob
  new = init (record {
    state = ParseState.request_line;
    method = [];
    path = [];
    version = [];
    body = [];
    header = λ _. none;
    post = λ _. none;
    cls_probs = [];
  })

  unfoldable pub is_keep_alive : Request Prob → Bool
  is_keep_alive r = elim (r.header (codes "Connection")) [
    | none ↦ false
    | some value ↦ bytes_eq value (codes "keep-alive") && bytes_eq r.version (codes "1.1")
  ]

  unfoldable pub get_post : Bytes → Request Prob → Run Bytes
  get_post key r = do
    assert (not (bytes_eq key []))
    ok (elim (r.post key) [ some value ↦ value | none ↦ [] ])

  unfoldable pub parse_path_of : Request Prob → Request Prob
  parse_path_of r = record r { path = parse_path r.path }

  unfoldable pub parse_request_line : Bytes → Request Prob → Bool × Request Prob
  parse_request_line line r =
      if ltb (length line) 256
      then elim (match_request_line line) [
        | none ↦ (false, r)
        | some (method, path, version) ↦ (
          true,
          record r { method = method; path = path; version = version; state = ParseState.headers },
        )
      ]
      else (false, r)

  unfoldable pub parse_header : Bytes → Request Prob → Request Prob
  parse_header line r = elim (match_header line) [
    | none ↦ record r { state = ParseState.body }
    | some (name, value) ↦ record r { header = put r.header name value }
  ]

  -- The case HEADERS of the loop, where `readable` bytes stand in the buffer.
  unfoldable pub header_line : Bytes → ℕ → Request Prob → Request Prob
  header_line line readable r =
      let r' = parse_header line r in
      if leb readable 2 then record r' { state = ParseState.finish } else r'

-- What one line does: the loop goes on, or `parse` returns.
pub data Handled : Type 0 where
  parsed refused unfinished : Handled

abbrev pub is_finished : ParseState → Bool
is_finished ParseState.finish = true
is_finished _ = false

module _ (sql : Mysql) (model : Classifier) where
  open sql use {Db}
  open model use {Prob, classify}

  -- The pool and the database, which a request shares with the other connections.
  abbrev pub World : Type 0
  World = SqlPool × Db

  unfoldable pub verify_page : Bool → Request Prob → World → Run (Request Prob × World)
  verify_page log_in r w = do
    let (username, post') = entry (codes "username") r.post
    let (pwd, post'') = entry (codes "password") post'
    (welcome, pool, db) ← verify_user sql username pwd log_in w
    ok (
      record r {
        post = post'';
        path = if welcome then codes "/welcome.html" else codes "/error.html";
      },
      (pool, db),
    )

  unfoldable pub classify_page : Request Prob → Run (Request Prob)
  classify_page r = do
    let (img_str, post') = entry (codes "img_str") r.post
    probs ← or_fault (classify (base64_decode img_str)) uncaught
    ok (record r { post = post'; cls_probs = probs })

  -- What `parse_post_` does with the fields.
  unfoldable pub dispatch_post : Request Prob → World → Run (Request Prob × World)
  dispatch_post r w = elim (default_html_tag r.path) [
    | some tag ↦ if tag == 0 || tag == 1 then verify_page (tag == 1) r w else ok (r, w)
    | none ↦
        if bytes_eq r.path (codes "/result.html")
        then (do r' ← classify_page r; ok (r', w))
        else ok (r, w)
  ]

  unfoldable pub parse_post : Request Prob → World → Run (Request Prob × World)
  parse_post r w =
      if bytes_eq r.method (codes "POST")
      then (do
        let (content_type, header') = entry (codes "Content-Type") r.header
        let r' = record r { header = header' }
        if contains (codes "application/x-www-form-urlencoded") content_type
            then (do
              post' ← parse_from_url_encoded r'.body r'.post
              dispatch_post (record r' { post = post' }) w)
            else ok (r', w))
      else ok (r, w)

  -- `false` when the body is shorter than the announced length, an `int` that is compared as a
  -- `size_t`.
  unfoldable pub parse_body : Bytes → Request Prob → World → Run (Bool × Request Prob × World)
  parse_body line r w =
      let (content_length, header') = entry (codes "Content-Length") r.header in
      let r' = record r { header = header' } in
      if length content_length == 0
      then ok (true, r', w)
      else (let r'' = record r' { body = r'.body ++ line } in
          if ltb (length r''.body) (to_size (atoi content_length)) then ok (false, r'', w) else (do
            (r''', w') ← parse_post r'' w
            ok (true, record r''' { state = ParseState.finish }, w')))

  -- The switch on the state.
  unfoldable pub handle_line :
      Bytes → ℕ → Request Prob → World → Run (Handled × Request Prob × World)
  handle_line line readable r w = elim r.state [
    | ParseState.request_line ↦
        let (success, r') = parse_request_line line r in
        ok (if success then (Handled.parsed, parse_path_of r', w) else (Handled.refused, r', w))
    | ParseState.headers ↦ ok (Handled.parsed, header_line line readable r, w)
    | ParseState.body ↦ parse_body line r w >>= λ (success, r', w').
        ok (if success then Handled.parsed else Handled.unfinished, r', w')
    | ParseState.finish ↦ ok (Handled.parsed, r, w)
  ]

  abbrev pub Parsed : Type 0
  Parsed = ParseResult × Request Prob × Buffer × World

  -- The end of a round, where the line ends at `line_end`; `next` is the rest of the loop.
  unfoldable pub after_line :
      (Request Prob → Buffer → World → Run Parsed)
      → ℕ
      → Buffer
      → Handled × Request Prob × World
      → Run Parsed
  after_line next line_end b (Handled.refused, r, w) = ok (ParseResult.bad, r, b, w)
  after_line next line_end b (Handled.unfinished, r, w) = do
    b' ← retrieve_until line_end b
    ok (ParseResult.more, r, b', w)
  after_line next line_end b (Handled.parsed, r, w) =
      if line_end == b.write_pos
      then ok (ParseResult.done, r, b, w)
      else (do b' ← retrieve_until (line_end + 2) b; next r b' w)

  unfoldable pub parse_loop : ℕ → Request Prob → Buffer → World → Run Parsed
  parse_loop zero r b w = fault no_fuel
  parse_loop (suc fuel) r b w =
      if readable_bytes b == 0 || is_finished r.state then ok (ParseResult.done, r, b, w) else (do
        text ← read_at b.buffer b.read_pos (readable_bytes b)
        let size = find_crlf text
        handled ← handle_line (take size text) (readable_bytes b) r w
        after_line (parse_loop fuel) (b.read_pos + size) b handled)

  -- A round that goes on takes at least two bytes, so the readable bytes bound the rounds.
  unfoldable pub parse : Request Prob → Buffer → World → Run Parsed
  parse r b w =
      if readable_bytes b == 0
      then ok (ParseResult.more, r, b, w)
      else parse_loop (suc (readable_bytes b)) r b w
