-- ===== src/Http/Response/Text.antt =====
-- code/http/http_response.cpp: appending several texts to a valid buffer, and the texts of the status
-- line and the header.
use torch_server.Base.{
  ℕ, ◌+◌, ◌≤◌, ◌≡◌, refl, ◌∙◌, ap, Bool, true, false, Bytes, codes, ◌++◌, append_assoc, length,
  length-append, Option, some, ◌>>=◌, arith, Returns, returns, Returns-bind, Returns-map,
  if◌then◌else◌, bytes_eq,
}
use torch_server.Buffer.{Buffer, append, max_size}
use torch_server.Buffer.Valid.{IsValid, unread}
use torch_server.Buffer.Contents.{append_adds}
use torch_server.Http.Response.{
  Response, to_string, status_of, get_file_type, content_length, error_body, add_state_line,
  add_header, error_content,
}

-- A valid buffer whose array may still grow by this many bytes.
pub record HasPlace (n : ℕ) (b : Buffer) : Type 0 where
  pub valid : IsValid b
  pub place : b.write_pos + n + 1 ≤ max_size

-- The outcome of a run that appends `text`, with `n` bytes of the place left.
pub record Extended (b : Buffer) (text : Bytes) (n : ℕ) (b' : Buffer) : Type 0 where
  pub contents : unread b' ≡ unread b ++ text
  pub left : HasPlace n b'

pub append-Extended :
    (b : Buffer) (text : Bytes) (n : ℕ)
    → HasPlace (length text + n) b
    → Returns (Extended b text n) (append text b)
append-Extended b text n h =
    Returns-map (append_adds b h.valid text (omega (arith, h.place))) λ b' a. record {
      contents = a.contents;
      left = record { valid = a.valid; place = omega (arith, a.bound, h.place) };
    }

pub Extended-chain :
    {b b' b'' : Buffer} {s t : Bytes} {m n : ℕ}
    → Extended b s m b'
    → Extended b' t n b''
    → Extended b (s ++ t) n b''
Extended-chain {b} {s = s} {t} p q = record {
  contents = q.contents ∙ ap (λ u. u ++ t) p.contents ∙ append_assoc (unread b) s t;
  left = q.left;
}

-- Two texts, one after the other.
pub append_two :
    (b : Buffer) (s t : Bytes) (n : ℕ)
    → HasPlace (length s + length t + n) b
    → Returns (Extended b (s ++ t) n) (append s b >>= append t)
append_two b s t n h =
    Returns-bind
      (append-Extended b s (length t + n)
        (record { valid = h.valid; place = omega (arith, h.place) }))
      λ b' p. Returns-map (append-Extended b' t n p.left) λ b'' q. Extended-chain p q

-- One of two texts.
append_either :
    (test : Bool) (s t : Bytes) (b : Buffer) (n : ℕ)
    → HasPlace (length (if test then s else t) + n) b
    → Returns (Extended b (if test then s else t) n) (if test then append s b else append t b)
append_either true s t b n h = append-Extended b s n h
append_either false s t b n h = append-Extended b t n h

-- The texts that `add_state_line_` and `add_header_` append.
unfoldable pub state_line : Option ℕ → Bytes
state_line code =
    codes "HTTP/1.1 "
    ++ (to_string (status_of code).0 ++ (codes " " ++ ((status_of code).1 ++ codes "\r\n")))

abbrev alive_text : Bool → Bytes
alive_text is_keep_alive =
    if is_keep_alive
    then codes "Keep-Alive\r\n" ++ codes "Keep-Alive: timeout=10000\r\n"
    else codes "close\r\n"

abbrev type_text : Bytes → Bytes
type_text path =
    if bytes_eq path (codes "/result.html")
    then codes "Content-type: application/json\r\n"
    else codes "Content-type: " ++ (get_file_type path ++ codes "\r\n")

unfoldable pub header_text : Bool → Bytes → Bytes
header_text is_keep_alive path =
    codes "Connection: " ++ (alive_text is_keep_alive ++ type_text path)

module _ {Prob : Type 0} where
  pub add_state_line-Extended :
      (r : Response Prob) (b : Buffer) (n : ℕ)
      → HasPlace (length (state_line r.code) + n) b
      → Returns
          (λ (r', b').
            (r' ≡ record r { code = some (status_of r.code).0 })
            × Extended b (state_line r.code) n b')
          (add_state_line r b)
  unfolding add_state_line state_line
  add_state_line-Extended r b n h = Returns-bind (append-Extended b _ n h) λ b' p. returns (refl, p)

  pub add_header-Extended :
      (r : Response Prob) (b : Buffer) (n : ℕ)
      → HasPlace (length (header_text r.is_keep_alive r.path) + n) b
      → Returns (Extended b (header_text r.is_keep_alive r.path) n) (add_header r b)
  unfolding add_header header_text
  add_header-Extended r b n h =
      let alive = alive_text r.is_keep_alive in
      let mime = type_text r.path in
      let total = length-append alive mime in
      Returns-bind
        (append-Extended b (codes "Connection: ") (length alive + length mime + n)
          (record { valid = h.valid; place = omega (arith, h.place, total) }))
        λ b₁ p.
          Returns-bind
            (alive_step r.is_keep_alive b₁ (length mime + n)
              (record { valid = p.left.valid; place = omega (arith, p.left.place) }))
            λ b₂ q. Returns-map (type_step b₂ q.left) λ b₃ t. Extended-chain p (Extended-chain q t)
    where
      alive_step :
          (keep : Bool) (b₁ : Buffer) (m : ℕ)
          → HasPlace (length (alive_text keep) + m) b₁
          → Returns (Extended b₁ (alive_text keep) m) (
              if keep
              then append (codes "Keep-Alive\r\n") b₁
                >>= append (codes "Keep-Alive: timeout=10000\r\n")
              else append (codes "close\r\n") b₁)
      alive_step true b₁ m h₁ =
          append_two b₁ (codes "Keep-Alive\r\n") (codes "Keep-Alive: timeout=10000\r\n") m h₁
      alive_step false b₁ m h₁ = append-Extended b₁ (codes "close\r\n") m h₁

      type_step :
          (b₂ : Buffer)
          → HasPlace (length (type_text r.path) + n) b₂
          → Returns (Extended b₂ (type_text r.path) n) (
              if bytes_eq r.path (codes "/result.html")
              then append (codes "Content-type: application/json\r\n") b₂
              else append (codes "Content-type: " ++ (get_file_type r.path ++ codes "\r\n")) b₂)
      type_step b₂ h₂ = append_either (bytes_eq r.path (codes "/result.html")) _ _ b₂ n h₂

  pub error_content-Extended :
      (message : Bytes) (r : Response Prob) (b : Buffer) (n : ℕ)
      → let body = error_body r.code message in
        HasPlace (length (content_length (length body)) + length body + n) b
        → Returns (Extended b (content_length (length body) ++ body) n) (error_content message r b)
  unfolding error_content
  error_content-Extended message r b n h = append_two b _ _ n h
