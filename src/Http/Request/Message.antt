-- ===== src/Http/Request/Message.antt =====
-- code/http/http_request.cpp: the messages that the theorems on `parse` are about.
use torch_server.Base.{
  ℕ, suc, ◌+◌, ◌≤◌, ◌<◌, ◌≡◌, refl, false, Bytes, codes, List, [], ◌∷◌, ◌++◌, length, length-append,
  arith, leb, leb-false, if◌then◌else◌, put,
}
use torch_server.Http.Form.{Fields}
use torch_server.Http.Lines.{has_char}
use torch_server.Http.Request.{ParseState}

-- The parts of a request in front of its body.
pub record Head : Type 0 where
  pub method : Bytes
  pub path : Bytes
  pub version : Bytes
  pub fields : List (Bytes × Bytes)

unfoldable pub request_line : Head → Bytes
request_line h = h.method ++ b' ' ∷ (h.path ++ b' ' ∷ (codes "HTTP/" ++ h.version))

unfoldable pub render_field : Bytes × Bytes → Bytes
render_field (name, value) = name ++ b':' ∷ b' ' ∷ value

-- Each field on a line of its own.
unfoldable pub render_fields : List (Bytes × Bytes) → Bytes
render_fields [] = []
render_fields (f ∷ fs) = render_field f ++ 13 ∷ 10 ∷ render_fields fs

-- The message with this head and body.
unfoldable pub render : Head → Bytes → Bytes
render h body = request_line h ++ 13 ∷ 10 ∷ (render_fields h.fields ++ 13 ∷ 10 ∷ body)

-- The fields are lines that the grammar of a header allows.
abbrev pub AreFields : List (Bytes × Bytes) → Type 0
AreFields [] = Unit {0}
AreFields ((name, value) ∷ fs) =
    (has_char b':' name ≡ false)
    × (has_char 13 name ≡ false)
    × (has_char 10 value ≡ false)
    × (has_char 13 value ≡ false)
    × AreFields fs

pub record IsHead (h : Head) : Type 0 where
  pub method_word : has_char b' ' h.method ≡ false
  pub path_word : has_char b' ' h.path ≡ false
  pub version_word : has_char b' ' h.version ≡ false
  pub one_line : has_char 13 (request_line h) ≡ false
  pub short : length (request_line h) < 256
  pub fields : AreFields h.fields

-- A round for each field, and `n` more.
abbrev pub rounds : List (Bytes × Bytes) → ℕ → ℕ
rounds [] n = n
rounds (f ∷ fs) n = suc (rounds fs n)

pub rounds_lem : (fs : List (Bytes × Bytes)) (n : ℕ) → rounds fs n ≡ length fs + n
rounds_lem [] n = omega arith
rounds_lem (f ∷ fs) n = omega (arith, rounds_lem fs n)

-- The map of the header after these fields, in order.
abbrev pub store_fields : List (Bytes × Bytes) → Fields → Fields
store_fields [] m = m
store_fields ((name, value) ∷ fs) m = store_fields fs (put m name value)

pub has_char-append :
    (c : ℕ) (s t : Bytes)
    → has_char c s ≡ false
    → has_char c t ≡ false
    → has_char c (s ++ t) ≡ false
unfolding has_char
has_char-append c [] t hs ht = ht
has_char-append c (x ∷ s) t hs ht = ground (arith, has_char-append c s t)

pub fields_bound : (fs : List (Bytes × Bytes)) → length fs ≤ length (render_fields fs)
unfolding render_fields
fields_bound [] = omega arith
fields_bound (f ∷ fs) =
    omega (arith, fields_bound fs, length-append (render_field f) (13 ∷ 10 ∷ render_fields fs))

-- The state behind the blank line, with these bytes to come.
abbrev pub state_before : Bytes → ParseState
state_before [] = ParseState.finish
state_before (c ∷ body) = ParseState.body

pub state_before_lem :
    (body : Bytes)
    → (if leb (0 + 2 + length body) 2 then ParseState.finish else ParseState.body)
      ≡ state_before body
state_before_lem [] = refl
state_before_lem (c ∷ body) = rw (leb-false (0 + 2 + length (c ∷ body)) 2 (omega arith))
