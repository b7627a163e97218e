-- ===== src/Http/Lines.antt =====
-- code/http/http_request.cpp: the two regular expressions, the default pages, and the C string
-- functions that the parser uses.
pub mod Laws
pub mod Tests
use torch_server.Base.{
  ℕ, zero, suc, ◌+◌, ◌-◌, ◌*◌, Bool, true, false, not, ◌&&◌, ◌||◌, Bytes, codes, List, [], ◌∷◌,
  ◌++◌, length, drop, Option, some, none, leb, ltb, ◌==◌, bytes_eq, if◌then◌else◌, ℤ, pos, neg,
}

-- What to do with a result, if there is one.
abbrev pub and_then {ℓ κ} : {A : Type ℓ} {B : Type κ} → Option A → (A → Option B) → Option B
and_then none use_it = none
and_then (some a) use_it = use_it a

-- The text before the first `c`, and the text behind it.
unfoldable pub cut_at : ℕ → Bytes → Option (Bytes × Bytes)
cut_at c [] = none
cut_at c (x ∷ s) =
    let rest = cut_at c s in
    if x == c
    then some ([], s)
    else elim rest [ none ↦ none | some (before, after) ↦ some (x ∷ before, after) ]

unfoldable pub has_char : ℕ → Bytes → Bool
has_char c [] = false
has_char c (x ∷ s) = x == c || has_char c s

-- The text behind a prefix.
unfoldable pub strip_prefix : Bytes → Bytes → Option Bytes
strip_prefix [] s = some s
strip_prefix (p ∷ ps) [] = none
strip_prefix (p ∷ ps) (x ∷ s) = let rest = strip_prefix ps s in if p == x then rest else none

-- `regex_match` with "^([^ ]*) ([^ ]*) HTTP/([^ ]*)$": the three groups.
unfoldable pub match_request_line : Bytes → Option (Bytes × Bytes × Bytes)
match_request_line line = and_then (cut_at b' ' line) λ (method, rest).
    and_then (cut_at b' ' rest) λ (path, rest').
      and_then (strip_prefix (codes "HTTP/") rest')
        λ version. if has_char b' ' version then none else some (method, path, version)

-- `regex_match` with "^([^:]*): ?(.*)$": the dot matches no line terminator.
unfoldable pub match_header : Bytes → Option (Bytes × Bytes)
match_header line = and_then (cut_at b':' line) λ (name, rest).
    let value : Bytes = elim (strip_prefix (codes " ") rest) [ some value ↦ value | none ↦ rest ] in
    if has_char 10 value || has_char 13 value then none else some (name, value)

-- `DEFAULT_HTML`
unfoldable pub is_default_html : Bytes → Bool
is_default_html path =
    bytes_eq (codes "/index") path
    || bytes_eq (codes "/register") path
    || bytes_eq (codes "/login") path
    || bytes_eq (codes "/welcome") path
    || bytes_eq (codes "/result") path

unfoldable pub parse_path : Bytes → Bytes
parse_path path =
    if bytes_eq path (codes "/")
    then codes "/index.html"
    else if is_default_html path
    then path ++ codes ".html"
    else path

-- `DEFAULT_HTML_TAG`
unfoldable pub default_html_tag : Bytes → Option ℕ
default_html_tag path =
    if bytes_eq path (codes "/register.html")
    then some 0
    else if bytes_eq path (codes "/login.html")
    then some 1
    else none

-- `std::string::find(text) != npos`
unfoldable pub contains : Bytes → Bytes → Bool
contains text [] = length text == 0
contains text (x ∷ s) = elim (strip_prefix text (x ∷ s)) [ some _ ↦ true | none ↦ contains text s ]

-- `atoi`: white space, a sign, digits. A value outside `int` is undefined, and stays as it is here.
unfoldable pub is_space : ℕ → Bool
is_space c = leb 9 c && leb c 13 || c == 32

unfoldable pub digits_value : Bytes → ℕ → ℕ
digits_value [] acc = acc
digits_value (c ∷ s) acc =
    let more = digits_value s (acc * 10 + (c - b'0')) in
    if leb b'0' c && leb c b'9' then more else acc

unfoldable pub signed_value : Bytes → ℤ
signed_value [] = pos 0
signed_value (c ∷ s) =
    if c == b'-'
    then neg (digits_value s 0)
    else if c == b'+'
    then pos (digits_value s 0)
    else pos (digits_value (c ∷ s) 0)

unfoldable pub atoi : Bytes → ℤ
atoi [] = pos 0
atoi (c ∷ s) = let rest = atoi s in if is_space c then rest else signed_value (c ∷ s)

-- The position of the first "\r\n", or the length of the text.
unfoldable pub find_crlf : Bytes → ℕ
find_crlf [] = 0
find_crlf (x ∷ s) =
    let later = suc (find_crlf s) in
    elim (strip_prefix (13 ∷ 10 ∷ []) (x ∷ s)) [ some _ ↦ 0 | none ↦ later ]
