-- ===== src/Http/Form.antt =====
-- code/http/http_request.cpp, `parse_from_url_encoded_` and `convert_from_hex_`: the body of a form
-- becomes the map of its fields.
pub mod RoundTrip
pub mod Tests
use torch_server.Base.{
  ℕ, zero, suc, ◌+◌, ◌-◌, ◌*◌, ◌%◌, ◌≡◌, Bool, true, false, not, ◌&&◌, ◌||◌, Bytes, codes, [], ◌∷◌,
  ◌++◌, length, get_elem?, Option, some, none, Run, ok, fault, out_of_bounds, or_fault, ◌>>=◌, leb,
  ltb, ◌==◌, if◌then◌else◌, put, is_some,
}

abbrev pub Fields : Type 0
Fields = Bytes → Option Bytes

-- A `char` is its byte; the arithmetic is that of `int`, cut to a byte.
unfoldable pub convert_from_hex : ℕ → ℕ
convert_from_hex c =
    if leb b'a' c && leb c b'z'
    then (10 + c - b'a') % 256
    else if leb b'A' c && leb c b'Z'
    then (10 + c - b'A') % 256
    else (c + 256 - b'0') % 256

-- The variables of the loop: `key`, `cur` and `post_`.
pub record Scan : Type 0 where
  pub key : Bytes
  pub cur : Bytes
  pub post : Fields

-- `body_[i + 1 + k]`, where `rest` is the body behind `i`: the terminator may be read, and nothing
-- behind it.
unfoldable pub ahead : Bytes → ℕ → Run ℕ
ahead rest k = or_fault (get_elem? (rest ++ 0 ∷ []) k) out_of_bounds

-- `ascii_val`
unfoldable pub ascii_val : ℕ → ℕ → ℕ
ascii_val high low = (convert_from_hex high * 16 % 256 + convert_from_hex low) % 256

-- One round, on the character and what follows it; also returns how many characters to skip.
unfoldable pub scan_char : ℕ → Bytes → Scan → Run (Scan × ℕ)
scan_char c rest s =
    if c == b'='
    then ok (record s { key = s.cur; cur = [] }, 0)
    else if c == b'%'
    then (do
      high ← ahead rest 0
      low ← ahead rest 1
      ok (record s { cur = s.cur ++ ascii_val high low ∷ [] }, 2))
    else if c == b'&'
    then ok (record s { post = put s.post s.key s.cur; cur = [] }, 0)
    else ok (record s { cur = s.cur ++ c ∷ [] }, 0)

-- The loop; the number is what is left to skip.
unfoldable pub scan : Bytes → ℕ → Scan → Run Scan
scan [] skip s = ok s
scan (c ∷ rest) zero s = scan_char c rest s >>= λ (s', skip). scan rest skip s'
scan (c ∷ rest) (suc skip) s = scan rest skip s

-- What follows the loop.
unfoldable pub store_last : Scan → Fields
store_last s =
    if not (is_some (s.post s.key)) && ltb 0 (length s.cur) then put s.post s.key s.cur else s.post

unfoldable pub parse_from_url_encoded : Bytes → Fields → Run Fields
parse_from_url_encoded body post =
    if length body == 0
    then ok post
    else scan body 0 (record { key = []; cur = []; post = post }) >>= λ s. ok (store_last s)
