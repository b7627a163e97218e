-- ===== src/Http/Lines/Tests.antt =====
-- Runs of the matchers, and instances of their theorems.
use torch_server.Base.{ℕ, ◌≡◌, refl, true, false, [], ◌∷◌, ◌++◌, codes, some, none, negsuc, ◌↔◌}
use torch_server.Http.Lines.{
  cut_at, has_char, strip_prefix, match_request_line, match_header, is_default_html, parse_path,
  is_space, digits_value, signed_value, atoi, find_crlf, contains,
}
use torch_server.Http.Lines.Laws.{match_request_line_iff}

abbrev lines_all : ℕ
unfolding cut_at has_char strip_prefix match_request_line match_header is_default_html parse_path
    is_space digits_value signed_value atoi find_crlf contains
lines_all = 0

header_value : match_header (codes "Content-Length: 12") ≡ some (codes "Content-Length", codes "12")
unfolding lines_all
header_value = refl

request_line_spaces : match_request_line (codes "GET  / HTTP/1.1") ≡ none
unfolding lines_all
request_line_spaces = refl

negative_length : atoi (codes " -42x") ≡ negsuc 41
unfolding lines_all
negative_length = refl

page : parse_path (codes "/login") ≡ codes "/login.html"
unfolding lines_all
page = refl

first_crlf : find_crlf (97 ∷ 13 ∷ 13 ∷ 10 ∷ 98 ∷ []) ≡ 2
unfolding lines_all
first_crlf = refl

urlencoded : contains (codes "b c") (codes "a b c") ≡ true
unfolding lines_all
urlencoded = refl

match_request_line_iff_example :
    (match_request_line (codes "GET / HTTP/1.1") ≡ some (codes "GET", codes "/", codes "1.1")) ↔ (
      (codes "GET / HTTP/1.1"
        ≡ codes "GET" ++ b' ' ∷ (codes "/" ++ b' ' ∷ (codes "HTTP/" ++ codes "1.1")))
      × (has_char b' ' (codes "GET") ≡ false)
      × (has_char b' ' (codes "/") ≡ false)
      × (has_char b' ' (codes "1.1") ≡ false))
match_request_line_iff_example =
    match_request_line_iff (codes "GET / HTTP/1.1") (codes "GET") (codes "/") (codes "1.1")
