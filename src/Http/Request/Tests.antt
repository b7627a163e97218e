-- ===== src/Http/Request/Tests.antt =====
-- Runs of the request parser, and instances of its theorems.
use torch_server.Base.{
  ℕ, ◌≡◌, refl, true, Bytes, codes, [], ◌∷◌, ◌++◌, length, put, some, none, ok, arith, Ends,
}
use torch_server.Buffer.{Buffer}
use torch_server.Buffer.Valid.{IsValid, unread}
use torch_server.Http.Form.{parse_from_url_encoded, scan, scan_char, ahead, store_last}
use torch_server.Http.Verify.Tests.{no_user, two_conns}
use torch_server.Http.Lines.{
  find_crlf, has_char, parse_path, default_html_tag, contains, strip_prefix, atoi, is_space,
  signed_value, digits_value, is_default_html,
}
use torch_server.Http.Request.{
  parse_post, dispatch_post, classify_page, entry, Classifier, Request, ParseState, ParseResult,
  World, parse, parse_body,
}
use torch_server.Http.Request.Ends.{Consumed, parse-Ends}
use torch_server.Http.Request.Message.{
  Head, IsHead, render, request_line, render_fields, render_field,
}
use torch_server.Http.Request.Whole.{with_head, parse-render_head, parse-render_body}
use torch_server.Http.Request.Refused.{first_line}

-- A network that knows one label.
abbrev pub one_label : Classifier
one_label = record { Prob = ℕ; classify = λ img. some ((codes "cat", 99) ∷ []) }

abbrev pub fresh : Request ℕ
fresh = record {
  state = ParseState.request_line;
  method = [];
  path = codes "/404.html";
  version = [];
  body = [];
  header = λ _. none;
  post = λ _. none;
  cls_probs = [];
}

abbrev pub holding : Bytes → Buffer
holding s = record { buffer = s; read_pos = 0; write_pos = length s }

abbrev world : World no_user one_label
world = (two_conns, [])

abbrev get_index : Head
get_index = record {
  method = codes "GET";
  path = codes "/index";
  version = codes "1.1";
  fields = (codes "Host", codes "a") ∷ (codes "Connection", codes "keep-alive") ∷ [];
}

abbrev message : Bytes
message =
    codes "GET /index HTTP/1.1"
    ++ 13
      ∷ 10
      ∷ (codes "Host: a" ++ 13 ∷ 10 ∷ (codes "Connection: keep-alive" ++ 13 ∷ 10 ∷ 13 ∷ 10 ∷ []))

message-IsValid : IsValid (holding message)
message-IsValid = omega arith

parse-Ends_example :
    Ends
      (Consumed no_user one_label (holding message))
      (parse no_user one_label fresh (holding message) world)
parse-Ends_example = parse-Ends no_user one_label fresh (holding message) world message-IsValid

get_index-IsHead : IsHead get_index
unfolding has_char request_line
get_index-IsHead = record {
  method_word = refl;
  path_word = refl;
  version_word = refl;
  one_line = refl;
  short = omega arith;
  fields = (refl, refl, refl, refl, (refl, refl, refl, refl, tt));
}

rendered : message ≡ render get_index []
unfolding render request_line render_fields render_field
rendered = refl

parse-render_head_example :
    (b' : Buffer) × IsValid b'
    × (unread b' ≡ [])
    × (parse no_user one_label fresh (holding message) world
        ≡ ok (
          ParseResult.done,
          with_head no_user one_label get_index ParseState.finish fresh,
          b',
          world,
        ))
parse-render_head_example =
    parse-render_head no_user one_label get_index fresh (holding message) world get_index-IsHead
      message-IsValid refl rendered

-- A form with a picture.
abbrev post_result : Head
post_result = record {
  method = codes "POST";
  path = codes "/result";
  version = codes "1.1";
  fields =
      (codes "Content-Length", codes "12")
      ∷ (codes "Content-Type", codes "application/x-www-form-urlencoded")
      ∷ [];
}

post_result-IsHead : IsHead post_result
unfolding has_char request_line
post_result-IsHead = record {
  method_word = refl;
  path_word = refl;
  version_word = refl;
  one_line = refl;
  short = omega arith;
  fields = (refl, refl, refl, refl, (refl, refl, refl, refl, tt));
}

abbrev picture : Bytes
picture = codes "img_str=YWJj"

abbrev form : Buffer
unfolding render request_line render_fields render_field
form = holding (render post_result picture)

abbrev classified : Request ℕ
classified = record (with_head no_user one_label post_result ParseState.finish fresh) {
  body = picture;
  path = codes "/result.html";
  post = put (λ _. none) (codes "img_str") (codes "YWJj");
  cls_probs = (codes "cat", 99) ∷ [];
}

body_handled :
    parse_body no_user one_label picture
      (with_head no_user one_label post_result ParseState.body fresh)
      world
    ≡ ok (true, classified, world)
unfolding parse_body parse_post dispatch_post classify_page entry parse_path default_html_tag
    contains strip_prefix atoi is_space signed_value digits_value is_default_html
    parse_from_url_encoded scan scan_char ahead store_last
body_handled = refl

form-IsValid : IsValid form
unfolding render request_line render_fields render_field
form-IsValid = omega arith

parse-render_body_example :
    (b' : Buffer) × IsValid b'
    × (unread b' ≡ picture)
    × (parse no_user one_label fresh form world ≡ ok (ParseResult.done, classified, b', world))
unfolding render request_line render_fields render_field has_char
parse-render_body_example =
    parse-render_body no_user one_label post_result b'i' (codes "mg_str=YWJj") fresh classified form
      world world post_result-IsHead form-IsValid refl refl refl body_handled

bad_line : first_line (codes "GET /") ≡ codes "GET /"
unfolding find_crlf strip_prefix
bad_line = refl
