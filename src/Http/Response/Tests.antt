-- ===== src/Http/Response/Tests.antt =====
-- Runs of make_response, and instances of its theorems.
use torch_server.Base.{
  ℕ, ◌≡◌, refl, true, false, Bytes, codes, [], ◌∷◌, ◌++◌, length, inr, some, none, Returns, arith,
  bytes_eq, if◌then◌else◌, ◌==◌,
}
use torch_server.Buffer.{Buffer}
use torch_server.Buffer.Valid.{unread}
use torch_server.Http.Response.{
  Files, Response, to_string, decimal, code_status, status_of, content_length, error_body,
  get_file_type, last_suffix, find_type, suffix_types,
}
use torch_server.Http.Response.Text.{state_line, header_text}
use torch_server.Http.Response.Make.{is_minus_one, make_result, item}
use torch_server.Http.Response.Json.{is_text, are_digits, read_decimal, IsNumber, IsObject}
use torch_server.Http.Response.Laws.{head, object, inner, make_result_sends}

css : get_file_type (codes "/a.b/main.css") ≡ codes "text/css "
unfolding get_file_type last_suffix find_type suffix_types
css = refl

number : to_string 10240 ≡ codes "10240"
unfolding to_string decimal
number = refl

-- One page that can be opened, and a broken one.
abbrev pub one_page : Files
one_page = record {
  stat = λ path. some (record {
    is_dir = false;
    others_read = true;
    size = if bytes_eq path (codes "/r/a.html") then 5 else 0;
  });
  open_file = λ path. bytes_eq path (codes "/r/a.html");
  mmap = λ path size. if size == 0 then none else some (codes "hello");
}

abbrev for_page : Bytes → ℕ → Response ℕ
for_page path size = record {
  code = some 200;
  is_keep_alive = false;
  path = path;
  src_dir = codes "/r";
  mm_file = none;
  mm_file_stat = record { is_dir = false; others_read = true; size = size };
  cls_probs = [];
}

abbrev empty_buffer : Buffer
empty_buffer = record { buffer = []; read_pos = 0; write_pos = 0 }

abbrev pub shown : ℕ → Bytes
shown n = codes "0.5"

abbrev page_text : ℕ
unfolding state_line header_text content_length to_string decimal status_of code_status
    get_file_type last_suffix find_type suffix_types error_body inner item
page_text = 0

hello_plain : is_minus_one (codes "hello") ≡ false
unfolding is_minus_one
hello_plain = refl

abbrev not_found : Bytes
not_found = error_body (some 200) (codes "File NotFound!")

abbrev two_labels : Response ℕ
two_labels = record (for_page (codes "/result.html") 0) {
  cls_probs = (codes "cat", 1) ∷ (codes "dog", 2) ∷ [];
}

abbrev two_objects : Bytes
two_objects = object one_page shown (codes "cat", 1) ((codes "dog", 2) ∷ [])

json_text : two_objects ≡ codes "{\"cat\" : 0.5, \"dog\" : 0.5}"
unfolding inner item
json_text = refl

half : IsNumber (codes "0.5")
unfolding are_digits
half = record {
  first = b'0';
  whole = [];
  fraction = codes "5";
  digits = refl;
  fraction_digits = refl;
  filled = omega arith;
  no_leading_zero = inr refl;
  parts = refl;
}

make_result_sends_example :
    Returns
      (λ (r', b').
        (r' ≡ two_labels)
        × (digits : Bytes) × (body : Bytes) × (are_digits digits ≡ true)
        × (read_decimal 0 digits ≡ length body)
        × IsObject ((codes "cat", codes "0.5") ∷ (codes "dog", codes "0.5") ∷ []) body
        × (unread b'
            ≡ []
              ++ (head one_page shown two_labels
                  ++ (codes "Content-length: " ++ (digits ++ (codes "\r\n\r\n" ++ body))))))
      (make_result one_page shown two_labels empty_buffer)
unfolding page_text is_text
make_result_sends_example =
    make_result_sends one_page shown two_labels empty_buffer (codes "cat", 1)
      ((codes "dog", 2) ∷ []) (omega arith) refl ((refl, half), ((refl, half), tt))
