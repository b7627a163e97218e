-- ===== src/Http/Form/Tests.antt =====
-- Runs of the form parser, and instances of its theorems.
use torch_server.Base.{
  ℕ, ◌≡◌, refl, [], ◌∷◌, Bytes, codes, Option, some, none, ok, fault, Run, arith, put,
}
use torch_server.Http.Form.{
  Fields, convert_from_hex, ahead, ascii_val, scan_char, scan, store_last, parse_from_url_encoded,
}
use torch_server.Http.Form.RoundTrip.{
  escape, with_plus, encode_field, encode_form, parse-encode_form,
}

abbrev form_all : ℕ
unfolding convert_from_hex ahead ascii_val scan_char scan store_last parse_from_url_encoded
form_all = 0

abbrev no_fields : Fields
no_fields = λ k. none

abbrev field_of : Bytes → Run Fields → Option Bytes
field_of k (ok m) = m k
field_of k (fault e) = none

password :
    field_of
      (codes "password")
      (parse_from_url_encoded (codes "username=ann&password=a%26b") no_fields)
    ≡ some (codes "a&b")
unfolding form_all
password = refl

-- A last field does not replace an earlier one of its key; one that `&` closes does.
repeated :
    field_of (codes "a") (parse_from_url_encoded (codes "a=1&a=2") no_fields) ≡ some (codes "1")
unfolding form_all
repeated = refl

repeated_closed :
    field_of (codes "a") (parse_from_url_encoded (codes "a=1&a=2&") no_fields) ≡ some (codes "2")
unfolding form_all
repeated_closed = refl

-- The space of the name comes out as a plus sign.
parse-encode_form_example :
    parse_from_url_encoded
      (encode_form ((codes "username", codes "ann b") ∷ []) (codes "password", codes "a&b"))
      no_fields
    ≡ ok (put (put no_fields (codes "username") (codes "ann+b")) (codes "password") (codes "a&b"))
unfolding with_plus
parse-encode_form_example =
    parse-encode_form ((codes "username", codes "ann b") ∷ []) (codes "password") (codes "a&b")
      no_fields (omega arith) (omega arith) (omega arith)

sent : encode_form [] (codes "a b", codes "x+y=1") ≡ codes "a+b=x%2By%3D1"
unfolding encode_form encode_field escape
sent = refl
