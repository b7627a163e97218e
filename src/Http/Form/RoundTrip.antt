-- ===== src/Http/Form/RoundTrip.antt =====
-- code/http/http_request.cpp, `parse_from_url_encoded_`: what it makes of a form as browsers send it.
use torch_server.Base.{
  ℕ, ◌+◌, ◌-◌, ◌/◌, ◌%◌, ◌<◌, ◌≡◌, refl, ap, ◌∙◌, Bool, true, ◌||◌, Bytes, List, [], ◌∷◌, ◌++◌,
  append-nil, append_assoc, length, ok, arith, ltb, leb, ◌&&◌, ◌==◌, Bool-cases, inl, inr, subst,
  length-append, ==-false, fault, out_of_bounds, if◌then◌else◌, put, is_some,
}
use torch_server.Http.Base64.RoundTrip.{AreBytes}
use torch_server.Http.Form.{
  Fields, convert_from_hex, Scan, ahead, ascii_val, scan_char, scan, store_last,
  parse_from_url_encoded,
}

-- The upper-case hexadecimal digit of a number below 16.
abbrev pub hex_digit : ℕ → ℕ
hex_digit n = if ltb n 10 then b'0' + n else b'A' + (n - 10)

-- The characters that application/x-www-form-urlencoded sends as they are: letters, digits and four
-- marks.
abbrev pub is_plain : ℕ → Bool
is_plain c =
    leb b'0' c && leb c b'9'
    || leb b'A' c && leb c b'Z'
    || leb b'a' c && leb c b'z'
    || c == b'*'
    || c == b'-'
    || c == b'.'
    || c == b'_'

-- A text in application/x-www-form-urlencoded: a space is sent as a plus sign, and what is not
-- plain in percent form.
unfoldable pub escape : Bytes → Bytes
escape [] = []
escape (c ∷ s) =
    if c == b' '
    then b'+' ∷ escape s
    else if is_plain c
    then c ∷ escape s
    else b'%' ∷ hex_digit (c / 16) ∷ hex_digit (c % 16) ∷ escape s

-- The text with plus signs for its spaces.
unfoldable pub with_plus : Bytes → Bytes
with_plus [] = []
with_plus (c ∷ s) = (if c == b' ' then b'+' else c) ∷ with_plus s

pub length-with_plus : (s : Bytes) → length (with_plus s) ≡ length s
unfolding with_plus
length-with_plus [] = refl
length-with_plus (c ∷ s) = omega (arith, length-with_plus s)

-- A field, as `key=value`.
unfoldable pub encode_field : Bytes × Bytes → Bytes
encode_field (k, v) = escape k ++ b'=' ∷ escape v

-- Fields that are each closed by `&`, and a last one.
unfoldable pub encode_form : List (Bytes × Bytes) → Bytes × Bytes → Bytes
encode_form [] last = encode_field last
encode_form (f ∷ fs) last = encode_field f ++ b'&' ∷ encode_form fs last

-- The map after the fields that `&` closes, in order, with plus signs for their spaces.
abbrev pub store_all : List (Bytes × Bytes) → Fields → Fields
store_all [] m = m
store_all ((k, v) ∷ fs) m = store_all fs (put m (with_plus k) (with_plus v))

hex_digit_inv : (n : ℕ) → n < 16 → convert_from_hex (hex_digit n) ≡ n
unfolding convert_from_hex
hex_digit_inv n h = ground arith

ascii_val-hex_digit : (c : ℕ) → c < 256 → ascii_val (hex_digit (c / 16)) (hex_digit (c % 16)) ≡ c
unfolding ascii_val
ascii_val-hex_digit c h =
    rw (hex_digit_inv (c / 16) (omega arith), hex_digit_inv (c % 16) (omega arith)) (omega arith)

abbrev add_cur : Scan → Bytes → Scan
add_cur s t = record s { cur = s.cur ++ t }

scan_char_plain :
    (c : ℕ) (rest : Bytes) (s : Scan)
    → is_plain c ≡ true
    → scan_char c rest s ≡ ok (add_cur s (c ∷ []), 0)
unfolding scan_char
scan_char_plain c rest s h = ground arith

scan_char_percent :
    (c : ℕ) (rest : Bytes) (s : Scan)
    → c < 256
    → scan_char b'%' (hex_digit (c / 16) ∷ hex_digit (c % 16) ∷ rest) s ≡ ok (add_cur s (c ∷ []), 2)
unfolding scan_char ahead
scan_char_percent c rest s h = rw (ascii_val-hex_digit c h)

scan_char_plus : (rest : Bytes) (s : Scan) → scan_char b'+' rest s ≡ ok (add_cur s (b'+' ∷ []), 0)
unfolding scan_char
scan_char_plus rest s = refl

-- The loop adds an escaped text to `cur`, byte by byte, and keeps the plus signs.
scan-escape :
    (t rest : Bytes) (s : Scan)
    → AreBytes t
    → scan (escape t ++ rest) 0 s ≡ scan rest 0 (add_cur s (with_plus t))
unfolding escape scan with_plus
scan-escape [] rest s h = rw (append-nil s.cur)
scan-escape (c ∷ t) rest s h = elim (Bool-cases (c == b' ')) [
  | inl space ↦
      rw (space, scan_char_plus (escape t ++ rest) s)
        (scan-escape t rest (add_cur s (b'+' ∷ [])) h.1 ∙ joined b'+')
  | inr other ↦ elim (Bool-cases (is_plain c)) [
    | inl e ↦
        rw (other, e, scan_char_plain c (escape t ++ rest) s e)
          (scan-escape t rest (add_cur s (c ∷ [])) h.1 ∙ joined c)
    | inr e ↦
        rw (other, e, scan_char_percent c (escape t ++ rest) s h.0)
          (scan-escape t rest (add_cur s (c ∷ [])) h.1 ∙ joined c)
  ]
]
  where
    joined :
        (d : ℕ)
        → scan rest 0 (add_cur (add_cur s (d ∷ [])) (with_plus t))
          ≡ scan rest 0 (add_cur s (d ∷ with_plus t))
    joined d =
        ap (λ u. scan rest 0 (record s { cur = u })) (append_assoc s.cur (d ∷ []) (with_plus t))

abbrev AreFieldBytes : Bytes × Bytes → Type 0
AreFieldBytes (k, v) = AreBytes k × AreBytes v

abbrev pub AreFormBytes : List (Bytes × Bytes) → Type 0
AreFormBytes [] = Unit {0}
AreFormBytes (f ∷ fs) = AreFieldBytes f × AreFormBytes fs

-- The loop reads a field into `key` and `cur`.
scan-encode_field :
    (k v rest key : Bytes) (m : Fields)
    → AreBytes k
    → AreBytes v
    → scan (encode_field (k, v) ++ rest) 0 (record { key = key; cur = []; post = m })
      ≡ scan rest 0 (record { key = with_plus k; cur = with_plus v; post = m })
unfolding encode_field
scan-encode_field k v rest key m hk hv =
    rw
      (
        append_assoc (escape k) (b'=' ∷ escape v) rest,
        scan-escape k (b'=' ∷ escape v ++ rest) (record { key = key; cur = []; post = m }) hk,
      )
      (unfold scan scan_char in
        scan-escape v rest (record { key = with_plus k; cur = []; post = m }) hv)

scan_ampersand :
    (rest key cur : Bytes) (m : Fields)
    → scan (b'&' ∷ rest) 0 (record { key = key; cur = cur; post = m })
      ≡ scan rest 0 (record { key = key; cur = []; post = put m key cur })
unfolding scan scan_char
scan_ampersand rest key cur m = refl

scan-encode_form :
    (fs : List (Bytes × Bytes)) (k v key : Bytes) (m : Fields)
    → AreFormBytes fs
    → AreBytes k
    → AreBytes v
    → scan (encode_form fs (k, v)) 0 (record { key = key; cur = []; post = m })
      ≡ ok (record { key = with_plus k; cur = with_plus v; post = store_all fs m })
unfolding encode_form
scan-encode_form [] k v key m h hk hv =
    subst
      (λ t.
        scan t 0 (record { key = key; cur = []; post = m })
        ≡ ok (record { key = with_plus k; cur = with_plus v; post = m }))
      (append-nil (encode_field (k, v)))
      (scan-encode_field k v [] key m hk hv ∙ (unfold scan in refl))
scan-encode_form ((j, w) ∷ fs) k v key m h hk hv =
    rw
      (
        scan-encode_field j w (b'&' ∷ encode_form fs (k, v)) key m h.0.0 h.0.1,
        scan_ampersand (encode_form fs (k, v)) (with_plus j) (with_plus w) m,
      )
      (scan-encode_form fs k v (with_plus j) (put m (with_plus j) (with_plus w)) h.1 hk hv)

encode_field-pos : (f : Bytes × Bytes) → 0 < length (encode_field f)
unfolding encode_field
encode_field-pos (k, v) = omega (arith, length-append (escape k) (b'=' ∷ escape v))

encode_form-pos : (fs : List (Bytes × Bytes)) (l : Bytes × Bytes) → 0 < length (encode_form fs l)
unfolding encode_form
encode_form-pos [] l = encode_field-pos l
encode_form-pos (f ∷ fs) l =
    omega (arith, encode_field-pos f, length-append (encode_field f) (b'&' ∷ encode_form fs l))

-- On a form in application/x-www-form-urlencoded, whatever the bytes of its fields, the parser
-- never faults. It reads the percent forms back and leaves the plus signs, so that each key and
-- value comes out as it was but with a plus sign for every space. The fields closed by `&` are
-- stored in order, each over an earlier one of its key; the last field is stored if its value is
-- not empty and its key is not in the map yet.
pub parse-encode_form :
    (fs : List (Bytes × Bytes)) (k v : Bytes) (m : Fields)
    → AreFormBytes fs
    → AreBytes k
    → AreBytes v
    → parse_from_url_encoded (encode_form fs (k, v)) m
      ≡ ok (
          let stored = store_all fs m in
          if is_some (stored (with_plus k)) || length v == 0
          then stored
          else put stored (with_plus k) (with_plus v))
unfolding parse_from_url_encoded store_last
parse-encode_form fs k v m h hk hv =
    rw
      (
        ==-false (length (encode_form fs (k, v))) 0 (omega (arith, encode_form-pos fs (k, v))),
        scan-encode_form fs k v [] m h hk hv,
      )
      (ground (arith, length-with_plus v))

-- A `%` that is the last character makes the parser read behind the terminator of the body.
pub parse_dangling_percent :
    (t : Bytes) (m : Fields)
    → AreBytes t
    → parse_from_url_encoded (escape t ++ b'%' ∷ []) m ≡ fault out_of_bounds
unfolding parse_from_url_encoded
parse_dangling_percent t m h =
    rw
      (
        ==-false (length (escape t ++ b'%' ∷ [])) 0
            (omega (arith, length-append (escape t) (b'%' ∷ []))),
        scan-escape t (b'%' ∷ []) (record { key = []; cur = []; post = m }) h,
      )
      (unfold scan scan_char ahead in refl)
