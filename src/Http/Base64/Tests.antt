-- ===== src/Http/Base64/Tests.antt =====
-- Runs of `base64_decode`, and instances of its theorems.
use torch_server.Base.{ℕ, ◌≡◌, refl, [], ◌∷◌, codes, arith}
use torch_server.Http.Base64.{
  base64_chars, isalnum, is_base64, find_char, sextet, byte_0, byte_1, byte_2, char_array_3,
  flush_group, push_char, decode_loop, base64_decode,
}
use torch_server.Http.Base64.RoundTrip.{encode, base64_decode-encode}

abbrev base64_all : ℕ
unfolding base64_chars isalnum is_base64 find_char sextet byte_0 byte_1 byte_2 char_array_3
    flush_group push_char decode_loop base64_decode
base64_all = 0

decodes : base64_decode (codes "aGVsbG8=") ≡ codes "hello"
unfolding base64_all
decodes = refl

base64_decode-encode_example :
    base64_decode (encode (255 ∷ 0 ∷ 17 ∷ 128 ∷ [])) ≡ 255 ∷ 0 ∷ 17 ∷ 128 ∷ []
base64_decode-encode_example = base64_decode-encode (255 ∷ 0 ∷ 17 ∷ 128 ∷ []) (omega arith)
