-- ===== src/Http/Base64.antt =====
-- code/http/http_request.cpp and http_request.h: `base64_decode` and its tables.
pub mod RoundTrip
pub mod Tests
use Prim.Native.Nat.{bit_and}
use torch_server.Base.{
  ℕ, zero, suc, ◌+◌, ◌-◌, ◌*◌, ◌/◌, ◌%◌, ◌^◌, Bool, true, false, not, ◌&&◌, ◌||◌, Bytes, codes, [],
  ◌∷◌, ◌++◌, length, take, get_or, Option, some, none, leb, ◌==◌, if◌then◌else◌,
}

unfoldable pub base64_chars : Bytes
base64_chars = codes "ABCDEFGHIJKLMNOPQRSTUVWXYZabcdefghijklmnopqrstuvwxyz0123456789+/"

-- `isalnum` in the "C" locale.
unfoldable pub isalnum : ℕ → Bool
isalnum c = leb b'0' c && leb c b'9' || leb b'A' c && leb c b'Z' || leb b'a' c && leb c b'z'

unfoldable pub is_base64 : ℕ → Bool
is_base64 c = isalnum c || c == b'+' || c == b'/'

-- `std::string::find` of a character, and `npos`.
abbrev pub npos : ℕ
npos = 2 ^ 64 - 1

unfoldable pub find_char : Bytes → ℕ → ℕ
find_char [] c = npos
find_char (x ∷ xs) c =
    let later = find_char xs c in if x == c then 0 else if later == npos then npos else later + 1

-- `char_array_4[i] = base64_chars.find(char_array_4[i])`, an `unsigned char`.
unfoldable pub sextet : ℕ → ℕ
sextet c = find_char base64_chars c % 256

-- The three bytes of `char_array_3`.
unfoldable pub byte_0 : ℕ → ℕ → ℕ
byte_0 a b = (a * 2 ^ 2 + bit_and b 0x30 / 2 ^ 4) % 256

unfoldable pub byte_1 : ℕ → ℕ → ℕ
byte_1 b c = (bit_and b 0xf * 2 ^ 4 + bit_and c 0x3c / 2 ^ 2) % 256

unfoldable pub byte_2 : ℕ → ℕ → ℕ
byte_2 c d = (bit_and c 0x3 * 2 ^ 6 + d) % 256

-- The four characters of `char_array_4`; those that were not filled are 0.
unfoldable pub char_array_3 : Bytes → Bytes
char_array_3 group =
    let a = sextet (get_or group 0 0) in
    let b = sextet (get_or group 1 0) in
    let c = sextet (get_or group 2 0) in
    let d = sextet (get_or group 3 0) in byte_0 a b ∷ byte_1 b c ∷ byte_2 c d ∷ []

-- What follows the loop, with `i` characters in the group.
unfoldable pub flush_group : Bytes → Bytes → Bytes
flush_group group ret =
    if length group == 0 then ret else ret ++ take (length group - 1) (char_array_3 group)

-- One round of the loop, on the character that it takes.
unfoldable pub push_char : ℕ → Bytes × Bytes → Bytes × Bytes
push_char c (group, ret) =
    let group' = group ++ c ∷ [] in
    if length group' == 4 then ([], ret ++ char_array_3 group') else (group', ret)

unfoldable pub decode_loop : Bytes → Bytes × Bytes → Bytes
decode_loop [] (group, ret) = flush_group group ret
decode_loop (c ∷ cs) (group, ret) =
    let more = decode_loop cs (push_char c (group, ret)) in
    if not (c == b'=') && is_base64 c then more else flush_group group ret

unfoldable pub base64_decode : Bytes → Bytes
base64_decode encoded = decode_loop encoded ([], [])
