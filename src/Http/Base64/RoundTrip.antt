-- ===== src/Http/Base64/RoundTrip.antt =====
-- code/http/http_request.cpp, `base64_decode`: it inverts the encoding of RFC 4648, and stops at the
-- first character outside the alphabet.
use Prim.Native.Nat.{bit_and}
use torch_server.Base.{
  ℕ, zero, suc, ◌+◌, ◌*◌, ◌/◌, ◌%◌, ◌<◌, ◌≡◌, refl, ap, sym, Bool, true, false, not, ◌&&◌, Bytes,
  [], ◌∷◌, ◌++◌, append-nil, append_assoc, arith, ltb, ◌-◌, ◌==◌, ==_iff, if◌then◌else◌, ◌⊎◌, inl,
  inr,
}
use torch_server.Http.Base64.{
  base64_chars, isalnum, is_base64, find_char, sextet, byte_0, byte_1, byte_2, char_array_3,
  flush_group, push_char, decode_loop, base64_decode,
}

-- The character of a number below 64, by the table of RFC 4648.
abbrev pub encode_char : ℕ → ℕ
encode_char n =
    if ltb n 26
    then b'A' + n
    else if ltb n 52
    then b'a' + (n - 26)
    else if ltb n 62
    then b'0' + (n - 52)
    else if n == 62
    then b'+'
    else b'/'

-- RFC 4648, section 4, with padding.
unfoldable pub encode : Bytes → Bytes
encode [] = []
encode (x ∷ []) = encode_char (x / 4) ∷ encode_char (x % 4 * 16) ∷ b'=' ∷ b'=' ∷ []
encode (x ∷ y ∷ []) =
    encode_char (x / 4) ∷ encode_char (x % 4 * 16 + y / 16) ∷ encode_char (y % 16 * 4) ∷ b'=' ∷ []
encode (x ∷ y ∷ z ∷ rest) =
    encode_char (x / 4)
    ∷ encode_char (x % 4 * 16 + y / 16)
    ∷ encode_char (y % 16 * 4 + z / 64)
    ∷ encode_char (z % 64)
    ∷ encode rest

-- Every byte is below 256.
abbrev pub AreBytes : Bytes → Type 0
AreBytes [] = Unit {0}
AreBytes (x ∷ xs) = (x < 256) × AreBytes xs

-- A test of the numbers from the bound down to 0.
sweep : ℕ → (ℕ → Bool) → Bool
sweep zero test = true
sweep (suc bound) test = if test bound then sweep bound test else false

sweep_inv :
    (bound : ℕ) (test : ℕ → Bool) (n : ℕ) → sweep bound test ≡ true → n < bound → test n ≡ true
unfolding sweep
sweep_inv zero test n swept h = absurd (omega arith)
sweep_inv (suc bound) test n swept h = ground (arith, sweep_inv bound test n)

taken : ℕ → Bool
taken c = not (c == b'=') && is_base64 c

taken_table : sweep 64 (λ n. taken (encode_char n)) ≡ true
unfolding sweep taken is_base64 isalnum base64_chars
taken_table = refl

sextet_table : sweep 64 (λ n. sextet (encode_char n) == n) ≡ true
unfolding sweep sextet find_char base64_chars
sextet_table = refl

sextet-encode_char : (n : ℕ) → n < 64 → sextet (encode_char n) ≡ n
sextet-encode_char n h =
    (==_iff _ n).0 (sweep_inv 64 (λ n. sextet (encode_char n) == n) n sextet_table h)

mask_table :
    sweep 64 (λ n.
      (bit_and n 0x30 == n / 16 * 16)
      && (bit_and n 0xf == n % 16)
      && (bit_and n 0x3c == n / 4 * 4)
      && (bit_and n 0x3 == n % 4))
    ≡ true
unfolding sweep
mask_table = refl

masks :
    (n : ℕ)
    → n < 64
    → (bit_and n 0x30 ≡ n / 16 * 16)
      × (bit_and n 0xf ≡ n % 16)
      × (bit_and n 0x3c ≡ n / 4 * 4)
      × (bit_and n 0x3 ≡ n % 4)
masks n h = ground (
  arith,
  sweep_inv 64
      (λ n.
        (bit_and n 0x30 == n / 16 * 16)
        && (bit_and n 0xf == n % 16)
        && (bit_and n 0x3c == n / 4 * 4)
        && (bit_and n 0x3 == n % 4))
      n mask_table h,
)

-- The loop takes each character of the encoding.
decode_loop-encode_char :
    (n : ℕ) (cs group ret : Bytes)
    → n < 64
    → decode_loop (encode_char n ∷ cs) (group, ret)
      ≡ decode_loop cs (push_char (encode_char n) (group, ret))
unfolding decode_loop
decode_loop-encode_char n cs group ret h =
    let e : taken (encode_char n) ≡ true =
      sweep_inv 64 (λ n. taken (encode_char n)) n taken_table h in
    unfold taken in rw (e)

module _ (x y z : ℕ) (hx : x < 256) (hy : y < 256) (hz : z < 256) where
  first_byte : byte_0 (x / 4) (x % 4 * 16 + y / 16) ≡ x
  unfolding byte_0
  first_byte = omega (arith, masks (x % 4 * 16 + y / 16) (omega arith))

  second_byte : byte_1 (x % 4 * 16 + y / 16) (y % 16 * 4 + z / 64) ≡ y
  unfolding byte_1
  second_byte =
      omega (
        arith,
        masks (x % 4 * 16 + y / 16) (omega arith),
        masks (y % 16 * 4 + z / 64) (omega arith),
      )

  third_byte : byte_2 (y % 16 * 4 + z / 64) (z % 64) ≡ z
  unfolding byte_2
  third_byte = omega (arith, masks (y % 16 * 4 + z / 64) (omega arith))

  triple :
      char_array_3 (
        encode_char (x / 4)
        ∷ encode_char (x % 4 * 16 + y / 16)
        ∷ encode_char (y % 16 * 4 + z / 64)
        ∷ encode_char (z % 64)
        ∷ [])
      ≡ x ∷ y ∷ z ∷ []
  unfolding char_array_3
  triple = rw (
    sextet-encode_char (x / 4) (omega arith),
    sextet-encode_char (x % 4 * 16 + y / 16) (omega arith),
    sextet-encode_char (y % 16 * 4 + z / 64) (omega arith),
    sextet-encode_char (z % 64) (omega arith),
    first_byte,
    second_byte,
    third_byte,
  )

-- The last group, of one or two bytes.
last_one :
    (x : ℕ) (ret : Bytes)
    → x < 256
    → flush_group (encode_char (x / 4) ∷ encode_char (x % 4 * 16) ∷ []) ret ≡ ret ++ x ∷ []
unfolding flush_group char_array_3 byte_0
last_one x ret h =
    rw (sextet-encode_char (x / 4) (omega arith), sextet-encode_char (x % 4 * 16) (omega arith))
      (ap (λ b. ret ++ b ∷ []) (omega (arith, masks (x % 4 * 16) (omega arith))))

last_two :
    (x y : ℕ) (ret : Bytes)
    → x < 256
    → y < 256
    → flush_group
        (encode_char (x / 4) ∷ encode_char (x % 4 * 16 + y / 16) ∷ encode_char (y % 16 * 4) ∷ [])
        ret
      ≡ ret ++ x ∷ y ∷ []
unfolding flush_group char_array_3 byte_1
last_two x y ret hx hy =
    rw
      (
        sextet-encode_char (x / 4) (omega arith),
        sextet-encode_char (x % 4 * 16 + y / 16) (omega arith),
        sextet-encode_char (y % 16 * 4) (omega arith),
        first_byte x y 0 hx hy (omega arith),
      )
      (ap (λ b. ret ++ x ∷ b ∷ [])
        (omega
          (arith, masks (x % 4 * 16 + y / 16) (omega arith), masks (y % 16 * 4) (omega arith))))

decode_loop-encode : (bs ret : Bytes) → AreBytes bs → decode_loop (encode bs) ([], ret) ≡ ret ++ bs
unfolding encode push_char
decode_loop-encode [] ret h = unfold decode_loop flush_group in sym (append-nil ret)
decode_loop-encode (x ∷ []) ret h =
    rw
      (
        decode_loop-encode_char (x / 4) _ [] ret (omega arith),
        decode_loop-encode_char (x % 4 * 16) _ (encode_char (x / 4) ∷ []) ret (omega arith),
      )
      (unfold decode_loop in last_one x ret h.0)
decode_loop-encode (x ∷ y ∷ []) ret h =
    rw
      (
        decode_loop-encode_char (x / 4) _ [] ret (omega arith),
        decode_loop-encode_char (x % 4 * 16 + y / 16) _ (encode_char (x / 4) ∷ []) ret
            (omega arith),
        decode_loop-encode_char (y % 16 * 4) _
            (encode_char (x / 4) ∷ encode_char (x % 4 * 16 + y / 16) ∷ []) ret (omega arith),
      )
      (unfold decode_loop in last_two x y ret h.0 h.1.0)
decode_loop-encode (x ∷ y ∷ z ∷ rest) ret h =
    let c = encode_char (x / 4) in
    let d = encode_char (x % 4 * 16 + y / 16) in
    let e = encode_char (y % 16 * 4 + z / 64) in
    rw
      (
        decode_loop-encode_char (x / 4) _ [] ret (omega arith),
        decode_loop-encode_char (x % 4 * 16 + y / 16) _ (c ∷ []) ret (omega arith),
        decode_loop-encode_char (y % 16 * 4 + z / 64) _ (c ∷ d ∷ []) ret (omega arith),
        decode_loop-encode_char (z % 64) _ (c ∷ d ∷ e ∷ []) ret (omega arith),
        triple x y z h.0 h.1.0 h.1.1.0,
        decode_loop-encode rest (ret ++ x ∷ y ∷ z ∷ []) h.1.1.1,
      )
      (append_assoc ret (x ∷ y ∷ z ∷ []) rest)

-- Decoding the padded encoding of any bytes gives the bytes back.
pub base64_decode-encode : (bs : Bytes) → AreBytes bs → base64_decode (encode bs) ≡ bs
unfolding base64_decode
base64_decode-encode bs h = decode_loop-encode bs [] h

decode_loop_stops :
    (xs : Bytes) (c : ℕ) (ys group ret : Bytes)
    → taken c ≡ false
    → decode_loop (xs ++ c ∷ ys) (group, ret) ≡ decode_loop xs (group, ret)
unfolding decode_loop taken
decode_loop_stops [] c ys group ret h = rw h
decode_loop_stops (x ∷ xs) c ys group ret h =
    let next = push_char x (group, ret) in rw (decode_loop_stops xs c ys next.0 next.1 h)

-- From the first `=` or character outside the alphabet on, the input does not matter.
pub base64_decode_stops :
    (xs : Bytes) (c : ℕ) (ys : Bytes)
    → (c ≡ b'=') ⊎ (is_base64 c ≡ false)
    → base64_decode (xs ++ c ∷ ys) ≡ base64_decode xs
unfolding base64_decode
base64_decode_stops xs c ys h = decode_loop_stops xs c ys [] [] (not_taken h)
  where
    not_taken : (c ≡ b'=') ⊎ (is_base64 c ≡ false) → taken c ≡ false
    not_taken (inl e) = unfold taken in ground arith
    not_taken (inr e) = unfold taken in ground arith
