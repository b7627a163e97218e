-- ===== src/Http/Response/Json.antt =====
-- code/http/http_response.cpp: what the answers are made of, by their own standards: decimal numbers,
-- and JSON objects of numbers (RFC 8259).
use torch_server.Base.{
  ℕ, zero, suc, ◌+◌, ◌-◌, ◌*◌, ◌/◌, ◌%◌, ◌<◌, ◌≡◌, ◌≢◌, refl, ◌∙◌, ap, Bool, true, ◌&&◌, ◌||◌, not,
  Bytes, List, [], ◌∷◌, ◌++◌, length, arith, leb, ◌==◌, Bool-cases, inl, inr, ◌⊎◌,
}
use torch_server.Http.Response.{decimal, to_string}

unfoldable pub are_digits : Bytes → Bool
are_digits [] = true
are_digits (c ∷ s) = leb b'0' c && leb c b'9' && are_digits s

-- The value of a number in decimal, behind digits of the value `acc`.
unfoldable pub read_decimal : ℕ → Bytes → ℕ
read_decimal acc [] = acc
read_decimal acc (c ∷ s) = read_decimal (acc * 10 + (c - b'0')) s

are_digits-decimal :
    (fuel n : ℕ) (tail : Bytes) → are_digits tail ≡ true → are_digits (decimal fuel n tail) ≡ true
unfolding decimal are_digits
are_digits-decimal zero n tail h = h
are_digits-decimal (suc fuel) n tail h = elim (Bool-cases (n / 10 == 0)) [
  | inl e ↦ rw e (ground (arith, h))
  | inr e ↦ rw e (are_digits-decimal fuel (n / 10) ((48 + n % 10) ∷ tail) (ground (arith, h)))
]

read_decimal-decimal :
    (fuel n : ℕ) (tail : Bytes)
    → n < fuel
    → read_decimal 0 (decimal fuel n tail) ≡ read_decimal n tail
unfolding decimal read_decimal
read_decimal-decimal zero n tail h = absurd (omega arith)
read_decimal-decimal (suc fuel) n tail h = elim (Bool-cases (n / 10 == 0)) [
  | inl e ↦ rw e (ap (λ k. read_decimal k tail) (ground (arith, e)))
  | inr e ↦ rw e (
      read_decimal-decimal fuel (n / 10) ((48 + n % 10) ∷ tail) (ground (arith, e))
      ∙ ap (λ k. read_decimal k tail) (omega arith))
]

-- `to_string` writes a number in decimal.
pub to_string-digits :
    (n : ℕ) → (are_digits (to_string n) ≡ true) × (read_decimal 0 (to_string n) ≡ n)
unfolding to_string are_digits read_decimal
to_string-digits n =
    (are_digits-decimal (suc n) n [] refl, read_decimal-decimal (suc n) n [] (omega arith))

-- What stands between the quotation marks of a string, without escapes.
unfoldable pub is_text : Bytes → Bool
is_text [] = true
is_text (c ∷ s) = leb 32 c && not (c == b'"') && not (c == b'\\') && is_text s

unfoldable pub are_blanks : Bytes → Bool
are_blanks [] = true
are_blanks (c ∷ s) = (c == 32 || c == 9 || c == 10 || c == 13) && are_blanks s

-- A number with a fraction, and without a sign or an exponent.
pub record IsNumber (text : Bytes) : Type 0 where
  pub first : ℕ
  pub whole : Bytes
  pub fraction : Bytes
  pub digits : are_digits (first ∷ whole) ≡ true
  pub fraction_digits : are_digits fraction ≡ true
  pub filled : 0 < length fraction
  pub no_leading_zero : (first ≢ b'0') ⊎ (whole ≡ [])
  pub parts : text ≡ first ∷ (whole ++ b'.' ∷ fraction)

-- `"key" : number`, with these blanks around the colon, and then `rest`.
abbrev pub member : Bytes → Bytes → Bytes → Bytes → Bytes → Bytes
member key before after number rest =
    b'"' ∷ (key ++ b'"' ∷ (before ++ b':' ∷ (after ++ (number ++ rest))))

-- Members of an object, with a comma between two of them.
pub data IsMembers : List (Bytes × Bytes) → Bytes → Type 0 where
  last :
      {key number : Bytes} (before after : Bytes)
      → is_text key ≡ true
      → IsNumber number
      → are_blanks before ≡ true
      → are_blanks after ≡ true
      → IsMembers ((key, number) ∷ []) (member key before after number [])
  then_member :
      {key number rest : Bytes} {later : List (Bytes × Bytes)} (before after gap : Bytes)
      → is_text key ≡ true
      → IsNumber number
      → are_blanks before ≡ true
      → are_blanks after ≡ true
      → are_blanks gap ≡ true
      → IsMembers later rest
      → IsMembers ((key, number) ∷ later) (member key before after number (b',' ∷ (gap ++ rest)))

-- A JSON object with these keys and numbers, in order.
pub record IsObject (entries : List (Bytes × Bytes)) (text : Bytes) : Type 0 where
  pub members : Bytes
  pub listed : IsMembers entries members
  pub braces : text ≡ b'{' ∷ (members ++ b'}' ∷ [])
