-- ===== src/Model/Numbers.antt =====
-- code/model/torch_model.cpp, `get_idx_to_label_`: `atoi` reads what a number is written as.
use torch_server.Base.{
  ℕ, zero, suc, ◌+◌, ◌-◌, ◌*◌, ◌/◌, ◌%◌, ◌<◌, ◌≡◌, refl, ◌∙◌, ap, pos, false, Bytes, [], ◌∷◌, ◌++◌,
  arith, ◌==◌, Bool-cases, inl, inr, le→leb, ==-false,
}
use torch_server.Http.Lines.{atoi, signed_value, digits_value, is_space}
use torch_server.Http.Response.{decimal, to_string}

digits_value-digit :
    (d acc : ℕ) (tail : Bytes)
    → d < 10
    → digits_value ((48 + d) ∷ tail) acc ≡ digits_value tail (acc * 10 + d)
unfolding digits_value
digits_value-digit d acc tail h =
    let digit : 48 + d - 48 ≡ d = omega arith in
    rw (le→leb 48 (48 + d) (omega arith), le→leb (48 + d) 57 (omega arith), digit) refl

is_space_digit : (d : ℕ) → is_space (48 + d) ≡ false
unfolding is_space
is_space_digit d = ground arith

atoi_digit : (d : ℕ) (tail : Bytes) → d < 10 → atoi ((48 + d) ∷ tail) ≡ pos (digits_value tail d)
unfolding atoi signed_value
atoi_digit d tail h =
    let same : 0 * 10 + d ≡ d = omega arith in
    rw
      (
        is_space_digit d,
        ==-false (48 + d) 45 (omega arith),
        ==-false (48 + d) 43 (omega arith),
        digits_value-digit d 0 tail h,
        same,
      )
      refl

-- A number that `decimal` wrote is read again.
atoi-decimal :
    (fuel n : ℕ) (tail : Bytes) → n < fuel → atoi (decimal fuel n tail) ≡ pos (digits_value tail n)
unfolding decimal
atoi-decimal zero n tail h = absurd (omega arith)
atoi-decimal (suc fuel) n tail h = elim (Bool-cases (n / 10 == 0)) [
  | inl e ↦
      rw e (
        atoi_digit (n % 10) tail (omega arith) ∙ ap (λ k. pos (digits_value tail k)) (ground arith))
  | inr e ↦ rw e (
      atoi-decimal fuel (n / 10) ((48 + n % 10) ∷ tail) (ground arith)
      ∙ ap pos (
          digits_value-digit (n % 10) (n / 10) tail (omega arith)
          ∙ ap (digits_value tail) (omega arith)))
]

decimal-append : (fuel n : ℕ) (s t : Bytes) → decimal fuel n s ++ t ≡ decimal fuel n (s ++ t)
unfolding decimal
decimal-append zero n s t = refl
decimal-append (suc fuel) n s t = elim (Bool-cases (n / 10 == 0)) [
  | inl e ↦ rw e refl
  | inr e ↦ rw e (decimal-append fuel (n / 10) ((48 + n % 10) ∷ s) t)
]

pub atoi-to_string : (n : ℕ) (s : Bytes) → atoi (to_string n ++ 34 ∷ s) ≡ pos n
unfolding to_string digits_value
atoi-to_string n s =
    ap atoi (decimal-append (suc n) n [] (34 ∷ s)) ∙ atoi-decimal (suc n) n (34 ∷ s) (omega arith)
