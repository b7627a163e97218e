-- ===== src/Log/Text.antt =====
-- code/log/log.cpp: no byte of a line's head is the terminator of a C string.
use torch_server.Base.{
  ℕ, zero, suc, ◌+◌, ◌-◌, ◌/◌, ◌%◌, ◌≡◌, ◌≢◌, refl, ℤ, pos, negsuc, Bool, true, not, ◌&&◌, Bytes,
  codes, [], ◌∷◌, ◌++◌, length, replicate, ok, arith, ◌==◌, Bool-cases, inl, inr,
}
use torch_server.Http.Response.{decimal, to_string}
use torch_server.Log.{Tm, padded, stamp_of, level_text, c_str}
use torch_server.Log.Lines.{line_of}

unfoldable pub no_nul : Bytes → Bool
no_nul [] = true
no_nul (c ∷ s) = not (c == 0) && no_nul s

no_nul-append : (s t : Bytes) → no_nul s ≡ true → no_nul t ≡ true → no_nul (s ++ t) ≡ true
unfolding no_nul
no_nul-append [] t p q = q
no_nul-append (c ∷ s) t p q = ground (arith, no_nul-append s t)

no_nul-replicate : (n c : ℕ) → c ≢ 0 → no_nul (replicate n c) ≡ true
unfolding no_nul
no_nul-replicate zero c h = refl
no_nul-replicate (suc n) c h = ground (arith, no_nul-replicate n c)

no_nul-decimal :
    (fuel n : ℕ) (tail : Bytes) → no_nul tail ≡ true → no_nul (decimal fuel n tail) ≡ true
unfolding no_nul decimal
no_nul-decimal zero n tail p = p
no_nul-decimal (suc fuel) n tail p =
    let p' : no_nul ((48 + n % 10) ∷ tail) ≡ true = ground arith in
    elim (Bool-cases (n / 10 == 0)) [
      | inl e ↦ rw e p'
      | inr e ↦ rw e (no_nul-decimal fuel (n / 10) ((48 + n % 10) ∷ tail) p')
    ]

no_nul-to_string : (n : ℕ) → no_nul (to_string n) ≡ true
unfolding to_string no_nul
no_nul-to_string n = no_nul-decimal (suc n) n [] refl

no_nul-padded : (width n : ℕ) → no_nul (padded width n) ≡ true
unfolding padded
no_nul-padded width n =
    no_nul-append (replicate (width - length (to_string n)) 48) (to_string n)
      (no_nul-replicate (width - length (to_string n)) 48 (ground arith)) (no_nul-to_string n)

no_nul-cons : (c : ℕ) (s : Bytes) → c ≢ 0 → no_nul s ≡ true → no_nul (c ∷ s) ≡ true
unfolding no_nul
no_nul-cons c s h p = ground arith

-- A padded number and a separator.
no_nul-field :
    (width n c : ℕ) (s : Bytes)
    → c ≢ 0
    → no_nul s ≡ true
    → no_nul (padded width n ++ (c ∷ s)) ≡ true
no_nul-field width n c s h p =
    no_nul-append (padded width n) (c ∷ s) (no_nul-padded width n) (no_nul-cons c s h p)

no_nul-stamp_of : (t : Tm) → no_nul (stamp_of t) ≡ true
unfolding stamp_of no_nul
no_nul-stamp_of t =
    no_nul-append (to_string (t.tm_year + 1_900)) _ (no_nul-to_string (t.tm_year + 1_900)) (
      no_nul-field 2 (t.tm_mon + 1) 45 _ (ground arith) (
        no_nul-field 2 t.tm_mday 32 _ (ground arith) (
          no_nul-field 2 t.tm_hour 58 _ (ground arith) (
            no_nul-field 2 t.tm_min 58 _ (ground arith) (
              no_nul-field 2 t.tm_sec 46 _ (ground arith)
                (no_nul-field 6 t.tv_usec 32 [] (ground arith) refl))))))

no_nul-level_text : (level : ℤ) → no_nul (level_text level) ≡ true
unfolding level_text no_nul
no_nul-level_text (negsuc n) = refl
no_nul-level_text (pos n) = ground arith

pub no_nul-line_of :
    (t : Tm) (level : ℤ) (text : Bytes) → no_nul text ≡ true → no_nul (line_of t level text) ≡ true
unfolding line_of no_nul
no_nul-line_of t level text p =
    no_nul-append ((stamp_of t ++ level_text level) ++ text) (codes "\n")
      (no_nul-append (stamp_of t ++ level_text level) text
        (no_nul-append (stamp_of t) (level_text level) (no_nul-stamp_of t)
          (no_nul-level_text level))
        p)
      refl

-- The C string in front of the terminator.
pub c_str-append : (s rest : Bytes) → no_nul s ≡ true → c_str ((s ++ 0 ∷ []) ++ rest) ≡ ok s
unfolding c_str no_nul
c_str-append [] rest p = refl
c_str-append (c ∷ s) rest p = elim (Bool-cases (c == 0)) [
  | inl e ↦ absurd (ground arith)
  | inr e ↦ rw (e, c_str-append s rest (ground arith)) refl
]
