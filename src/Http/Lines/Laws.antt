-- ===== src/Http/Lines/Laws.antt =====
-- code/http/http_request.cpp: the matchers against the languages of their regular expressions.
use torch_server.Base.{
  ℕ, ◌+◌, ◌≡◌, refl, ap, false, Bytes, codes, [], ◌∷◌, ◌++◌, length, Option, some, none, ◌≤◌, ◌⊎◌,
  arith, ◌↔◌, ◌==◌, if◌then◌else◌, Bool-cases, Option-cases, inl, inr,
}
use torch_server.Http.Lines.{
  cut_at, has_char, strip_prefix, match_request_line, match_header, find_crlf, and_then,
}

-- Cutting at the first `c` gives a text without `c`, and is the only way to write the input so.
cut_at-append :
    (c : ℕ) (before after : Bytes)
    → has_char c before ≡ false
    → cut_at c (before ++ c ∷ after) ≡ some (before, after)
unfolding cut_at has_char
cut_at-append c [] after h = ground arith
cut_at-append c (x ∷ before) after h = ground (arith, cut_at-append c before after)

cut_at_inv :
    (c : ℕ) (s before after : Bytes)
    → cut_at c s ≡ some (before, after)
    → (s ≡ before ++ c ∷ after) × (has_char c before ≡ false)
unfolding cut_at has_char
cut_at_inv c [] before after e = absurd (ground arith)
cut_at_inv c (x ∷ s) before after e = elim (Bool-cases (x == c)) [
  | inl here ↦ ground (arith, here)
  | inr later ↦ elim (Option-cases (cut_at c s)) [
    | inl none_there ↦ absurd (ground arith)
    | inr ((b, a), there) ↦ ground (arith, cut_at_inv c s b a there)
  ]
]

strip_prefix-append : (p s : Bytes) → strip_prefix p (p ++ s) ≡ some s
unfolding strip_prefix
strip_prefix-append [] s = refl
strip_prefix-append (x ∷ p) s = ground (arith, strip_prefix-append p s)

strip_prefix_inv : (p s rest : Bytes) → strip_prefix p s ≡ some rest → s ≡ p ++ rest
unfolding strip_prefix
strip_prefix_inv [] s rest e = ground arith
strip_prefix_inv (x ∷ p) [] rest e = absurd (ground arith)
strip_prefix_inv (x ∷ p) (y ∷ s) rest e = ground (arith, strip_prefix_inv p s rest)

-- A request line in the form of the expression is matched, with its three groups.
pub match_request_line-append :
    (method path version : Bytes)
    → has_char b' ' method ≡ false
    → has_char b' ' path ≡ false
    → has_char b' ' version ≡ false
    → match_request_line (method ++ b' ' ∷ (path ++ b' ' ∷ (codes "HTTP/" ++ version)))
      ≡ some (method, path, version)
unfolding match_request_line
match_request_line-append method path version hm hp hv = rw (
  cut_at-append b' ' method _ hm,
  cut_at-append b' ' path _ hp,
  strip_prefix-append (codes "HTTP/") version,
  hv,
)

and_then-eq-some {ℓ κ} :
    {A : Type ℓ} {B : Type κ} (m : Option A) (f : A → Option B) {b : B}
    → and_then m f ≡ some b
    → (a : A) × (m ≡ some a) × (f a ≡ some b)
and_then-eq-some none f e = absurd (ground arith)
and_then-eq-some (some a) f e = (a, refl, e)

-- What is matched has the form of the expression, with the groups in their places.
pub match_request_line_inv :
    (line method path version : Bytes)
    → match_request_line line ≡ some (method, path, version)
    → (line ≡ method ++ b' ' ∷ (path ++ b' ' ∷ (codes "HTTP/" ++ version)))
      × (has_char b' ' method ≡ false)
      × (has_char b' ' path ≡ false)
      × (has_char b' ' version ≡ false)
unfolding match_request_line
match_request_line_inv line method path version e =
    let ((m, r), e₁, k₁) = and_then-eq-some (cut_at b' ' line) _ e in
    let ((p, r'), e₂, k₂) = and_then-eq-some (cut_at b' ' r) _ k₁ in
    let (v, e₃, k₃) = and_then-eq-some (strip_prefix (codes "HTTP/") r') _ k₂ in
    let (l₁, hm) = cut_at_inv b' ' line m r e₁ in
    let (l₂, hp) = cut_at_inv b' ' r p r' e₂ in
    let l₃ = strip_prefix_inv (codes "HTTP/") r' v e₃ in
    let (same, hv) = groups m p v k₃ in ground (arith, l₁, l₂, l₃, hm, hp, hv, same)
  where
    groups :
        (m p v : Bytes)
        → (let r : Option (Bytes × Bytes × Bytes) =
              if has_char b' ' v then none else some (m, p, v) in
            r)
          ≡ some (method, path, version)
        → ((m ≡ method) × (p ≡ path) × (v ≡ version)) × (has_char b' ' v ≡ false)
    groups m p v k = ground arith

-- The lines that the expression matches are exactly those of three parts without spaces, joined by
-- single spaces, the last of which begins with "HTTP/"; the parts are the groups.
pub match_request_line_iff :
    (line method path version : Bytes)
    → (match_request_line line ≡ some (method, path, version)) ↔ (
        (line ≡ method ++ b' ' ∷ (path ++ b' ' ∷ (codes "HTTP/" ++ version)))
        × (has_char b' ' method ≡ false)
        × (has_char b' ' path ≡ false)
        × (has_char b' ' version ≡ false))
match_request_line_iff line method path version = (
  match_request_line_inv line method path version,
  λ (form, hm, hp, hv). rw form (match_request_line-append method path version hm hp hv),
)

-- A header line is matched, with the value behind the colon and at most one space.
pub match_header-append :
    (name value : Bytes)
    → has_char b':' name ≡ false
    → has_char 10 value ≡ false
    → has_char 13 value ≡ false
    → match_header (name ++ b':' ∷ b' ' ∷ value) ≡ some (name, value)
unfolding match_header
match_header-append name value hn hl hr =
    rw (cut_at-append b':' name (b' ' ∷ value) hn, strip_prefix-append (codes " ") value, hl, hr)

cut_at_missing : (c : ℕ) (s : Bytes) → has_char c s ≡ false → cut_at c s ≡ none
unfolding cut_at has_char
cut_at_missing c [] h = refl
cut_at_missing c (x ∷ s) h = ground (arith, cut_at_missing c s)

-- A line without a colon, such as the empty one, is not matched.
pub match_header_colonless : (s : Bytes) → has_char b':' s ≡ false → match_header s ≡ none
unfolding match_header
match_header_colonless s h = rw (cut_at_missing b':' s h)

-- The end of the first line: a text without "\r" in front of "\r\n".
pub find_crlf-append :
    (line rest : Bytes)
    → has_char 13 line ≡ false
    → find_crlf (line ++ 13 ∷ 10 ∷ rest) ≡ length line
unfolding find_crlf has_char strip_prefix
find_crlf-append [] rest h = refl
find_crlf-append (x ∷ line) rest h = ground (arith, find_crlf-append line rest)

pub find_crlf_missing : (s : Bytes) → has_char 13 s ≡ false → find_crlf s ≡ length s
unfolding find_crlf has_char strip_prefix
find_crlf_missing [] h = refl
find_crlf_missing (x ∷ s) h = ground (arith, find_crlf_missing s)

-- Either the text has no "\r\n", or two more characters follow its position.
pub find_crlf_bound : (s : Bytes) → (find_crlf s ≡ length s) ⊎ (find_crlf s + 2 ≤ length s)
unfolding find_crlf
find_crlf_bound [] = inl refl
find_crlf_bound (x ∷ s) = go (strip_prefix (13 ∷ 10 ∷ []) (x ∷ s)) refl (find_crlf_bound s)
  where
    go :
        (o : Option Bytes)
        → strip_prefix (13 ∷ 10 ∷ []) (x ∷ s) ≡ o
        → (find_crlf s ≡ length s) ⊎ (find_crlf s + 2 ≤ length s)
        → (find_crlf (x ∷ s) ≡ length (x ∷ s)) ⊎ (find_crlf (x ∷ s) + 2 ≤ length (x ∷ s))
    go none e (inl later) = rw (find_crlf, e) (inl (omega arith))
    go none e (inr later) = rw (find_crlf, e) (inr (omega arith))
    go (some rest) e later =
        rw (find_crlf, e)
          (inr (omega (arith, ap length (strip_prefix_inv (13 ∷ 10 ∷ []) (x ∷ s) rest e))))
