-- ===== src/Log/Stored.antt =====
-- code/log/log.cpp: lines in the queue and in the files.
use torch_server.Base.{
  ℕ, ◌+◌, ◌≡◌, refl, ap, true, Bytes, List, [], ◌∷◌, ◌++◌, arith, bytes_eq, if◌then◌else◌,
}
use torch_server.Log.Text.{no_nul}

-- How often a line is in a list.
unfoldable pub occurs : Bytes → List Bytes → ℕ
occurs line [] = 0
occurs line (x ∷ xs) = (if bytes_eq line x then 1 else 0) + occurs line xs

pub occurs-append :
    (line : Bytes) (xs ys : List Bytes) → occurs line (xs ++ ys) ≡ occurs line xs + occurs line ys
unfolding occurs
occurs-append line [] ys = omega arith
occurs-append line (x ∷ xs) ys = omega (arith, occurs-append line xs ys)

-- The texts that were put into the files.
abbrev pub texts : List (Bytes × Bytes) → List Bytes
texts [] = []
texts ((name, text) ∷ put) = text ∷ texts put

pub texts-append : (xs ys : List (Bytes × Bytes)) → texts (xs ++ ys) ≡ texts xs ++ texts ys
texts-append [] ys = refl
texts-append ((name, text) ∷ xs) ys = ap (◌∷◌ text) (texts-append xs ys)

-- What stands in the queue for these lines.
abbrev pub stored : List Bytes → List Bytes
stored [] = []
stored (line ∷ lines) = (line ++ 0 ∷ []) ∷ stored lines

pub stored-append : (xs ys : List Bytes) → stored (xs ++ ys) ≡ stored xs ++ stored ys
stored-append [] ys = refl
stored-append (x ∷ xs) ys = ap (◌∷◌ (x ++ 0 ∷ [])) (stored-append xs ys)

abbrev pub AreSet : List Bytes → Type 0
AreSet [] = Unit {0}
AreSet (line ∷ lines) = (no_nul line ≡ true) × AreSet lines

pub AreSet-append : (xs ys : List Bytes) → AreSet xs → AreSet ys → AreSet (xs ++ ys)
AreSet-append [] ys p q = q
AreSet-append (x ∷ xs) ys (e, p) q = (e, AreSet-append xs ys p q)

pub stored_none : (lines : List Bytes) → [] ≡ stored lines → lines ≡ []
stored_none [] e = refl
stored_none (line ∷ lines) e = absurd (ground arith)

-- The first string in the queue is the first line with its terminator.
pub stored_cons :
    (str : Bytes) (rest lines : List Bytes)
    → str ∷ rest ≡ stored lines
    → (line : Bytes) × (more : List Bytes) × (lines ≡ line ∷ more)
      × (str ≡ line ++ 0 ∷ [])
      × (rest ≡ stored more)
stored_cons str rest [] e = absurd (ground arith)
stored_cons str rest (line ∷ more) e = (line, more, refl, ground arith, ground arith)
