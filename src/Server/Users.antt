-- ===== src/Server/Users.antt =====
-- code/server/server.cpp: the map of the connections, and how many of them are open.
use torch_server.Base.{
  ℕ, ◌+◌, ◌≤◌, ◌≡◌, refl, List, [], ◌∷◌, Option, some, none, arith, ◌==◌, if◌then◌else◌, Bool-cases,
  inl, inr,
}
use torch_server.Http.Conn.{Conn}
use torch_server.Server.{find, store}

module _ {Prob : Type 0} where
  abbrev pub opens : Conn Prob → ℕ
  opens c = if c.is_closed then 0 else 1

  abbrev pub opens_at : Option (Conn Prob) → ℕ
  opens_at none = 0
  opens_at (some c) = opens c

  -- The open connections.
  unfoldable pub count_open : List (ℕ × Conn Prob) → ℕ
  count_open [] = 0
  count_open ((k, c) ∷ users) = opens c + count_open users

  pub find-store :
      (fd k : ℕ) (c : Conn Prob) (users : List (ℕ × Conn Prob))
      → find k (store fd c users) ≡ (if fd == k then some c else find k users)
  unfolding find store
  find-store fd k c [] = refl
  find-store fd k c ((j, d) ∷ users) = ground (arith, find-store fd k c users)

  pub count_open-store :
      (fd : ℕ) (c : Conn Prob) (users : List (ℕ × Conn Prob))
      → count_open (store fd c users) + opens_at (find fd users) ≡ count_open users + opens c
  unfolding find store count_open
  count_open-store fd c [] = omega arith
  count_open-store fd c ((j, d) ∷ users) = elim (Bool-cases (j == fd)) [
    | inl here ↦ rw here (omega arith)
    | inr there ↦ rw there (omega (arith, count_open-store fd c users))
  ]

  -- An open connection is one of those counted.
  pub count_open_positive :
      (fd : ℕ) (users : List (ℕ × Conn Prob)) → opens_at (find fd users) ≤ count_open users
  unfolding find count_open
  count_open_positive fd [] = omega arith
  count_open_positive fd ((j, d) ∷ users) = elim (Bool-cases (j == fd)) [
    | inl here ↦ rw here (omega arith)
    | inr there ↦ rw there (omega (arith, count_open_positive fd users))
  ]
