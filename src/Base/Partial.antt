-- ===== src/Base/Partial.antt =====
-- What a call leaves, if it returns.
use mathlib.Core.Path.{◌≡◌, refl, subst}
use mathlib.Core.Bool.{Bool, true, false}
use torch_server.Base.Tests.{if◌then◌else◌}
use torch_server.Base.Outcome.{Run, ok, fault, Fault, ◌>>=◌, Returns, returns}

pub data Safely {ℓ κ} {A : Type ℓ} (Post : A → Type κ) : Run A → Type (ℓ ⊔ κ) where
  safe : {v : A} → Post v → Safely Post (ok v)
  broken : {e : Fault} → Safely Post (fault e)

pub Safely-bind {ℓ κ ℓ' κ'} :
    {A : Type ℓ} {B : Type ℓ'} {Mid : A → Type κ} {Post : B → Type κ'} {m : Run A}
    {next : A → Run B}
    → Safely Mid m
    → ((v : A) → Mid v → Safely Post (next v))
    → Safely Post (m >>= next)
Safely-bind (safe mid) follow = follow _ mid
Safely-bind broken follow = broken

pub Safely-map {ℓ κ κ'} :
    {A : Type ℓ} {Post : A → Type κ} {Weaker : A → Type κ'} {m : Run A}
    → Safely Post m
    → ((v : A) → Post v → Weaker v)
    → Safely Weaker m
Safely-map (safe post) weaken = safe (weaken _ post)
Safely-map broken weaken = broken

pub Safely-if {ℓ κ} :
    {A : Type ℓ} {Post : A → Type κ} {yes_run no_run : Run A} (test : Bool)
    → (test ≡ true → Safely Post yes_run)
    → (test ≡ false → Safely Post no_run)
    → Safely Post (if test then yes_run else no_run)
Safely-if true on_yes on_no = on_yes refl
Safely-if false on_yes on_no = on_no refl

pub Returns→Safely {ℓ κ} :
    {A : Type ℓ} {Post : A → Type κ} {m : Run A} → Returns Post m → Safely Post m
Returns→Safely (returns post) = safe post

-- Nothing is known of the step.
pub Safely-after {ℓ κ ℓ'} :
    {A : Type ℓ} {B : Type ℓ'} {Post : B → Type κ} (m : Run A) {next : A → Run B}
    → ((v : A) → Safely Post (next v))
    → Safely Post (m >>= next)
Safely-after (ok v) follow = follow v
Safely-after (fault e) follow = broken

abbrev Holds {ℓ κ} : {A : Type ℓ} → (A → Type κ) → Run A → Type κ
Holds Post (ok v) = Post v
Holds Post (fault e) = Unit {κ}

Safely-Holds {ℓ κ} : {A : Type ℓ} {Post : A → Type κ} {m : Run A} → Safely Post m → Holds Post m
Safely-Holds (safe post) = post
Safely-Holds broken = tt

-- The value of a call that returned.
pub Safely-value {ℓ κ} :
    {A : Type ℓ} {Post : A → Type κ} {m : Run A} {v : A} → Safely Post m → m ≡ ok v → Post v
Safely-value {Post = Post} s e = subst (Holds Post) e (Safely-Holds s)

-- Two facts of one call.
pub Returns-and {ℓ κ κ'} :
    {A : Type ℓ} {Post : A → Type κ} {More : A → Type κ'} {m : Run A}
    → Returns Post m
    → Safely More m
    → Returns (λ v. Post v × More v) m
Returns-and (returns post) s = returns (post, Safely-Holds s)
