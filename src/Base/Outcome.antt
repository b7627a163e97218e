-- ===== src/Base/Outcome.antt =====
-- How a call ends: with a value, or not at all.
use mathlib.Core.Path.{◌≡◌, refl}
use mathlib.Core.Bool.{Bool, true, false}
use mathlib.Core.Option.{Option, none, some}
use mathlib.Core.Logic.{◌≢◌}
use native.Mathlib.Omega.{arith}
use torch_server.Base.Tests.{if◌then◌else◌}

-- Why a call does not return: a failed `assert`, an access outside an object, an exception that
-- nothing catches, a wait on a condition variable whose condition does not hold. `no_fuel` is the
-- model's own and stands for a loop that has not ended.
pub data Fault : Type 0 where
  assertion out_of_bounds uncaught waits no_fuel : Fault

pub data Run {ℓ} (A : Type ℓ) : Type ℓ where
  ok : A → Run A
  fault : Fault → Run A

infixl 5 ◌>>=◌ ◌>>◌
abbrev pub ◌>>=◌ {ℓ κ} : {A : Type ℓ} {B : Type κ} → Run A → (A → Run B) → Run B
ok a >>= f = f a
fault e >>= f = fault e

abbrev pub ◌>>◌ {ℓ} : {B : Type ℓ} → Run (Unit {0}) → Run B → Run B
m >> k = m >>= λ _. k

-- `assert(b)`
abbrev pub assert : Bool → Run (Unit {0})
assert true = ok tt
assert false = fault assertion

abbrev pub or_fault {ℓ} : {A : Type ℓ} → Option A → Fault → Run A
or_fault (some a) e = ok a
or_fault none e = fault e

-- The call ends without a fault, in a value of which `Post` holds.
pub data Returns {ℓ κ} {A : Type ℓ} (Post : A → Type κ) : Run A → Type (ℓ ⊔ κ) where
  returns : {v : A} → Post v → Returns Post (ok v)

-- The value is known beforehand.
pub Returns-of {ℓ κ} :
    {A : Type ℓ} {Post : A → Type κ} {m : Run A} (v : A) → m ≡ ok v → Post v → Returns Post m
Returns-of v e post = rw e (returns post)

-- A weaker postcondition.
pub Returns-map {ℓ κ κ'} :
    {A : Type ℓ} {Post : A → Type κ} {Weaker : A → Type κ'} {m : Run A}
    → Returns Post m
    → ((v : A) → Post v → Weaker v)
    → Returns Weaker m
Returns-map (returns post) weaken = returns (weaken _ post)

-- A test, with its outcome at hand in both branches.
pub Returns-if {ℓ κ} :
    {A : Type ℓ} {Post : A → Type κ} {yes_run no_run : Run A} (test : Bool)
    → (test ≡ true → Returns Post yes_run)
    → (test ≡ false → Returns Post no_run)
    → Returns Post (if test then yes_run else no_run)
Returns-if true on_yes on_no = on_yes refl
Returns-if false on_yes on_no = on_no refl

-- A step, and what follows it on the values that the step may give.
pub Returns-bind {ℓ κ ℓ' κ'} :
    {A : Type ℓ} {B : Type ℓ'} {Mid : A → Type κ} {Post : B → Type κ'} {m : Run A}
    {next : A → Run B}
    → Returns Mid m
    → ((v : A) → Mid v → Returns Post (next v))
    → Returns Post (m >>= next)
Returns-bind (returns mid) follow = follow _ mid

-- The value, taken out.
pub Returns-value {ℓ κ} :
    {A : Type ℓ} {Post : A → Type κ} {m : Run A} → Returns Post m → (v : A) × (m ≡ ok v) × Post v
Returns-value (returns post) = (_, refl, post)

-- The call comes to an end: with a value of which `Post` holds, or by a fault of the program's own.
pub data Ends {ℓ κ} {A : Type ℓ} (Post : A → Type κ) : Run A → Type (ℓ ⊔ κ) where
  ends : {v : A} → Post v → Ends Post (ok v)
  breaks : (e : Fault) → e ≢ no_fuel → Ends Post (fault e)

pub Ends-bind {ℓ κ ℓ' κ'} :
    {A : Type ℓ} {B : Type ℓ'} {Mid : A → Type κ} {Post : B → Type κ'} {m : Run A}
    {next : A → Run B}
    → Ends Mid m
    → ((v : A) → Mid v → Ends Post (next v))
    → Ends Post (m >>= next)
Ends-bind (ends mid) go_on = go_on _ mid
Ends-bind (breaks e other) go_on = breaks e other

pub Ends-map {ℓ κ κ'} :
    {A : Type ℓ} {Post : A → Type κ} {Post' : A → Type κ'} {m : Run A}
    → Ends Post m
    → ((v : A) → Post v → Post' v)
    → Ends Post' m
Ends-map (ends post) follow = ends (follow _ post)
Ends-map (breaks e other) follow = breaks e other

pub Ends-if {ℓ κ} :
    {A : Type ℓ} {Post : A → Type κ} {m m' : Run A} (b : Bool)
    → (b ≡ true → Ends Post m)
    → (b ≡ false → Ends Post m')
    → Ends Post (if b then m else m')
Ends-if true left right = left refl
Ends-if false left right = right refl

pub Ends-assert {κ} : {Post : Unit {0} → Type κ} (b : Bool) → Post tt → Ends Post (assert b)
Ends-assert true post = ends post
Ends-assert false post = breaks assertion (ground arith)

pub Ends-or_fault {ℓ} :
    {A : Type ℓ} (o : Option A) (e : Fault) → e ≢ no_fuel → Ends (λ _. Unit {0}) (or_fault o e)
Ends-or_fault (some a) e other = ends tt
Ends-or_fault none e other = breaks e other

pub Returns→Ends {ℓ κ} : {A : Type ℓ} {Post : A → Type κ} {m : Run A} → Returns Post m → Ends Post m
Returns→Ends (returns post) = ends post

-- After a call that returns, any property of the rest is one of the whole.
pub Returns-then {ℓ κ ℓ' κ'} :
    {A : Type ℓ} {B : Type ℓ'} {Mid : A → Type κ} (Goal : Run B → Type κ') {m : Run A}
    {rest : A → Run B}
    → Returns Mid m
    → ((v : A) → Mid v → Goal (rest v))
    → Goal (m >>= rest)
Returns-then Goal (returns mid) continue = continue _ mid
