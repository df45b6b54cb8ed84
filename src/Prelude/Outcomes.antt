-- ===== src/Prelude/Outcomes.antt =====
-- What a call can end in: the value that it returns, or the end of the process.
use mathlib.Core.Path.{◌≡◌, refl}
use mathlib.Core.Bool.{Bool, true, false}

-- `bug_on` is `die` of compiler/bug.h. A `segfault` is a read or write through a null or freed
-- pointer or outside a buffer. A `trap` is a division that the processor refuses.
pub data Fault : Type 0 where
  bug_on segfault trap : Fault

pub data Outcome {ℓ} (A : Type ℓ) : Type ℓ where
  ok : A → Outcome A
  fault : Fault → Outcome A

infixl 5 ◌>>=◌ ◌>>◌
abbrev pub ◌>>=◌ {ℓ κ} : {A : Type ℓ} {B : Type κ} → Outcome A → (A → Outcome B) → Outcome B
ok a >>= f = f a
fault e >>= f = fault e

abbrev pub ◌>>◌ {ℓ} : {B : Type ℓ} → Outcome (Unit {0}) → Outcome B → Outcome B
m >> k = m >>= λ _. k

-- `BUG_ON(cond)`.
abbrev pub bug_if : Bool → Outcome (Unit {0})
bug_if true = fault bug_on
bug_if false = ok tt

-- The call returns, with a value that satisfies `P`.
abbrev pub Returns {ℓ κ} : {A : Type ℓ} → Outcome A → (A → Type κ) → Type (ℓ ⊔ κ)
Returns {A} r P = (a : A) × (r ≡ ok a) × P a

-- A chain that returns has a first call that returns.
pub bind-ok {ℓ κ} :
    {A : Type ℓ} {B : Type κ} (m : Outcome A) (f : A → Outcome B) (b : B)
    → m >>= f ≡ ok b
    → (a : A) × (m ≡ ok a) × (f a ≡ ok b)
bind-ok (ok a) f b e = (a, refl, e)
bind-ok (fault x) f b e = absurd (cc e)

-- A chain whose first call returns and whose second one does on what that returns.
pub bind-Returns {ℓ κ μ ν} :
    {A : Type ℓ} {B : Type κ} {P : A → Type μ} {Q : B → Type ν} (r : Outcome A) (f : A → Outcome B)
    → Returns r P
    → ((a : A) → P a → Returns (f a) Q)
    → Returns (r >>= f) Q
bind-Returns r f (a, run, holds) next = let (b, run', q) = next a holds in (b, rw run run', q)
