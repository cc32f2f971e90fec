-- ===== src/Common/Tests.antt =====
-- Boolean tests on the native numbers, the conditional, and case splits on computed values.
use Prim.Native.Nat.{ℕ, ◌≤◌, ◌<◌, compare, Ordering}
use mathlib.Core.Path.{◌≡◌, refl}
use mathlib.Core.Logic.{◌↔◌, ◌⊎◌, inl, inr}
use mathlib.Core.Bool.{Bool, true, false}
use mathlib.Core.Option
use mathlib.Core.Option.{Option, none, some}
use native.Mathlib.Omega.{arith}

abbrev pub ltb : ℕ → ℕ → Bool
ltb a b = elim (compare a b) [ Ordering.lt ↦ true | _ ↦ false ]

abbrev pub leb : ℕ → ℕ → Bool
leb a b = elim (compare a b) [ Ordering.gt ↦ false | _ ↦ true ]

infix 50 ◌==◌
abbrev pub ◌==◌ : ℕ → ℕ → Bool
a == b = elim (compare a b) [ Ordering.eq ↦ true | _ ↦ false ]

infix 1 if◌then◌else◌
abbrev pub if◌then◌else◌ {ℓ} : {A : Type ℓ} → Bool → A → A → A
if true then x else y = x
if false then x else y = y

pub ltb→lt : (a b : ℕ) → ltb a b ≡ true → a < b
ltb→lt a b h = ground arith

pub lt→ltb : (a b : ℕ) → a < b → ltb a b ≡ true
lt→ltb a b h = ground arith

pub leb→le : (a b : ℕ) → leb a b ≡ true → a ≤ b
leb→le a b h = ground arith

pub ==_iff : (a b : ℕ) → ((a == b) ≡ true) ↔ (a ≡ b)
==_iff a b = ground arith

pub ruleset tests = (arith, ltb→lt, lt→ltb, leb→le)

pub Bool-cases : (b : Bool) → (b ≡ true) ⊎ (b ≡ false)
Bool-cases true = inl refl
Bool-cases false = inr refl

pub Option-cases {ℓ} : {A : Type ℓ} (o : Option A) → (o ≡ none) ⊎ ((a : A) × (o ≡ some a))
Option-cases none = inl refl
Option-cases (some a) = inr (a, refl)

-- What holds of the value of an operation, if it returns one.
abbrev pub Holds {ℓ κ} : {A : Type ℓ} → (A → Type κ) → Option A → Type κ
Holds P none = Unit
Holds P (some a) = P a

pub Holds-some {ℓ κ} :
    {A : Type ℓ} (P : A → Type κ) (o : Option A) {a : A} → Holds P o → o ≡ some a → P a
Holds-some P o h e = rw e at h

pub Holds-intro {ℓ κ} :
    {A : Type ℓ} (P : A → Type κ) (o : Option A) → ((a : A) → o ≡ some a → P a) → Holds P o
Holds-intro P none h = tt
Holds-intro P (some a) h = h a refl

pub Holds-map {ℓ κ μ} :
    {A : Type ℓ} {B : Type κ} (Q : B → Type μ) (f : A → B) (o : Option A)
    → Holds (λ a. Q (f a)) o
    → Holds Q (Option.map f o)
Holds-map Q f none h = tt
Holds-map Q f (some a) h = h

pub Holds-imp {ℓ κ μ} :
    {A : Type ℓ} (P : A → Type κ) (Q : A → Type μ) (o : Option A)
    → ((a : A) → P a → Q a)
    → Holds P o
    → Holds Q o
Holds-imp P Q none f h = tt
Holds-imp P Q (some a) f h = f a h

pub Holds-and {ℓ κ μ} :
    {A : Type ℓ} (P : A → Type κ) (Q : A → Type μ) (o : Option A)
    → Holds P o
    → Holds Q o
    → Holds (λ a. P a × Q a) o
Holds-and P Q none h k = tt
Holds-and P Q (some a) h k = (h, k)

-- The operation returns a value, and this holds of it.
pub none_ne_some {ℓ} : {A : Type ℓ} {a : A} → ¬ (◌≡◌ {A = Option A} none (some a))
none_ne_some e = cc

abbrev pub Returns {ℓ} : {A : Type ℓ} → (A → Type 0) → Option A → Type 0
Returns P none = ⊥
Returns P (some a) = P a

pub Returns-map {ℓ κ} :
    {A : Type ℓ} {B : Type κ} (Q : B → Type 0) (f : A → B) (o : Option A)
    → Returns (λ a. Q (f a)) o
    → Returns Q (Option.map f o)
Returns-map Q f none h = h
Returns-map Q f (some a) h = h

pub Returns-imp {ℓ} :
    {A : Type ℓ} (P Q : A → Type 0) (o : Option A)
    → ((a : A) → P a → Q a)
    → Returns P o
    → Returns Q o
Returns-imp P Q none f h = h
Returns-imp P Q (some a) f h = f a h

pub Returns-value {ℓ} :
    {A : Type ℓ} (P : A → Type 0) (o : Option A) → Returns P o → (a : A) × (o ≡ some a) × P a
Returns-value P none h = absurd h
Returns-value P (some a) h = (a, refl, h)

pub Returns-and {ℓ κ} :
    {A : Type ℓ} (P : A → Type 0) (Q : A → Type κ) (o : Option A)
    → Returns P o
    → Holds Q o
    → (a : A) × (o ≡ some a) × P a × Q a
Returns-and P Q none h k = absurd h
Returns-and P Q (some a) h k = (a, refl, h, k)

pub Returns-Holds {ℓ} :
    {A : Type ℓ} (P Q : A → Type 0) (o : Option A) → Returns P o → Holds Q o → Returns Q o
Returns-Holds P Q none h k = absurd h
Returns-Holds P Q (some a) h k = k

infixl 5 ◌>>=◌
abbrev pub ◌>>=◌ {ℓ κ} : {A : Type ℓ} {B : Type κ} → Option A → (A → Option B) → Option B
none >>= f = none
some a >>= f = f a

pub Holds-bind {ℓ κ μ} :
    {A : Type ℓ} {B : Type κ} (Q : B → Type μ) (o : Option A) (f : A → Option B)
    → ((a : A) → o ≡ some a → Holds Q (f a))
    → Holds Q (o >>= f)
Holds-bind Q none f h = tt
Holds-bind Q (some a) f h = h a refl
