-- ===== src/Base/Tests.antt =====
-- Boolean tests on the native numbers, the conditional, and splits that keep an equation.
use Prim.Native.Nat.{ℕ, ◌<◌, compare, Ordering}
use Prim.Native.String.{String}
use mathlib.Core.Path.{◌≡◌, refl}
use mathlib.Core.Logic.{◌≢◌, ◌⊎◌, inl, inr}
use mathlib.Core.Bool.{Bool, true, false}
use mathlib.Core.Option.{Option, none, some}
use native.Mathlib.Omega.{arith}
use text.Mathlib.Text.{◌==◌}
use text.Mathlib.TextEquality.{eq_iff}

abbrev pub ltb : ℕ → ℕ → Bool
ltb a b = elim (compare a b) [ Ordering.lt ↦ true | _ ↦ false ]

abbrev pub leb : ℕ → ℕ → Bool
leb a b = elim (compare a b) [ Ordering.gt ↦ false | _ ↦ true ]

abbrev pub nat_eq : ℕ → ℕ → Bool
nat_eq a b = elim (compare a b) [ Ordering.eq ↦ true | _ ↦ false ]

infix 1 if◌then◌else◌
abbrev pub if◌then◌else◌ {ℓ} : {A : Type ℓ} → Bool → A → A → A
if true then x else y = x
if false then x else y = y

pub ltb→lt : (a b : ℕ) → ltb a b ≡ true → a < b
ltb→lt a b h = ground arith

pub lt→ltb : (a b : ℕ) → a < b → ltb a b ≡ true
lt→ltb a b h = ground arith

pub Bool-cases : (b : Bool) → (b ≡ true) ⊎ (b ≡ false)
Bool-cases true = inl refl
Bool-cases false = inr refl

pub Option-cases {ℓ} : {A : Type ℓ} (o : Option A) → (o ≡ none) ⊎ ((a : A) × (o ≡ some a))
Option-cases none = inl refl
Option-cases (some a) = inr (a, refl)

-- Equality of texts, as a test and as a split.
pub String-cases : (s t : String) → ((s == t) ≡ true) × (s ≡ t) ⊎ ((s == t) ≡ false) × (s ≢ t)
String-cases s t = elim (Bool-cases (s == t)) [
  | inl e ↦ inl (e, (eq_iff s t).0 e)
  | inr e ↦ inr (e, λ p. ground (arith, eq_iff s t))
]

pub ne_of_false : (s t : String) → s ≢ t → (s == t) ≡ false
ne_of_false s t h = ground (arith, eq_iff s t)

-- Two texts that the test tells apart.
pub differ : (s t : String) → (s == t) ≡ false → s ≢ t
differ s t h = ground (arith, eq_iff s t)

-- What holds of both branches holds of the conditional.
pub if_both :
    {A : Type 0} (P : A → Type 0) (b : Bool) {x y : A} → P x → P y → P (if b then x else y)
if_both P true p q = p
if_both P false p q = q

-- The same with the value of the test.
pub if_split :
    {A : Type 0} (P : A → Type 0) (b : Bool) {x y : A}
    → (b ≡ true → P x)
    → (b ≡ false → P y)
    → P (if b then x else y)
if_split P true p q = p refl
if_split P false p q = q refl
