-- ===== src/Base/Lists.antt =====
-- Lists measured by native numbers, under the library's names.
use rassberry.Base.Tests.{leb, if◌then◌else◌}
use Prim.Native.Nat.{ℕ, zero, suc, ◌+◌}
use mathlib.Core.Path.{◌≡◌, refl, ap}
use mathlib.Core.List.{List, [], ◌∷◌, ◌++◌}
use native.Mathlib.Omega.{arith}

module _ {ℓ} {A : Type ℓ} where
  abbrev pub length : List A → ℕ
  length [] = 0
  length (x ∷ xs) = suc (length xs)

  pub length-append : (xs ys : List A) → length (xs ++ ys) ≡ length xs + length ys
  length-append [] ys = omega arith
  length-append (x ∷ xs) ys = omega (arith, length-append xs ys)

-- Every entry satisfies `P`: a predicate that computes to a tuple.
abbrev pub All {ℓ κ} : {A : Type ℓ} → (A → Type κ) → List A → Type κ
All P [] = Unit
All P (x ∷ xs) = P x × All P xs

pub All-append {ℓ κ} :
    {A : Type ℓ} (P : A → Type κ) (l m : List A) → All P l → All P m → All P (l ++ m)
All-append P [] m h k = k
All-append P (a ∷ l) m h k = (h.0, All-append P l m h.1 k)

module _ {ℓ} {A : Type ℓ} where
  abbrev pub take : ℕ → List A → List A
  take zero l = []
  take (suc n) [] = []
  take (suc n) (a ∷ l) = a ∷ take n l

abbrev pub min : ℕ → ℕ → ℕ
min a b = if leb a b then a else b

pub append_nil {ℓ} : {A : Type ℓ} (l : List A) → l ++ [] ≡ l
append_nil [] = refl
append_nil (a ∷ l) = ap (λ r. a ∷ r) (append_nil l)

pub append_assoc {ℓ} : {A : Type ℓ} (l m n : List A) → (l ++ m) ++ n ≡ l ++ (m ++ n)
append_assoc [] m n = refl
append_assoc (a ∷ l) m n = ap (λ r. a ∷ r) (append_assoc l m n)
