-- ===== src/Base/Maps.antt =====
-- Go's `map[string]V` as an association list. An entry that is written again keeps its place.
use Prim.Native.String.{String}
use mathlib.Core.Path.{◌≡◌, refl, subst₂}
use mathlib.Core.Logic.{◌≢◌, inl, inr}
use mathlib.Core.Option.{Option, none, some}
use mathlib.Core.List.{List, [], ◌∷◌}
use native.Mathlib.Omega.{arith}
use text.Mathlib.Text.{◌==◌}
use text.Mathlib.TextEquality.{eq_iff}
use rassberry.Base.Tests.{if◌then◌else◌, String-cases}
use rassberry.Base.Lists.{All}

abbrev pub Map : Type 0 → Type 0
Map V = List (String × V)

module _ {V : Type 0} where
  unfoldable pub lookup : String → Map V → Option V
  lookup k [] = none
  lookup k ((j, v) ∷ m) = if j == k then some v else lookup k m

  unfoldable pub insert : String → V → Map V → Map V
  insert k v [] = (k, v) ∷ []
  insert k v ((i, u) ∷ rest) = if i == k then (i, v) ∷ rest else (i, u) ∷ insert k v rest

  -- Every entry of the key goes, so a second look finds none.
  unfoldable pub erase : String → Map V → Map V
  erase k [] = []
  erase k ((j, w) ∷ m) = if j == k then erase k m else (j, w) ∷ erase k m

  pub lookup-insert :
      (k j : String) (v : V) (m : Map V)
      → lookup j (insert k v m) ≡ (if k == j then some v else lookup j m)
  unfolding lookup insert
  lookup-insert k j v [] = refl
  lookup-insert k j v ((i, u) ∷ rest) =
      ground (arith, lookup-insert k j v rest, eq_iff i k, eq_iff i j, eq_iff k j)

  pub lookup-erase :
      (k j : String) (m : Map V) → lookup j (erase k m) ≡ (if k == j then none else lookup j m)
  unfolding lookup erase
  lookup-erase k j [] = ground arith
  lookup-erase k j ((i, w) ∷ m) =
      ground (arith, eq_iff k j, eq_iff i k, eq_iff i j, lookup-erase k j m)

  -- The key occurs in no entry.
  abbrev pub Fresh : String → Map V → Type 0
  Fresh k = All (λ e. e.0 ≢ k)

  -- No key occurs twice.
  abbrev pub Distinct : Map V → Type 0
  Distinct [] = Unit
  Distinct ((k, v) ∷ m) = Fresh k m × Distinct m

  Fresh-insert : (i k : String) (v : V) (m : Map V) → k ≢ i → Fresh i m → Fresh i (insert k v m)
  unfolding insert
  Fresh-insert i k v [] n f = (n, tt)
  Fresh-insert i k v ((j, w) ∷ m) n f = ground (arith, Fresh-insert i k v m n)

  pub Distinct-insert : (k : String) (v : V) (m : Map V) → Distinct m → Distinct (insert k v m)
  unfolding insert
  Distinct-insert k v [] d = (tt, tt)
  Distinct-insert k v ((j, w) ∷ m) d =
      ground (arith, eq_iff j k, Fresh-insert j k v m, Distinct-insert k v m)

  Fresh-erase : (i k : String) (m : Map V) → Fresh i m → Fresh i (erase k m)
  unfolding erase
  Fresh-erase i k [] f = tt
  Fresh-erase i k ((j, w) ∷ m) f = ground (arith, Fresh-erase i k m)

  pub Distinct-erase : (k : String) (m : Map V) → Distinct m → Distinct (erase k m)
  unfolding erase
  Distinct-erase k [] d = tt
  Distinct-erase k ((j, w) ∷ m) d = ground (arith, Fresh-erase j k m, Distinct-erase k m)

  pub lookup_of_Fresh : (k : String) (m : Map V) → Fresh k m → lookup k m ≡ none
  unfolding lookup
  lookup_of_Fresh k [] f = refl
  lookup_of_Fresh k ((j, w) ∷ m) f = ground (arith, eq_iff j k, lookup_of_Fresh k m f.1)

  -- A predicate on entries survives a write of an entry that has it, and any deletion.
  pub All-insert {κ} :
      (P : String × V → Type κ) (k : String) (v : V) (m : Map V)
      → ((j : String) → j ≡ k → P (j, v))
      → All P m
      → All P (insert k v m)
  unfolding insert
  All-insert P k v [] h a = (h k refl, tt)
  All-insert P k v ((j, w) ∷ m) h a = ground (arith, eq_iff j k, h j, All-insert P k v m h)

  pub All-erase {κ} :
      (P : String × V → Type κ) (k : String) (m : Map V) → All P m → All P (erase k m)
  unfolding erase
  All-erase P k [] a = tt
  All-erase P k ((j, w) ∷ m) a = ground (arith, All-erase P k m)

  pub lookup-All {κ} :
      (P : String × V → Type κ) (k : String) (v : V) (m : Map V)
      → All P m
      → lookup k m ≡ some v
      → P (k, v)
  unfolding lookup
  lookup-All P k v [] a h = cc
  lookup-All P k v ((j, w) ∷ m) a h = elim (String-cases j k) [
    | inl (e, p) ↦ let q : w ≡ v = ground arith in subst₂ (λ i u. P (i, u)) p q a.0
    | inr (e, n) ↦ let r : lookup k m ≡ some v = ground arith in lookup-All P k v m a.1 r
  ]
