-- ===== src/Base/Entries.antt =====
-- Two maps without double keys that agree on every key have the same entries.
use Prim.Native.String.{String}
use mathlib.Core.Path.{◌≡◌, refl, sym, ap, ◌∙◌, subst, ap₂}
use mathlib.Core.Logic.{◌≢◌, inl, inr}
use mathlib.Core.Option.{some}
use mathlib.Core.List.{List, [], ◌∷◌, Permᴰ, Memᴰ}
use mathlib.Core.List.Permᴰ
use native.Mathlib.Omega.{arith}
use text.Mathlib.TextEquality.{eq_iff}
use text.Mathlib.TextPositions.{eq_refl}
use rassberry.Base.Tests.{String-cases}
use rassberry.Base.Maps.{
  Map, lookup, erase, lookup-erase, Fresh, Distinct, Distinct-erase, lookup_of_Fresh,
}

pub mem-perm : {A : Type 0} {a : A} {l₁ l₂ : List A} → Permᴰ l₁ l₂ → Memᴰ a l₁ → Memᴰ a l₂
mem-perm Permᴰ.nil m = elim m [ ]
mem-perm (Permᴰ.cons e p) (Memᴰ.head x) = Memᴰ.head (x ∙ e)
mem-perm (Permᴰ.cons e p) (Memᴰ.tail m) = Memᴰ.tail (mem-perm p m)
mem-perm (Permᴰ.swap e f) (Memᴰ.head x) = Memᴰ.tail (Memᴰ.head (x ∙ e))
mem-perm (Permᴰ.swap e f) (Memᴰ.tail (Memᴰ.head x)) = Memᴰ.head (x ∙ f)
mem-perm (Permᴰ.swap e f) (Memᴰ.tail (Memᴰ.tail m)) = Memᴰ.tail (Memᴰ.tail m)
mem-perm (Permᴰ.trans p q) m = mem-perm q (mem-perm p m)

module _ {V : Type 0} where
  erase_of_Fresh : (k : String) (m : Map V) → Fresh k m → erase k m ≡ m
  unfolding erase
  erase_of_Fresh k [] f = refl
  erase_of_Fresh k ((j, w) ∷ m) f = ground (arith, eq_iff j k, erase_of_Fresh k m)

  -- An entry that is looked up may stand in front.
  erase-perm :
      (k : String) (v : V) (m : Map V)
      → Distinct m
      → lookup k m ≡ some v
      → Permᴰ m ((k, v) ∷ erase k m)
  unfolding lookup erase
  erase-perm k v [] d h = cc
  erase-perm k v ((j, w) ∷ m) d h = elim (String-cases j k) [
    | inl (e, p) ↦
        let q : w ≡ v = ground arith in
        let f : Fresh k m = subst (λ i. Fresh i m) p d.0 in
        rw e (
          Permᴰ.cons (ap₂ (λ i u. (i, u)) p q)
            (subst (λ x. Permᴰ m x) (sym (erase_of_Fresh k m f)) (Permᴰ.refl m)))
    | inr (e, n) ↦
        let r : lookup k m ≡ some v = ground arith in
        rw e (Permᴰ.trans (Permᴰ.cons refl (erase-perm k v m d.1 r)) (Permᴰ.swap refl refl))
  ]

  agree_behind :
      (k : String) (v : V) (m n : Map V)
      → Fresh k m
      → ((j : String) → lookup j ((k, v) ∷ m) ≡ lookup j n)
      → (j : String) → lookup j m ≡ lookup j (erase k n)
  unfolding lookup
  agree_behind k v m n f h j = ground (
    arith,
    lookup-erase k j n,
    h j,
    eq_iff k j,
    λ (p : k ≡ j). lookup_of_Fresh j m (subst (λ i. Fresh i m) p f),
  )

  none_agree : (n : Map V) → ((k : String) → lookup k [] ≡ lookup k n) → n ≡ []
  unfolding lookup
  none_agree [] h = refl
  none_agree ((k, v) ∷ n) h = let e = h k in ground (arith, eq_refl k)

  -- Maps without double keys that agree on every key are permutations of each other.
  pub perm_of_agree :
      (m n : Map V) → Distinct m → Distinct n → ((k : String) → lookup k m ≡ lookup k n) → Permᴰ m n
  unfolding lookup
  perm_of_agree [] n d e h = subst (λ x. Permᴰ [] x) (sym (none_agree n h)) Permᴰ.nil
  perm_of_agree ((k, v) ∷ m) n d e h =
      let found : lookup k n ≡ some v = sym (h k) ∙ rw (eq_refl k) refl in
      Permᴰ.trans
        (Permᴰ.cons refl
          (perm_of_agree m (erase k n) d.1 (Distinct-erase k n e) (agree_behind k v m n d.0 h)))
        (Permᴰ.symm (erase-perm k v n e found))

  mem_of_lookup : (k : String) (v : V) (m : Map V) → lookup k m ≡ some v → Memᴰ (k, v) m
  unfolding lookup
  mem_of_lookup k v [] h = cc
  mem_of_lookup k v ((j, w) ∷ m) h = elim (String-cases j k) [
    | inl (e, p) ↦ let q : w ≡ v = ground arith in Memᴰ.head (sym (ap₂ (λ i u. (i, u)) p q))
    | inr (e, n) ↦ Memᴰ.tail (mem_of_lookup k v m (ground arith))
  ]

  Fresh-mem : (j k : String) (v : V) (m : Map V) → Fresh j m → Memᴰ (k, v) m → k ≢ j
  Fresh-mem j k v [] f h = elim h [ ]
  Fresh-mem j k v (e ∷ m) f (Memᴰ.head p) = λ q. f.0 (ap (λ x. x.0) (sym p) ∙ q)
  Fresh-mem j k v (e ∷ m) f (Memᴰ.tail h) = Fresh-mem j k v m f.1 h

  lookup_of_mem :
      (k : String) (v : V) (m : Map V) → Distinct m → Memᴰ (k, v) m → lookup k m ≡ some v
  unfolding lookup
  lookup_of_mem k v [] d h = elim h [ ]
  lookup_of_mem k v ((j, w) ∷ m) d (Memᴰ.head p) =
      let q : k ≡ j = ap (λ x. x.0) p in
      let r : v ≡ w = ap (λ x. x.1) p in ground (arith, eq_iff j k)
  lookup_of_mem k v ((j, w) ∷ m) d (Memᴰ.tail h) =
      let n = Fresh-mem j k v m d.0 h in ground (arith, eq_iff j k, lookup_of_mem k v m d.1 h)

  -- Another order of the entries holds the same.
  pub lookup_of_perm :
      (k : String) (v : V) (m n : Map V)
      → Permᴰ m n
      → Distinct n
      → lookup k m ≡ some v
      → lookup k n ≡ some v
  lookup_of_perm k v m n p d h = lookup_of_mem k v n d (mem-perm p (mem_of_lookup k v m h))
