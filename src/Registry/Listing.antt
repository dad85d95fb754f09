-- ===== src/Registry/Listing.antt =====
-- `List` and `Kernels` sort what `range` visits: the order of the visits does not show.
use mathlib.Core.List.{Permᴰ}
use rassberry.Base.{
  String, List, true, [], ◌∷◌, ◌≡◌, ◌≢◌, refl, sym, ap, ◌∙◌, subst, map, All, arith, Bool-cases,
  inl, inr,
}
use rassberry.Base.Maps.{Map, Fresh, Distinct}
use rassberry.Base.Order.{text_lt, text_lt_irrefl, text_lt_trans, text_lt_total}
use rassberry.Registry.{
  KernelRecord, DiscoveryRecord, place, sort_by, list, record_key, discovery_record,
}

All-perm {ℓ} : {A : Type 0} (P : A → Type ℓ) {l₁ l₂ : List A} → Permᴰ l₁ l₂ → All P l₁ → All P l₂
All-perm P Permᴰ.nil h = tt
All-perm P (Permᴰ.cons e p) h = (subst P e h.0, All-perm P p h.1)
All-perm P (Permᴰ.swap e f) h = (subst P f h.1.0, (subst P e h.0, h.1.1))
All-perm P (Permᴰ.trans p q) h = All-perm P q (All-perm P p h)

module _ {A : Type 0} (key : A → String) where
  -- No two values have one key.
  abbrev Apart : List A → Type 0
  Apart [] = Unit
  Apart (a ∷ l) = All (λ b. key b ≢ key a) l × Apart l

  -- Each key is smaller than every key behind it.
  abbrev pub IsSorted : List A → Type 0
  IsSorted [] = Unit
  IsSorted (a ∷ l) = All (λ b. text_lt (key a) (key b) ≡ true) l × IsSorted l

  abbrev Away : String → List A → Type 0
  Away k = All (λ b. key b ≢ k)

  Apart-perm : {l₁ l₂ : List A} → Permᴰ l₁ l₂ → Apart l₁ → Apart l₂
  Apart-perm Permᴰ.nil h = tt
  Apart-perm (Permᴰ.cons {l₁} e p) h =
      (All-perm _ p (subst (λ k. Away k l₁) (ap key e) h.0), Apart-perm p h.1)
  Apart-perm (Permᴰ.swap {l} e f) h = (
    (λ x. h.0.0 (ap key f ∙ sym x ∙ sym (ap key e)), subst (λ k. Away k l) (ap key f) h.1.0),
    (subst (λ k. Away k l) (ap key e) h.0.1, h.1.1),
  )
  Apart-perm (Permᴰ.trans p q) h = Apart-perm q (Apart-perm p h)

  -- Values of different keys may be placed in either order.
  place_comm :
      (a b : A) (l : List A)
      → key a ≢ key b
      → place key a (place key b l) ≡ place key b (place key a l)
  unfolding place
  place_comm a b [] n = ground (
    arith,
    text_lt_total (key a) (key b) n,
    text_lt_trans (key a) (key b) (key a),
    text_lt_irrefl (key a),
  )
  place_comm a b (c ∷ l) n = ground (
    arith,
    text_lt_total (key a) (key b) n,
    text_lt_trans (key a) (key b) (key a),
    text_lt_irrefl (key a),
    text_lt_trans (key c) (key a) (key b),
    text_lt_trans (key c) (key b) (key a),
    place_comm a b l n,
  )

  sort_by-perm : {l₁ l₂ : List A} → Permᴰ l₁ l₂ → Apart l₁ → sort_by key l₁ ≡ sort_by key l₂
  unfolding sort_by
  sort_by-perm Permᴰ.nil h = refl
  sort_by-perm (Permᴰ.cons {b} {l₁} e p) h =
      ap (λ a. place key a (sort_by key l₁)) e ∙ ap (place key b) (sort_by-perm p h.1)
  sort_by-perm (Permᴰ.swap {a} {b} {a'} {b'} {l} e f) h =
      place_comm a b (sort_by key l) (λ x. h.0.0 (sym x))
      ∙ ap (λ x. place key x (place key a (sort_by key l))) f
      ∙ ap (λ x. place key a' (place key x (sort_by key l))) e
  sort_by-perm (Permᴰ.trans p q) h = sort_by-perm p h ∙ sort_by-perm q (Apart-perm p h)

  place-All : (P : A → Type 0) (a : A) (l : List A) → P a → All P l → All P (place key a l)
  unfolding place
  place-All P a [] p h = (p, tt)
  place-All P a (b ∷ l) p h = ground (arith, place-All P a l p)

  above_trans :
      (j k : String) (l : List A)
      → text_lt j k ≡ true
      → All (λ b. text_lt k (key b) ≡ true) l
      → All (λ b. text_lt j (key b) ≡ true) l
  above_trans j k [] p h = tt
  above_trans j k (b ∷ l) p h = (text_lt_trans j k (key b) p h.0, above_trans j k l p h.1)

  place-IsSorted : (a : A) (l : List A) → Away (key a) l → IsSorted l → IsSorted (place key a l)
  unfolding place
  place-IsSorted a [] n h = (tt, tt)
  place-IsSorted a (b ∷ l) n h = elim (Bool-cases (text_lt (key b) (key a))) [
    | inl e ↦ rw (e, place) ((place-All _ a l e h.0, place-IsSorted a l n.1 h.1))
    | inr e ↦
        let p : text_lt (key a) (key b) ≡ true = text_lt_total (key b) (key a) n.0 e in
        rw (e, place) (((p, above_trans (key a) (key b) l p h.0), h))
  ]

  sort_by-All : (P : A → Type 0) (l : List A) → All P l → All P (sort_by key l)
  unfolding sort_by
  sort_by-All P [] h = tt
  sort_by-All P (a ∷ l) h = place-All P a (sort_by key l) h.0 (sort_by-All P l h.1)

  sort_by-IsSorted : (l : List A) → Apart l → IsSorted (sort_by key l)
  unfolding sort_by
  sort_by-IsSorted [] h = tt
  sort_by-IsSorted (a ∷ l) h =
      place-IsSorted a (sort_by key l) (sort_by-All _ l h.0) (sort_by-IsSorted l h.1)

  same : (l : List A) → Permᴰ l l
  same [] = Permᴰ.nil
  same (a ∷ l) = Permᴰ.cons refl (same l)

  place-permᴰ : (a : A) (l : List A) → Permᴰ (place key a l) (a ∷ l)
  unfolding place
  place-permᴰ a [] = Permᴰ.cons refl Permᴰ.nil
  place-permᴰ a (b ∷ l) = elim (Bool-cases (text_lt (key b) (key a))) [
    | inl e ↦ rw (e, place) (Permᴰ.trans (Permᴰ.cons refl (place-permᴰ a l)) (Permᴰ.swap refl refl))
    | inr e ↦ rw (e, place) (same (a ∷ b ∷ l))
  ]

  sort_by-permᴰ : (l : List A) → Permᴰ (sort_by key l) l
  unfolding sort_by
  sort_by-permᴰ [] = Permᴰ.nil
  sort_by-permᴰ (a ∷ l) =
      Permᴰ.trans (place-permᴰ a (sort_by key l)) (Permᴰ.cons refl (sort_by-permᴰ l))

visited : Map KernelRecord → List DiscoveryRecord
visited = map (λ e. discovery_record e.0 e.1)

Away-visited :
    (k : String) (order : Map KernelRecord) → Fresh k order → Away record_key k (visited order)
unfolding visited
Away-visited k [] h = tt
Away-visited k ((j, rec) ∷ order) h = (h.0, Away-visited k order h.1)

Apart-visited : (order : Map KernelRecord) → Distinct order → Apart record_key (visited order)
unfolding visited
Apart-visited [] h = tt
Apart-visited ((k, rec) ∷ order) h = (Away-visited k order h.0, Apart-visited order h.1)

-- Over a map with no key twice, `List` gives each entry visited once, and in the strict order of
-- the ids.
pub list-IsSorted :
    (order : Map KernelRecord)
    → Distinct order
    → IsSorted record_key (list order)
      × Permᴰ (list order) (map (λ e. discovery_record e.0 e.1) order)
unfolding list visited
list-IsSorted order h = (
  sort_by-IsSorted record_key (visited order) (Apart-visited order h),
  sort_by-permᴰ record_key (visited order),
)

visited-perm : {o₁ o₂ : Map KernelRecord} → Permᴰ o₁ o₂ → Permᴰ (visited o₁) (visited o₂)
unfolding visited
visited-perm Permᴰ.nil = Permᴰ.nil
visited-perm (Permᴰ.cons e p) = Permᴰ.cons (ap (λ e. discovery_record e.0 e.1) e) (visited-perm p)
visited-perm (Permᴰ.swap e f) =
    Permᴰ.swap (ap (λ e. discovery_record e.0 e.1) e) (ap (λ e. discovery_record e.0 e.1) f)
visited-perm (Permᴰ.trans p q) = Permᴰ.trans (visited-perm p) (visited-perm q)

-- `List` does not show the order in which the runtime visits the map.
pub list-perm : {o₁ o₂ : Map KernelRecord} → Permᴰ o₁ o₂ → Distinct o₁ → list o₁ ≡ list o₂
unfolding list visited
list-perm {o₁} p h = sort_by-perm record_key (visited-perm p) (Apart-visited o₁ h)
