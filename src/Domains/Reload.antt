-- ===== src/Domains/Reload.antt =====
-- What runs behind a `Reload`.
use text.Mathlib.TextEquality.{eq_iff}
use rassberry.Base.{
  String, Bool, List, true, false, none, some, [], ◌∷◌, ◌≡◌, ◌==◌, refl, ◌||◌, sym, ◌∙◌, ap, arith,
  ◌⊎◌, inl, inr, Option-cases, String-cases, if_both, subst, eq_refl,
}
use rassberry.Base.Maps.{Map, lookup, insert, lookup-insert, Distinct, Fresh, lookup_of_Fresh}
use rassberry.Domains.{
  DomainSpec, DomainRun, DomainManager, Environment, index_of, keeps, stop_removed, reload,
}
use rassberry.Domains.Renew.{RunsAs, Keyed, lookup-stop_domain, renew_all-frame, renew_all-RunsAs}

-- Whether the id is in the list.
abbrev pub has : String → List String → Bool
has j [] = false
has j (id ∷ ids) = id == j || has j ids

module _ {S H E : Type 0} (env : Environment S H E) where
  -- An id that is not in the index, and runs only if it is still to be visited, does not run behind
  -- the visits.
  stop_removed-gone :
      (index : Map DomainSpec) (ids : List String) (j : String) (m : DomainManager S H E)
      → lookup j index ≡ none
      → (has j ids ≡ true) ⊎ (lookup j m.runs ≡ none)
      → lookup j (stop_removed env index ids m).runs ≡ none
  unfolding stop_removed
  stop_removed-gone index [] j m h (inl k) = cc
  stop_removed-gone index [] j m h (inr k) = k
  stop_removed-gone index (id ∷ ids) j m h k = elim (String-cases id j) [
    | inl (e, p) ↦
        let x : keeps (lookup id index) ≡ false = ap (λ i. keeps (lookup i index)) p ∙ ap keeps h in
        stop_removed-gone index ids j _ h (inr (rw x (lookup-stop_domain env id j m ∙ rw e)))
    | inr (e, n) ↦ stop_removed-gone index ids j _ h (elim k [
      | inl t ↦ inl (ground arith)
      | inr t ↦ inr (
          if_both (λ (q : DomainManager S H E). lookup j q.runs ≡ none) (keeps (lookup id index)) t
            (lookup-stop_domain env id j m ∙ rw e t))
    ])
  ]

  -- Visits of other ids leave what runs under an id.
  pub stop_removed-frame :
      (index : Map DomainSpec) (ids : List String) (j : String) (m : DomainManager S H E)
      → has j ids ≡ false
      → lookup j (stop_removed env index ids m).runs ≡ lookup j m.runs
  unfolding stop_removed
  stop_removed-frame index [] j m h = refl
  stop_removed-frame index (id ∷ ids) j m h = elim (String-cases id j) [
    | inl (e, p) ↦ ground (arith, e, h)
    | inr (e, n) ↦
        stop_removed-frame index ids j _ (ground (arith, e, h))
        ∙ if_both (λ (q : DomainManager S H E). lookup j q.runs ≡ lookup j m.runs)
            (keeps (lookup id index)) refl (lookup-stop_domain env id j m ∙ rw e refl)
  ]

  index_of-keyed :
      (specs : List DomainSpec) (index : Map DomainSpec)
      → ((j : String) (s : DomainSpec) → lookup j index ≡ some s → s.id ≡ j)
      → (j : String) (s : DomainSpec) → lookup j (index_of specs index) ≡ some s
      → s.id ≡ j
  unfolding index_of
  index_of-keyed [] index k j s h = k j s h
  index_of-keyed (t ∷ specs) index k j s h =
      index_of-keyed specs (insert t.id t index)
        (λ i u e. ground (arith, lookup-insert t.id i t index, eq_iff t.id i, k i u)) j s h

  lookup-Keyed :
      (order : Map DomainSpec)
      → Distinct order
      → ((j : String) (s : DomainSpec) → lookup j order ≡ some s → s.id ≡ j)
      → Keyed order
  unfolding lookup
  lookup-Keyed [] d k = tt
  lookup-Keyed ((id, t) ∷ order) d k = (
    k id t (rw eq_refl refl),
    lookup-Keyed order d.1 λ j s h. k j s (
        ground (
          arith,
          eq_iff id j,
          λ (p : id ≡ j). (sym h ∙ ap (λ i. lookup i order) (sym p) ∙ lookup_of_Fresh id order d.0),
        )),
  )

  pub lookup-Fresh : (order : Map DomainSpec) (j : String) → lookup j order ≡ none → Fresh j order
  unfolding lookup
  lookup-Fresh [] j h = tt
  lookup-Fresh ((id, t) ∷ order) j h = elim (String-cases id j) [
    | inl (e, p) ↦ ground arith
    | inr (e, n) ↦ (n, lookup-Fresh order j (ground arith))
  ]

  -- The entries of an index stand under the ids of their specifications.
  pub index-Keyed :
      (specs : List DomainSpec) (order : Map DomainSpec)
      → Distinct order
      → ((i : String) → lookup i order ≡ lookup i (index_of specs []))
      → Keyed order
  index-Keyed specs order d o =
      lookup-Keyed order d
        (λ i s e. index_of-keyed specs [] (λ i s e. unfold lookup in cc) i s (sym (o i) ∙ e))

  -- Behind a `Reload`, every domain that runs is one of the new list and runs under its last
  -- specification there, whichever launches failed. Here `ids` lists what runs before, and `order`
  -- the entries of the index, each once.
  pub reload-runs :
      (specs : List DomainSpec) (ids : List String) (order : Map DomainSpec)
      (m : DomainManager S H E) (j : String) (r : DomainRun S H E)
      → ((i : String) → (lookup i m.runs ≡ none) ⊎ (has i ids ≡ true))
      → Distinct order
      → ((i : String) → lookup i order ≡ lookup i (index_of specs []))
      → lookup j (reload env (index_of specs []) ids order m).runs ≡ some r
      → lookup j (index_of specs []) ≡ some r.spec
  unfolding reload
  reload-runs specs ids order m j r l d o h =
      let index = index_of specs [] in
      let n = stop_removed env index ids m in
      let k : Keyed order = index-Keyed specs order d o in
      elim (Option-cases (lookup j order)) [
        | inl e ↦
            let g : lookup j n.runs ≡ none =
              stop_removed-gone index ids j m (sym (o j) ∙ e)
                (elim (l j) [ inl x ↦ inr x | inr x ↦ inl x ]) in
            let f = renew_all-frame env order j n k (lookup-Fresh order j e) ∙ g in
            let c = sym f ∙ h in cc
        | inr (s, e) ↦
            sym (o j)
            ∙ e
            ∙ ap some (sym (subst (λ x. RunsAs s x) h (renew_all-RunsAs env order j s n k d e)))
      ]
