-- ===== src/Domains/Renew.antt =====
-- One launch, one stop, and the visits of the new list.
use rassberry.Base.{
  String, Option, none, some, [], ◌∷◌, ◌≡◌, ◌≢◌, ◌==◌, refl, sym, ◌∙◌, ap, arith, inl, inr,
  if◌then◌else◌, Option-cases, String-cases, if_both, subst, eq_refl, ne_of_false, All,
}
use rassberry.Base.Maps.{Map, lookup, lookup-insert, lookup-erase, Distinct, Fresh}
use rassberry.Lifecycle.{Fsm}
use rassberry.Domains.{
  DomainSpec, Kernel, DomainRun, DomainManager, Environment, launch_inproc, launch_by, launched,
  stop_domain, stop_run, changed, renew, renew_all,
}

-- Under an id nothing runs, or the given specification does.
abbrev pub RunsAs : {S H E : Type 0} → DomainSpec → Option (DomainRun S H E) → Type 0
RunsAs s none = Unit
RunsAs s (some r) = r.spec ≡ s

-- Every entry stands under the id of its specification.
abbrev pub Keyed : Map DomainSpec → Type 0
Keyed = All (λ e. e.1.id ≡ e.0)

module _ {S H E : Type 0} (env : Environment S H E) where
  launched-RunsAs :
      (s : DomainSpec) (k : Kernel S H E) (r : Fsm S E × Option E) (m : DomainManager S H E)
      → lookup s.id m.runs ≡ none
      → RunsAs s (lookup s.id (launched env s k r m).0.runs)
  launched-RunsAs s k (f, some e) m h = rw h tt
  launched-RunsAs s k (f, none) m h = rw (lookup-insert s.id s.id _ m.runs, eq_refl) refl

  launch-RunsAs :
      (s : DomainSpec) (m : DomainManager S H E)
      → lookup s.id m.runs ≡ none
      → RunsAs s (lookup s.id (launch_inproc env s m).0.runs)
  unfolding launch_inproc
  launch-RunsAs s m h = elim (Option-cases (lookup s.kind env.factories)) [
    | inl e ↦ rw (e, launch_by, h) tt
    | inr (f, e) ↦ rw (e, launch_by) (launched-RunsAs s (f s.id) _ m h)
  ]

  launched-frame :
      (s : DomainSpec) (k : Kernel S H E) (r : Fsm S E × Option E) (j : String)
      (m : DomainManager S H E)
      → s.id ≢ j
      → lookup j (launched env s k r m).0.runs ≡ lookup j m.runs
  launched-frame s k (f, some e) j m n = refl
  launched-frame s k (f, none) j m n = lookup-insert s.id j _ m.runs ∙ rw (ne_of_false s.id j n)

  pub launch-frame :
      (s : DomainSpec) (j : String) (m : DomainManager S H E)
      → s.id ≢ j
      → lookup j (launch_inproc env s m).0.runs ≡ lookup j m.runs
  unfolding launch_inproc
  launch-frame s j m n = elim (Option-cases (lookup s.kind env.factories)) [
    | inl e ↦ rw (e, launch_by)
    | inr (f, e) ↦ rw (e, launch_by) (launched-frame s (f s.id) _ j m n)
  ]

  pub lookup-stop_domain :
      (id j : String) (m : DomainManager S H E)
      → lookup j (stop_domain env id m).runs ≡ (if id == j then none else lookup j m.runs)
  unfolding stop_domain
  lookup-stop_domain id j m = elim (Option-cases (lookup id m.runs)) [
    | inl e ↦
        rw (e, stop_run)
          (elim (String-cases id j) [
            | inl (t, p) ↦ rw t (ap (λ k. lookup k m.runs) (sym p) ∙ e)
            | inr (t, p) ↦ rw t
          ])
    | inr (r, e) ↦ rw (e, stop_run) (lookup-erase id j m.runs)
  ]

  renew-RunsAs :
      (s : DomainSpec) (m : DomainManager S H E)
      → RunsAs s (lookup s.id (renew env s.id s (lookup s.id m.runs) m).runs)
  renew-RunsAs s m = elim (Option-cases (lookup s.id m.runs)) [
    | inl e ↦ rw (e, renew) (launch-RunsAs s m e)
    | inr (r, e) ↦
        rw (e, renew)
          (if_both (λ (n : DomainManager S H E). RunsAs s (lookup s.id n.runs))
            (changed env r.spec s)
            (launch-RunsAs s (stop_domain env s.id m) (lookup-stop_domain s.id s.id m ∙ rw eq_refl))
            (rw (lookup-insert s.id s.id (record r { spec = s }) m.runs, eq_refl) refl))
  ]

  renew-frame :
      (s : DomainSpec) (j : String) (m : DomainManager S H E)
      → s.id ≢ j
      → lookup j (renew env s.id s (lookup s.id m.runs) m).runs ≡ lookup j m.runs
  renew-frame s j m n = elim (Option-cases (lookup s.id m.runs)) [
    | inl e ↦ rw (e, renew) (launch-frame s j m n)
    | inr (r, e) ↦
        rw (e, renew)
          (if_both (λ (q : DomainManager S H E). lookup j q.runs ≡ lookup j m.runs)
            (changed env r.spec s)
            (launch-frame s j (stop_domain env s.id m) n
              ∙ lookup-stop_domain s.id j m
              ∙ rw (ne_of_false s.id j n))
            (lookup-insert s.id j _ m.runs ∙ rw (ne_of_false s.id j n)))
  ]

  pub renew_all-frame :
      (order : Map DomainSpec) (j : String) (m : DomainManager S H E)
      → Keyed order
      → Fresh j order
      → lookup j (renew_all env order m).runs ≡ lookup j m.runs
  unfolding renew_all
  renew_all-frame [] j m k f = refl
  renew_all-frame ((id, s) ∷ order) j m k f =
      renew_all-frame order j _ k.1 f.1
      ∙ subst (λ i. lookup j (renew env i s (lookup i m.runs) m).runs ≡ lookup j m.runs) k.0
          (renew-frame s j m (λ p. f.0 (sym k.0 ∙ p)))

  pub renew_all-RunsAs :
      (order : Map DomainSpec) (j : String) (s : DomainSpec) (m : DomainManager S H E)
      → Keyed order
      → Distinct order
      → lookup j order ≡ some s
      → RunsAs s (lookup j (renew_all env order m).runs)
  unfolding renew_all lookup
  renew_all-RunsAs [] j s m k d h = cc
  renew_all-RunsAs ((id, t) ∷ order) j s m k d h = elim (String-cases id j) [
    | inl (e, p) ↦
        let q : t ≡ s = ground arith in
        subst (λ u. RunsAs u (lookup j (renew_all env ((id, t) ∷ order) m).runs)) q
          (subst (λ i. RunsAs t (lookup i (renew_all env ((id, t) ∷ order) m).runs)) p
            (subst (λ x. RunsAs t x) (sym (renew_all-frame order id _ k.1 d.0))
              (subst (λ i. RunsAs t (lookup i (renew env i t (lookup i m.runs) m).runs)) k.0
                (renew-RunsAs t m))))
    | inr (e, n) ↦ renew_all-RunsAs order j s _ k.1 d.1 (ground arith)
  ]
