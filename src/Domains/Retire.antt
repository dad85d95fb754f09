-- ===== src/Domains/Retire.antt =====
-- What becomes of the automata of the domains that the manager runs.
use mathlib.Core.Path.{ap₂}
use rassberry.Base.{
  String, List, Option, none, some, [], ◌∷◌, ◌++◌, ◌≡◌, ◌⊎◌, refl, sym, ap, ◌∙◌, inl, inr,
  Option-cases, String-cases, if_both, subst, eq_refl,
}
use rassberry.Base.Maps.{Map, lookup, insert, lookup-insert, lookup-erase, Distinct}
use rassberry.Lifecycle.{Fsm, drain, stop}
use rassberry.Domains.{
  DomainSpec, Kernel, DomainRun, DomainManager, Environment, index_of, launch_inproc, launch_by,
  launched, stop_domain, stop_run, keeps, stop_removed, changed, renew, renew_all, reload,
}
use rassberry.Domains.Reload.{index-Keyed}
use rassberry.Domains.Renew.{Keyed, launch-frame, lookup-stop_domain}

-- A value is in a list.
abbrev pub In : {A : Type 0} → A → List A → Type 0
In x [] = ⊥
In x (y ∷ l) = (y ≡ x) ⊎ In x l

In-append_left : {A : Type 0} (x : A) (l m : List A) → In x l → In x (l ++ m)
In-append_left x [] m h = absurd h
In-append_left x (y ∷ l) m (inl e) = inl e
In-append_left x (y ∷ l) m (inr h) = inr (In-append_left x l m h)

In-append_last : {A : Type 0} (x y : A) (l : List A) → y ≡ x → In x (l ++ y ∷ [])
In-append_last x y [] e = inl e
In-append_last x y (z ∷ l) e = inr (In-append_last x y l e)

module _ {S H E : Type 0} where
  -- What `Drain` and then `Stop` leave of an automaton.
  abbrev pub ended_of : Kernel S H E → Fsm S E → Fsm S E
  ended_of k f = (stop k.hooks (drain k.hooks f).0).0

  -- The automaton still runs under the id, or it was drained and stopped.
  abbrev pub Held : String → Kernel S H E → Fsm S E → DomainManager S H E → Type 0
  Held j k f m =
      ((r : DomainRun S H E) × (lookup j m.runs ≡ some r) × (r.kernel ≡ k) × (r.fsm ≡ f))
      ⊎ In (ended_of k f) m.retired

  -- A step that keeps what is retired and what runs under the id.
  same-Held :
      (j : String) (k : Kernel S H E) (f : Fsm S E) (m n : DomainManager S H E)
      → lookup j n.runs ≡ lookup j m.runs
      → n.retired ≡ m.retired
      → Held j k f m
      → Held j k f n
  same-Held j k f m n e g (inl (r, p, q, s)) = inl (r, e ∙ p, q, s)
  same-Held j k f m n e g (inr h) = inr (subst (λ l. In (ended_of k f) l) (sym g) h)

module _ {S H E : Type 0} (env : Environment S H E) where
  launched-retired :
      (s : DomainSpec) (k : Kernel S H E) (o : Fsm S E × Option E) (m : DomainManager S H E)
      → (launched env s k o m).0.retired ≡ m.retired
  launched-retired s k (f, some e) m = refl
  launched-retired s k (f, none) m = refl

  launch-retired :
      (s : DomainSpec) (m : DomainManager S H E) → (launch_inproc env s m).0.retired ≡ m.retired
  unfolding launch_inproc
  launch-retired s m = elim (Option-cases (lookup s.kind env.factories)) [
    | inl e ↦ rw (e, launch_by) refl
    | inr (g, e) ↦ rw (e, launch_by) (launched-retired s (g s.id) _ m)
  ]

  -- A launch under an id of which nothing runs.
  launch-Held :
      (s : DomainSpec) (j : String) (k : Kernel S H E) (f : Fsm S E) (m : DomainManager S H E)
      → lookup s.id m.runs ≡ none
      → Held j k f m
      → Held j k f (launch_inproc env s m).0
  launch-Held s j k f m n (inr h) =
      inr (subst (λ l. In (ended_of k f) l) (sym (launch-retired s m)) h)
  launch-Held s j k f m n (inl (r, p, q, t)) = elim (String-cases s.id j) [
    | inl (e, i) ↦ let c : none ≡ some r = sym n ∙ ap (λ x. lookup x m.runs) i ∙ p in cc
    | inr (e, i) ↦
        same-Held j k f m (launch_inproc env s m).0 (launch-frame env s j m i) (launch-retired s m)
          (inl (r, p, q, t))
  ]

  pub stop_domain-Held :
      (id j : String) (k : Kernel S H E) (f : Fsm S E) (m : DomainManager S H E)
      → Held j k f m
      → Held j k f (stop_domain env id m)
  unfolding stop_domain
  stop_domain-Held id j k f m h = elim (Option-cases (lookup id m.runs)) [
    | inl e ↦ rw (e, stop_run) h
    | inr (r₀, e) ↦ rw (e, stop_run) (stopped r₀ e h)
  ]
    where
      stopped :
          (r₀ : DomainRun S H E)
          → lookup id m.runs ≡ some r₀
          → Held j k f m
          → Held j k f (stop_run env id (some r₀) m)
      stopped r₀ e (inr h) = inr (In-append_left _ m.retired _ h)
      stopped r₀ e (inl (r, p, q, t)) = elim (String-cases id j) [
        | inl (g, i) ↦
            let c : some r₀ ≡ some r = sym e ∙ ap (λ x. lookup x m.runs) i ∙ p in
            let d : r₀ ≡ r = cc in
            inr (
              In-append_last _ _ m.retired
                (ap (λ (x : DomainRun S H E). ended_of x.kernel x.fsm) d ∙ ap₂ ended_of q t))
        | inr (g, i) ↦ inl (r, lookup-erase id j m.runs ∙ rw g p, q, t)
      ]

  pub renew-Held :
      (s : DomainSpec) (j : String) (k : Kernel S H E) (f : Fsm S E) (m : DomainManager S H E)
      → Held j k f m
      → Held j k f (renew env s.id s (lookup s.id m.runs) m)
  renew-Held s j k f m h = elim (Option-cases (lookup s.id m.runs)) [
    | inl e ↦ rw (e, renew) (launch-Held s j k f m e h)
    | inr (r₀, e) ↦
        rw (e, renew)
          (if_both (λ (q : DomainManager S H E). Held j k f q) (changed env r₀.spec s)
            (launch-Held s j k f (stop_domain env s.id m)
              (lookup-stop_domain env s.id s.id m ∙ rw eq_refl refl)
              (stop_domain-Held s.id j k f m h))
            (kept r₀ e h))
  ]
    where
      kept :
          (r₀ : DomainRun S H E)
          → lookup s.id m.runs ≡ some r₀
          → Held j k f m
          → Held j k f (record m { runs = insert s.id (record r₀ { spec = s }) m.runs })
      kept r₀ e (inr h) = inr h
      kept r₀ e (inl (r, p, q, t)) = elim (String-cases s.id j) [
        | inl (g, i) ↦
            let c : some r₀ ≡ some r = sym e ∙ ap (λ x. lookup x m.runs) i ∙ p in
            let d : r₀ ≡ r = cc in
            inl (
              record r₀ { spec = s },
              lookup-insert s.id j (record r₀ { spec = s }) m.runs ∙ rw g refl,
              ap (λ (x : DomainRun S H E). x.kernel) d ∙ q,
              ap (λ (x : DomainRun S H E). x.fsm) d ∙ t,
            )
        | inr (g, i) ↦ inl (r, lookup-insert s.id j (record r₀ { spec = s }) m.runs ∙ rw g p, q, t)
      ]

  stop_removed-Held :
      (index : Map DomainSpec) (ids : List String) (j : String) (k : Kernel S H E) (f : Fsm S E)
      (m : DomainManager S H E)
      → Held j k f m
      → Held j k f (stop_removed env index ids m)
  unfolding stop_removed
  stop_removed-Held index [] j k f m h = h
  stop_removed-Held index (id ∷ ids) j k f m h = stop_removed-Held index ids j k f _ (
      if_both (λ (q : DomainManager S H E). Held j k f q) (keeps (lookup id index)) h
        (stop_domain-Held id j k f m h))

  renew_all-Held :
      (order : Map DomainSpec) (j : String) (k : Kernel S H E) (f : Fsm S E)
      (m : DomainManager S H E)
      → Keyed order
      → Held j k f m
      → Held j k f (renew_all env order m)
  unfolding renew_all
  renew_all-Held [] j k f m x h = h
  renew_all-Held ((id, s) ∷ order) j k f m x h =
      renew_all-Held order j k f _ x.1
        (subst (λ i. Held j k f (renew env i s (lookup i m.runs) m)) x.0 (renew-Held s j k f m h))

  -- An automaton that the manager runs still runs behind a `Reload`, under the same id, or it was
  -- drained and then stopped, whichever launches fail; and one that was stays so.
  pub reload-Held :
      (specs : List DomainSpec) (ids : List String) (order : Map DomainSpec) (j : String)
      (k : Kernel S H E) (f : Fsm S E) (m : DomainManager S H E)
      → Distinct order
      → ((i : String) → lookup i order ≡ lookup i (index_of specs []))
      → Held j k f m
      → Held j k f (reload env (index_of specs []) ids order m)
  unfolding reload
  reload-Held specs ids order j k f m d o h =
      renew_all-Held order j k f _ (index-Keyed env specs order d o)
        (stop_removed-Held (index_of specs []) ids j k f m h)
