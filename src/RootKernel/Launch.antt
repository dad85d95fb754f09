-- ===== src/RootKernel/Launch.antt =====
-- What the manager runs once the root kernel has started its domains.
use rassberry.Base.{
  ℕ, String, Bool, List, Option, true, false, none, some, [], ◌∷◌, ◌≡◌, ◌≢◌, ◌==◌, ◌⊎◌, ◌&&◌, refl,
  sym, ap, ◌∙◌, subst, arith, inl, inr, if_split, String-cases, eq_iff,
}
use rassberry.Base.Maps.{lookup, lookup-insert}
use rassberry.Registry.{DiscoveryRegistry}
use rassberry.Lifecycle.{Fsm}
use rassberry.Domains.{
  DomainSpec, DomainRun, DomainManager, Environment, LaunchError, Kernel, launched, launch_by,
  launch_inproc,
}
use rassberry.Domains.Factory.{launch_domain_with_factory}
use rassberry.RootKernel.{
  Launched, has_factory, root_manager, by_manager, by_factory, launch, launch_all,
}

-- The specification is one of the list.
abbrev pub Among : DomainSpec → List DomainSpec → Type 0
Among s [] = ⊥
Among s (t ∷ ts) = (s ≡ t) ⊎ Among s ts

module _ {S H E : Type 0} (env : Environment S H E) where
  abbrev spec_or : DomainSpec → Option (DomainRun S H E) → DomainSpec
  spec_or s none = s
  spec_or s (some r) = r.spec

  launched-runs :
      (spec : DomainSpec) (k : Kernel S H E) (o : Fsm S E × Option E) (m : DomainManager S H E)
      (j : String) (r : DomainRun S H E)
      → lookup j (launched env spec k o m).0.runs ≡ some r
      → ((r.spec ≡ spec) × (spec.id ≡ j)) ⊎ (lookup j m.runs ≡ some r)
  launched-runs spec k (f, some e) m j r h = inr h
  launched-runs spec k (f, none) m j r h =
      let l = lookup-insert spec.id j (record { spec = spec; kernel = k; fsm = f }) m.runs in
      elim (String-cases spec.id j) [
        | inl (e, p) ↦ inl (
          sym (
              ap (spec_or spec) {x = some (record { spec = spec; kernel = k; fsm = f })}
                (sym (l ∙ rw e refl) ∙ h)),
          p,
        )
        | inr (e, n) ↦ inr (sym (l ∙ rw e refl) ∙ h)
      ]

  launch_by-runs :
      (o : Option (String → Kernel S H E)) (spec : DomainSpec) (m : DomainManager S H E)
      (j : String) (r : DomainRun S H E)
      → lookup j (launch_by env o spec m).0.runs ≡ some r
      → ((r.spec ≡ spec) × (spec.id ≡ j)) ⊎ (lookup j m.runs ≡ some r)
  launch_by-runs none spec m j r h = inr h
  launch_by-runs (some f) spec m j r h = launched-runs spec (f spec.id) _ m j r h

  by_manager-runs :
      (p : DomainManager S H E × Option (LaunchError E)) → (by_manager env p).0.runs ≡ p.0.runs
  by_manager-runs (m, none) = refl
  by_manager-runs (m, some e) = refl

  by_factory-runs :
      (spec : DomainSpec) (p : DiscoveryRegistry × Bool × Option (LaunchError E))
      (m : DomainManager S H E)
      → (by_factory env spec p m).0.runs ≡ m.runs
  by_factory-runs spec (reg, true, none) m = refl
  by_factory-runs spec (reg, true, some e) m = refl
  by_factory-runs spec (reg, false, err) m = refl

  -- A launch outside the manager leaves its runs alone.
  pub launch-runs :
      (spec : DomainSpec) (m : DomainManager S H E)
      → spec.mode ≢ "inproc"
      → (launch env spec m).0.runs ≡ m.runs
  unfolding launch
  launch-runs spec m n =
      let e : (spec.mode == "inproc") ≡ false = ground (arith, eq_iff spec.mode "inproc") in
      rw e (by_factory-runs spec (launch_domain_with_factory env spec m.reg) m)

  launch-RunsAs :
      (spec : DomainSpec) (m : DomainManager S H E) (j : String) (r : DomainRun S H E)
      → lookup j (launch env spec m).0.runs ≡ some r
      → ((r.spec ≡ spec) × (spec.id ≡ j) × (spec.mode ≡ "inproc")) ⊎ (lookup j m.runs ≡ some r)
  unfolding launch launch_inproc
  launch-RunsAs spec m j r =
      if_split
        (λ (q : DomainManager S H E × Launched E).
          lookup j q.0.runs ≡ some r
          → ((r.spec ≡ spec) × (spec.id ≡ j) × (spec.mode ≡ "inproc")) ⊎ (lookup j m.runs ≡ some r))
        (spec.mode == "inproc" && has_factory (lookup spec.kind env.factories))
        (λ e h.
          elim (launch_by-runs (lookup spec.kind env.factories) spec m j r
            (subst (λ q. lookup j q ≡ some r) (by_manager-runs (launch_inproc env spec m)) h)) [
              | inl (x, y) ↦ inl (x, y, ground (arith, eq_iff spec.mode "inproc"))
              | inr y ↦ inr y
            ])
        (λ e h. inr (
          subst (λ q. lookup j q ≡ some r)
            (by_factory-runs spec (launch_domain_with_factory env spec m.reg) m) h))

  launch_all-RunsAs :
      (specs : List DomainSpec) (m : DomainManager S H E) (j : String) (r : DomainRun S H E)
      → lookup j (launch_all env specs m).0.runs ≡ some r
      → (Among r.spec specs × (r.spec.id ≡ j) × (r.spec.mode ≡ "inproc"))
        ⊎ (lookup j m.runs ≡ some r)
  unfolding launch_all
  launch_all-RunsAs [] m j r h = inr h
  launch_all-RunsAs (spec ∷ specs) m j r h =
      elim (launch_all-RunsAs specs (launch env spec m).0 j r h) [
        | inl (a, b, c) ↦ inl (inr a, b, c)
        | inr k ↦ elim (launch-RunsAs spec m j r k) [
          | inl (a, b, c) ↦
              inl
                (inl a, ap (λ (s : DomainSpec). s.id) a ∙ b, ap (λ (s : DomainSpec). s.mode) a ∙ c)
          | inr l ↦ inr l
        ]
      ]

  -- Behind the start of the root kernel, whichever launches failed, the manager runs only domains of
  -- the configuration, each under its own id, and only those of mode `inproc`.
  pub launch_all-runs :
      (specs : List DomainSpec) (registered since updated : ℕ) (j : String) (r : DomainRun S H E)
      → lookup j (launch_all env specs (root_manager env registered since updated)).0.runs ≡ some r
      → Among r.spec specs × (r.spec.id ≡ j) × (r.spec.mode ≡ "inproc")
  unfolding root_manager lookup
  launch_all-runs specs registered since updated j r h =
      elim (launch_all-RunsAs specs (root_manager env registered since updated) j r h) [
        | inl a ↦ a
        | inr k ↦ cc
      ]
