-- ===== src/RootKernel/Serving/InForce.antt =====
-- Which domains the manager runs between the events from the start of the root kernel to its return.
use rassberry.Base.{
  ℕ, String, List, Option, true, none, some, [], ◌∷◌, ◌≡◌, ◌⊎◌, refl, sym, ◌∙◌, inl, inr,
  String-cases, Bool-cases, Option-cases, if◌then◌else◌,
}
use rassberry.Base.Maps.{Map, lookup, insert, lookup-insert, Distinct}
use rassberry.Domains.{
  DomainSpec, DomainRun, DomainManager, Environment, index_of, stop_removed, renew_all, reload,
}
use rassberry.Domains.Renew.{Keyed, renew_all-frame}
use rassberry.Domains.Reload.{has, reload-runs, index-Keyed, lookup-Fresh, stop_removed-frame}
use rassberry.Config.{RootConfig, Unmarshal, load_config}
use rassberry.RootKernel.{launch_all, root_manager}
use rassberry.RootKernel.Launch.{Among, launch_all-runs}
use rassberry.RootKernel.Serving.{
  Event, hup, visited, gateway_ended, admin_ended, context_done, Serving, is_idle, at_rest, begin,
  take_hup, visit_of, next_visit, serve,
}

Among-index_of :
    (specs : List DomainSpec) (index : Map DomainSpec) (j : String) (s : DomainSpec)
    → lookup j (index_of specs index) ≡ some s
    → (Among s specs × (s.id ≡ j)) ⊎ (lookup j index ≡ some s)
unfolding index_of
Among-index_of [] index j s h = inr h
Among-index_of (t ∷ specs) index j s h = elim (Among-index_of specs (insert t.id t index) j s h) [
  | inl (a, p) ↦ inl (inr a, p)
  | inr k ↦
      let l = lookup-insert t.id j t index in
      elim (String-cases t.id j) [
        | inl (e, p) ↦ let q : some t ≡ some s = sym (l ∙ rw e refl) ∙ k in inl (inl (cc), cc)
        | inr (e, n) ↦ inr (sym (l ∙ rw e refl) ∙ k)
      ]
]

module _ {E : Type 0} (unmarshal : Unmarshal E) (path : String) where
  abbrev if_loaded : RootConfig → RootConfig × Option E → RootConfig
  if_loaded cfg (new, none) = new
  if_loaded cfg (new, some e) = cfg

module _ {S H E : Type 0} (env : Environment S H E) (unmarshal : Unmarshal E) (path : String) where
  -- The two loops of a `Reload` visit all that runs, and the entries of the index, each once.
  abbrev pub Visits :
      RootConfig × Option E → List String → Map DomainSpec → DomainManager S H E → Type 0
  Visits (cfg, some e) ids order m = Unit
  Visits (cfg, none) ids order m =
      ((i : String) → (lookup i m.runs ≡ none) ⊎ (has i ids ≡ true))
      × Distinct order
      × ((i : String) → lookup i order ≡ lookup i (index_of cfg.domains []))

  -- So does each SIGHUP of the events that is taken.
  unfoldable pub AllVisit : List (Event E) → Serving S H E → Type 0
  unfolding next_visit
  AllVisit [] s = Unit
  AllVisit (hup read ids order ∷ es) s =
      let answer = load_config E read unmarshal path in
      (is_idle s.removing s.renewing ≡ true → Visits answer ids order s.manager)
      × AllVisit es (take_hup env unmarshal path answer ids order s)
  AllVisit (visited ∷ es) s = AllVisit es (next_visit env unmarshal path s)
  AllVisit (gateway_ended err ∷ es) s = AllVisit es s
  AllVisit (_ ∷ es) s = Unit

  -- The configuration that was loaded last before `RunRootKernel` returns; a SIGHUP whose file cannot
  -- be loaded changes nothing.
  unfoldable pub in_force : RootConfig → List (Event E) → Serving S H E → RootConfig
  unfolding next_visit
  in_force cfg [] s = cfg
  in_force cfg (hup read ids order ∷ es) s =
      let answer = load_config E read unmarshal path in
      in_force (if is_idle s.removing s.renewing then if_loaded unmarshal path cfg answer else cfg)
        es (take_hup env unmarshal path answer ids order s)
  in_force cfg (visited ∷ es) s = in_force cfg es (next_visit env unmarshal path s)
  in_force cfg (gateway_ended err ∷ es) s = in_force cfg es s
  in_force cfg (_ ∷ es) s = cfg

  -- Every domain that runs is one of the list, under its own id.
  abbrev pub RunsOf : List DomainSpec → DomainManager S H E → Type 0
  RunsOf specs m =
      (j : String) (r : DomainRun S H E)
      → lookup j m.runs ≡ some r
      → Among r.spec specs × (r.spec.id ≡ j)

  reload-RunsOf :
      (specs : List DomainSpec) (ids : List String) (order : Map DomainSpec)
      (m : DomainManager S H E)
      → ((i : String) → (lookup i m.runs ≡ none) ⊎ (has i ids ≡ true))
      → Distinct order
      → ((i : String) → lookup i order ≡ lookup i (index_of specs []))
      → RunsOf specs (reload env (index_of specs []) ids order m)
  reload-RunsOf specs ids order m l d o j r k =
      elim (Among-index_of specs [] j r.spec (reload-runs env specs ids order m j r l d o k)) [
        | inl a ↦ a
        | inr c ↦ unfold lookup in cc
      ]

  -- The manager behind the visits that are left.
  abbrev finished_reload : Serving S H E → DomainManager S H E
  finished_reload s = renew_all env s.renewing (stop_removed env s.index s.removing s.manager)

  -- What the visits that are left make of the domains that run.
  abbrev Settles : RootConfig → Serving S H E → Type 0
  Settles cfg s = RunsOf cfg.domains (finished_reload s) × Keyed s.renewing

  take_hup-Settles :
      (cfg : RootConfig) (answer : RootConfig × Option E) (ids : List String)
      (order : Map DomainSpec) (s : Serving S H E)
      → (is_idle s.removing s.renewing ≡ true → Visits answer ids order s.manager)
      → Settles cfg s
      → Settles
          (if is_idle s.removing s.renewing then if_loaded unmarshal path cfg answer else cfg)
          (take_hup env unmarshal path answer ids order s)
  unfolding reload
  take_hup-Settles cfg answer ids order s v h = elim (Bool-cases (is_idle s.removing s.renewing)) [
    | inl e ↦ rw e (begun answer (v e))
    | inr e ↦ rw e h
  ]
    where
      begun :
          (answer : RootConfig × Option E)
          → Visits answer ids order s.manager
          → Settles
              (if_loaded unmarshal path cfg answer)
              (begin env unmarshal path answer ids order s)
      begun (new, some e) v = h
      begun (new, none) v = (
        reload-RunsOf new.domains ids order s.manager v.0 v.1 v.2,
        index-Keyed env new.domains order v.1 v.2,
      )

  next_visit-Settles :
      (cfg : RootConfig) (s : Serving S H E)
      → Settles cfg s
      → Settles cfg (next_visit env unmarshal path s)
  unfolding next_visit stop_removed renew_all
  next_visit-Settles cfg s h = by_lists s.removing s.renewing h
    where
      by_lists :
          (ids : List String) (order : Map DomainSpec)
          → RunsOf cfg.domains (renew_all env order (stop_removed env s.index ids s.manager))
            × Keyed order
          → Settles cfg (visit_of env unmarshal path ids order s)
      by_lists (id ∷ ids) order k = k
      by_lists [] ((id, t) ∷ order) k = (k.0, k.1.1)
      by_lists [] [] k = h

  serve-Settles :
      (es : List (Event E)) (cfg : RootConfig) (s : Serving S H E)
      → AllVisit es s
      → Settles cfg s
      → Settles (in_force cfg es s) (serve env unmarshal path es s).0
  unfolding serve in_force AllVisit
  serve-Settles [] cfg s v h = h
  serve-Settles (hup read ids order ∷ es) cfg s v h =
      let answer = load_config E read unmarshal path in
      serve-Settles es _ (take_hup env unmarshal path answer ids order s) v.1
        (take_hup-Settles cfg answer ids order s v.0 h)
  serve-Settles (visited ∷ es) cfg s v h = serve-Settles es cfg _ v (next_visit-Settles cfg s h)
  serve-Settles (gateway_ended err ∷ es) cfg s v h = serve-Settles es cfg s v h
  serve-Settles (admin_ended sel ∷ es) cfg s v h = h
  serve-Settles (context_done ∷ es) cfg s v h = h

  -- The `Reload` under way has yet to visit the id, in one of its loops.
  abbrev pub IsDue : String → Serving S H E → Type 0
  IsDue j s = (has j s.removing ≡ true) ⊎ ((t : DomainSpec) × (lookup j s.renewing ≡ some t))

  -- Behind any events from the launches of the root kernel to its return, where a SIGHUP with its
  -- `LoadConfig` is one event and each visit of its `Reload` is another, and whatever failed: each
  -- domain that the manager runs is one of the configuration that was loaded last, and runs under its
  -- id, or the `Reload` under way has yet to visit that id; if every `Reload` visits what runs and the
  -- new list.
  pub serve-runs :
      (cfg : RootConfig) (registered since updated : ℕ) (es : List (Event E))
      → let s =
          at_rest env unmarshal path
            (launch_all env cfg.domains (root_manager env registered since updated)).0 in
        AllVisit es s
        → (j : String) (r : DomainRun S H E)
        → lookup j (serve env unmarshal path es s).0.manager.runs ≡ some r
        → IsDue j (serve env unmarshal path es s).0
          ⊎ (Among r.spec (in_force cfg es s).domains × (r.spec.id ≡ j))
  unfolding stop_removed renew_all
  serve-runs cfg registered since updated es v j r k =
      let m = (launch_all env cfg.domains (root_manager env registered since updated)).0 in
      let s = at_rest env unmarshal path m in
      let e = (serve env unmarshal path es s).0 in
      let (f, y) = serve-Settles es cfg s v (
        λ i q h.
            let (a, p, x) = launch_all-runs env cfg.domains registered since updated i q h in
            (a, p),
        tt,
      ) in
      elim (Bool-cases (has j e.removing)) [
        | inl d ↦ inl (inl d)
        | inr d ↦ elim (Option-cases (lookup j e.renewing)) [
          | inr (t, c) ↦ inl (inr (t, c))
          | inl n ↦ inr (
              f j r (
                renew_all-frame env e.renewing j (stop_removed env e.index e.removing e.manager) y
                  (lookup-Fresh env e.renewing j n)
                ∙ stop_removed-frame env e.index e.removing j e.manager d
                ∙ k))
        ]
      ]
