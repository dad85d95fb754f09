-- ===== src/RootKernel/Serving/NoneLost.antt =====
-- What becomes of the kernels that run, over all SIGHUPs.
use rassberry.Base.{
  String, List, Option, none, some, [], ◌∷◌, true, ◌≡◌, refl, sym, subst, if_both, Bool-cases, inl,
  inr,
}
use rassberry.Base.Maps.{Map, lookup}
use rassberry.Lifecycle.{Fsm}
use rassberry.Domains.{DomainSpec, Kernel, DomainManager, Environment, keeps, renew}
use rassberry.Domains.Renew.{Keyed}
use rassberry.Domains.Reload.{index-Keyed}
use rassberry.Domains.Retire.{Held, stop_domain-Held, renew-Held}
use rassberry.Config.{RootConfig, Unmarshal, load_config}
use rassberry.RootKernel.Serving.{
  Event, hup, visited, gateway_ended, admin_ended, context_done, Serving, is_idle, at_rest, begin,
  take_hup, visit_of, next_visit, serve,
}
use rassberry.RootKernel.Serving.InForce.{Visits, AllVisit}

module _ {S H E : Type 0} (env : Environment S H E) (unmarshal : Unmarshal E) (path : String) where
  -- The visits that are left stand under the ids of their specifications.
  take_hup-Keyed :
      (answer : RootConfig × Option E) (ids : List String) (order : Map DomainSpec)
      (s : Serving S H E)
      → (is_idle s.removing s.renewing ≡ true
          → Visits env unmarshal path answer ids order s.manager)
      → Keyed s.renewing
      → Keyed (take_hup env unmarshal path answer ids order s).renewing
  take_hup-Keyed answer ids order s v k = elim (Bool-cases (is_idle s.removing s.renewing)) [
    | inl e ↦ rw e (begun answer (v e))
    | inr e ↦ rw e k
  ]
    where
      begun :
          (answer : RootConfig × Option E)
          → Visits env unmarshal path answer ids order s.manager
          → Keyed (begin env unmarshal path answer ids order s).renewing
      begun (cfg, some e) v = k
      begun (cfg, none) v = index-Keyed env cfg.domains order v.1 v.2

  take_hup-manager :
      (answer : RootConfig × Option E) (ids : List String) (order : Map DomainSpec)
      (s : Serving S H E)
      → (take_hup env unmarshal path answer ids order s).manager ≡ s.manager
  take_hup-manager (cfg, some e) ids order s =
      if_both (λ (q : Serving S H E). q.manager ≡ s.manager) (is_idle s.removing s.renewing) refl
        refl
  take_hup-manager (cfg, none) ids order s =
      if_both (λ (q : Serving S H E). q.manager ≡ s.manager) (is_idle s.removing s.renewing) refl
        refl

  next_visit-Held :
      (j : String) (k : Kernel S H E) (f : Fsm S E) (s : Serving S H E)
      → Keyed s.renewing
      → Held j k f s.manager
      → Keyed (next_visit env unmarshal path s).renewing
        × Held j k f (next_visit env unmarshal path s).manager
  unfolding next_visit
  next_visit-Held j k f s x h = by_lists s.removing s.renewing x
    where
      by_lists :
          (ids : List String) (order : Map DomainSpec)
          → Keyed order
          → Keyed (visit_of env unmarshal path ids order s).renewing
            × Held j k f (visit_of env unmarshal path ids order s).manager
      by_lists (id ∷ ids) order y = (
        y,
        if_both (λ (q : DomainManager S H E). Held j k f q) (keeps (lookup id s.index)) h
            (stop_domain-Held env id j k f s.manager h),
      )
      by_lists [] ((id, t) ∷ order) y = (
        y.1,
        subst (λ i. Held j k f (renew env i t (lookup i s.manager.runs) s.manager)) y.0
            (renew-Held env t j k f s.manager h),
      )
      by_lists [] [] y = (x, h)

  serving-Held :
      (es : List (Event E)) (j : String) (k : Kernel S H E) (f : Fsm S E) (s : Serving S H E)
      → AllVisit env unmarshal path es s
      → Keyed s.renewing
      → Held j k f s.manager
      → Held j k f (serve env unmarshal path es s).0.manager
  unfolding serve AllVisit
  serving-Held [] j k f s v x h = h
  serving-Held (hup read ids order ∷ es) j k f s v x h =
      let answer = load_config E read unmarshal path in
      serving-Held es j k f (take_hup env unmarshal path answer ids order s) v.1
        (take_hup-Keyed answer ids order s v.0 x)
        (subst (λ m. Held j k f m) (sym (take_hup-manager answer ids order s)) h)
  serving-Held (visited ∷ es) j k f s v x h =
      let (y, g) = next_visit-Held j k f s x h in
      serving-Held es j k f (next_visit env unmarshal path s) v y g
  serving-Held (gateway_ended err ∷ es) j k f s v x h = serving-Held es j k f s v x h
  serving-Held (admin_ended sel ∷ es) j k f s v x h = h
  serving-Held (context_done ∷ es) j k f s v x h = h

  -- A kernel that the manager runs is never given up before it was drained and then stopped: behind
  -- any events up to the return of the root kernel, SIGHUPs among them whose launches fail or whose
  -- files do not load, and in the middle of a `Reload` or not, it still runs under its id, or it was
  -- drained and stopped, if every `Reload` visits what runs and the new list.
  pub serve-Held :
      (es : List (Event E)) (j : String) (k : Kernel S H E) (f : Fsm S E) (m : DomainManager S H E)
      → AllVisit env unmarshal path es (at_rest env unmarshal path m)
      → Held j k f m
      → Held j k f (serve env unmarshal path es (at_rest env unmarshal path m)).0.manager
  serve-Held es j k f m v h = serving-Held es j k f (at_rest env unmarshal path m) v tt h
