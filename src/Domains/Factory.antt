-- ===== src/Domains/Factory.antt =====
-- `RegisterDomainFactory` and `LaunchDomainWithFactory` of cmd/rk/domain_factory_gen.go, next to the manager's launch.
use rassberry.Base.{
  String, Bool, Option, true, false, none, some, ◌≡◌, ◌⊎◌, refl, inl, inr, Option-cases, ◌==◌,
  if◌then◌else◌,
}
use rassberry.Base.Maps.{Map, lookup, insert}
use rassberry.Registry.{DiscoveryRegistry, register}
use rassberry.Lifecycle.{Fsm, new_fsm, run}
use rassberry.Domains.{
  DomainSpec, LaunchError, run_failed, run_fsm_failed, not_implemented, Kernel, DomainManager,
  Environment, domain_record, launched, launch_by, launch_inproc,
}

-- `RegisterDomainFactory`; `none` is a nil factory.
abbrev put_factory : {F : Type 0} → String → Option F → Map F → Map F
put_factory kind none m = m
put_factory kind (some f) m = insert kind f m

unfoldable pub register_domain_factory : {F : Type 0} → String → Option F → Map F → Map F
register_domain_factory kind f m = if kind == "" then m else put_factory kind f m

-- `fmt.Errorf("run FSM: %w", err)` around the error of a run.
abbrev pub in_run_fsm : {E : Type 0} → Option (LaunchError E) → Option (LaunchError E)
in_run_fsm (some (run_failed e)) = some (run_fsm_failed e)
in_run_fsm e = e

module _ {S H E : Type 0} (env : Environment S H E) where
  abbrev ran :
      DomainSpec
      → Kernel S H E
      → Fsm S E × Option E
      → DiscoveryRegistry
      → DiscoveryRegistry × Bool × Option (LaunchError E)
  ran spec k (f, some e) reg = (reg, true, some (run_fsm_failed e))
  ran spec k (f, none) reg = (
    register (domain_record env spec k f) (env.registered spec.id) (env.updated spec.id) reg,
    true,
    none,
  )

  abbrev ran_by :
      Option (String → Kernel S H E)
      → DomainSpec
      → DiscoveryRegistry
      → DiscoveryRegistry × Bool × Option (LaunchError E)
  ran_by none spec reg = (reg, false, none)
  ran_by (some f) spec reg =
      let k = f spec.id in
      ran spec k (run k.hooks (env.host spec) spec.config (new_fsm k.start false)) reg

  -- The registry behind the call, `handled` and the error.
  unfoldable pub launch_domain_with_factory :
      DomainSpec → DiscoveryRegistry → DiscoveryRegistry × Bool × Option (LaunchError E)
  launch_domain_with_factory spec reg = ran_by (lookup spec.kind env.factories) spec reg

  same_ran :
      (spec : DomainSpec) (k : Kernel S H E) (r : Fsm S E × Option E) (m : DomainManager S H E)
      → ((ran spec k r m.reg).0 ≡ (launched env spec k r m).0.reg)
        × ((ran spec k r m.reg).2 ≡ in_run_fsm (launched env spec k r m).1)
        × ((ran spec k r m.reg).1 ≡ true)
  same_ran spec k (f, some e) m = (refl, refl, refl)
  same_ran spec k (f, none) m = (refl, refl, refl)

  -- Both ways of launching a domain leave the same registry. Either the domain's kind has a factory:
  -- then `LaunchDomainWithFactory` answers that it handled it, and fails exactly when the manager
  -- does, with the manager's error wrapped by `run FSM: `; or it has none: then it is not handled and no error, and the manager's launch is not implemented.
  pub launch_domain_with_factory-launch_inproc :
      (spec : DomainSpec) (m : DomainManager S H E)
      → ((launch_domain_with_factory spec m.reg).0 ≡ (launch_inproc env spec m).0.reg)
        × ((((launch_domain_with_factory spec m.reg).1 ≡ true)
              × ((launch_domain_with_factory spec m.reg).2
                  ≡ in_run_fsm (launch_inproc env spec m).1))
            ⊎ (((launch_domain_with_factory spec m.reg).1 ≡ false)
                × ((launch_domain_with_factory spec m.reg).2 ≡ none)
                × ((launch_inproc env spec m).1 ≡ some (not_implemented spec.mode))))
  unfolding launch_domain_with_factory launch_inproc
  launch_domain_with_factory-launch_inproc spec m =
      elim (Option-cases (lookup spec.kind env.factories)) [
        | inl e ↦ rw (e, ran_by, launch_by) (refl, inr (refl, refl, refl))
        | inr (f, e) ↦
            let (a, b, c) =
              same_ran spec (f spec.id)
                (run (f spec.id).hooks (env.host spec) spec.config
                  (new_fsm (f spec.id).start false))
                m in
            rw (e, ran_by, launch_by) (a, inl (c, b))
      ]
