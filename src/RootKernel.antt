-- ===== src/RootKernel.antt =====
-- cmd/rk/root_kernel_gen.go: how the root kernel starts its domains, and what a SIGHUP does. The
-- goroutines that it starts besides are those of the other modules; their servers are the library's.
pub mod Launch
pub mod Again
pub mod Serving
pub mod Examples
use rassberry.Base.{
  ℕ, String, Bool, List, Option, true, false, none, some, [], ◌∷◌, ◌==◌, ◌&&◌, if◌then◌else◌,
}
use rassberry.Base.Maps.{Map, lookup}
use rassberry.Contracts.{Manifest, root_scope}
use rassberry.Registry.{DiscoveryRegistry, new_discovery_registry, register_kernel, zero_manifest}
use rassberry.Domains.{
  DomainSpec, DomainManager, Environment, LaunchError, Kernel, launch_inproc, launcher_launch,
  index_of, reload,
}
use rassberry.Domains.Factory.{launch_domain_with_factory}
use rassberry.Config.{RootConfig, validate}

-- `Manifest{KernelID: "rk", Scope: contracts.RootScope, Version: "0.0.1"}`
abbrev pub root_manifest : Manifest
root_manifest = record zero_manifest { kernel_id = "rk"; scope = root_scope; version = "0.0.1" }

-- What is logged of a launch.
pub data Launched (E : Type 0) : Type 0 where
  via_manager via_factory : Launched E
  manager_failed factory_failed launch_failed : LaunchError E → Launched E

abbrev pub has_factory : {A : Type 0} → Option A → Bool
has_factory none = false
has_factory (some f) = true

module _ {S H E : Type 0} (env : Environment S H E) where
  -- The registry holds the root kernel; the clock is read three times.
  unfoldable pub root_manager : ℕ → ℕ → ℕ → DomainManager S H E
  root_manager registered since updated = record {
    reg = register_kernel root_manifest registered since updated new_discovery_registry;
    runs = [];
    retired = [];
  }

  abbrev pub by_manager :
      DomainManager S H E × Option (LaunchError E) → DomainManager S H E × Launched E
  by_manager (m, none) = (m, via_manager)
  by_manager (m, some e) = (m, manager_failed e)

  abbrev pub by_factory :
      DomainSpec
      → DiscoveryRegistry × Bool × Option (LaunchError E)
      → DomainManager S H E
      → DomainManager S H E × Launched E
  by_factory spec (reg, true, none) m = (record m { reg = reg }, via_factory)
  by_factory spec (reg, true, some e) m = (record m { reg = reg }, factory_failed e)
  by_factory spec (reg, false, err) m =
      (record m { reg = reg }, launch_failed (launcher_launch spec))

  -- One round of the loop over the domains.
  unfoldable pub launch : DomainSpec → DomainManager S H E → DomainManager S H E × Launched E
  unfolding launch_inproc launch_domain_with_factory
  launch spec m =
      if spec.mode == "inproc" && has_factory (lookup spec.kind env.factories)
      then by_manager (launch_inproc env spec m)
      else by_factory spec (launch_domain_with_factory env spec m.reg) m

  unfoldable pub launch_all :
      List DomainSpec → DomainManager S H E → DomainManager S H E × List (Launched E)
  unfolding launch
  launch_all [] m = (m, [])
  launch_all (spec ∷ specs) m =
      let (m, l) = launch spec m in let (n, ls) = launch_all specs m in (n, l ∷ ls)

  -- `RunRootKernel` up to its servers: the error of the configuration, or what was started.
  pub data Started : Type 0 where
    invalid : String → Started
    serving : DomainManager S H E → List (Launched E) → Started

  unfoldable pub run_root_kernel : RootConfig → ℕ → ℕ → ℕ → Started
  unfolding validate launch_all root_manager
  run_root_kernel cfg registered since updated = elim (validate cfg) [
    | some e ↦ invalid e
    | none ↦
        let (m, ls) = launch_all cfg.domains (root_manager registered since updated) in serving m ls
  ]

  -- A SIGHUP, on what `LoadConfig` answers; `ids` and `order` are as for `Reload`.
  unfoldable pub on_hup :
      RootConfig × Option E
      → List String
      → Map DomainSpec
      → DomainManager S H E
      → DomainManager S H E
  unfolding reload
  on_hup (cfg, none) ids order m = reload env (index_of cfg.domains []) ids order m
  on_hup (cfg, some e) ids order m = m
