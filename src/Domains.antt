-- ===== src/Domains.antt =====
-- cmd/rk/domain_manager_gen.go, domain_factory_gen.go and domain_launcher_gen.go, and `DomainSpec` of
-- config_gen.go. `S` is the type of kernels' states, `H` of hosts. The factories are a map, and
-- `reflect.DeepEqual` on the two maps of a specification is a parameter, as it tells nil from empty.
pub mod Renew
pub mod Reload
pub mod Retire
pub mod Factory
pub mod Examples
use rassberry.Base.{
  ℕ, String, Bool, List, Option, true, false, none, some, [], ◌∷◌, ◌++◌, ◌==◌, ◌&&◌, ◌||◌, not,
  if◌then◌else◌,
}
use rassberry.Base.Maps.{Map, lookup, insert, erase}
use rassberry.Contracts.{AnyValue, text_value, other_value, Exports, domain_scope}
use rassberry.Registry.{KernelRecord, DiscoveryRegistry, register, unregister}
use rassberry.Lifecycle.{KernelModule, Fsm, new_fsm, run, drain, stop}

pub record DomainSpec : Type 0 where
  pub id : String
  pub mode : String
  pub kind : String
  pub entry : String
  pub command : String
  pub feature_flags : Map Bool
  pub config : Map AnyValue

pub data LaunchError (E : Type 0) : Type 0 where
  run_failed : E → LaunchError E
  run_fsm_failed : E → LaunchError E
  not_implemented : String → LaunchError E

-- What `DomainKernelLauncher.Launch` answers.
abbrev pub launcher_launch : {E : Type 0} → DomainSpec → LaunchError E
launcher_launch spec = not_implemented spec.mode

abbrev pub Config : Type 0
Config = Map AnyValue

abbrev pub text_or : String → Option AnyValue → String
text_or d (some (text_value v)) = if v == "" then d else v
text_or d _ = d

-- The exports of a domain: HTTP `/hello`.
abbrev pub hello_exports : Config → Exports
hello_exports config = record {
  network =
      record {
        name = "hello";
        protocol = "http";
        address = text_or ":8081" (lookup "http_addr" config);
        version = "v1";
        endpoints = "/hello" ∷ [];
      }
      ∷ [];
  events = [];
  streams = [];
  cli = [];
  local = [];
}

module _ (S H E : Type 0) where
  -- A kernel as a factory makes it: its hooks, and its state.
  pub record Kernel : Type 0 where
    pub hooks : KernelModule S H (Map AnyValue) E
    pub start : S

  pub record DomainRun : Type 0 where
    pub spec : DomainSpec
    pub kernel : Kernel
    pub fsm : Fsm S E

  -- `retired` are the automata of the runs that were stopped, with their states behind it.
  pub record DomainManager : Type 0 where
    pub reg : DiscoveryRegistry
    pub runs : Map DomainRun
    pub retired : List (Fsm S E)

  -- What the manager is given from outside: the factories, the host of a domain, `reflect.DeepEqual`
  -- on the configurations and on the feature flags, and the readings of the clock for a launch.
  pub record Environment : Type 0 where
    pub factories : Map (String → Kernel)
    pub host : DomainSpec → H
    pub same_config : Map AnyValue → Map AnyValue → Bool
    pub same_flags : Map Bool → Map Bool → Bool
    pub registered : String → ℕ
    pub updated : String → ℕ

unfoldable pub index_of : List DomainSpec → Map DomainSpec → Map DomainSpec
index_of [] index = index
index_of (s ∷ specs) index = index_of specs (insert s.id s index)

abbrev pub keeps : Option DomainSpec → Bool
keeps none = false
keeps (some s) = true

module _ {S H E : Type 0} (env : Environment S H E) where
  abbrev pub domain_record : DomainSpec → Kernel S H E → Fsm S E → KernelRecord
  domain_record spec k f = record {
    id = spec.id;
    scope = domain_scope;
    manifest = k.hooks.manifest f.kernel;
    health = k.hooks.health f.kernel;
    exports = some (hello_exports spec.config);
    registered_at = env.registered spec.id;
    updated_at = 0;
  }

  -- What follows the run of the automaton.
  abbrev pub launched :
      DomainSpec
      → Kernel S H E
      → Fsm S E × Option E
      → DomainManager S H E
      → DomainManager S H E × Option (LaunchError E)
  launched spec k (f, some e) m = (m, some (run_failed e))
  launched spec k (f, none) m = (
    record m {
      reg = register (domain_record spec k f) (env.registered spec.id) (env.updated spec.id) m.reg;
      runs = insert spec.id (record { spec = spec; kernel = k; fsm = f }) m.runs;
    },
    none,
  )

  abbrev pub launch_by :
      Option (String → Kernel S H E)
      → DomainSpec
      → DomainManager S H E
      → DomainManager S H E × Option (LaunchError E)
  launch_by none spec m = (m, some (launcher_launch spec))
  launch_by (some f) spec m =
      let k = f spec.id in
      launched spec k (run k.hooks (env.host spec) spec.config (new_fsm k.start false)) m

  unfoldable pub launch_inproc :
      DomainSpec → DomainManager S H E → DomainManager S H E × Option (LaunchError E)
  launch_inproc spec m = launch_by (lookup spec.kind env.factories) spec m

  -- The errors of `Drain` and `Stop` are dropped.
  abbrev pub stop_run :
      String → Option (DomainRun S H E) → DomainManager S H E → DomainManager S H E
  stop_run id none m = m
  stop_run id (some r) m = record {
    reg = unregister id m.reg;
    runs = erase id m.runs;
    retired = m.retired ++ (stop r.kernel.hooks (drain r.kernel.hooks r.fsm).0).0 ∷ [];
  }

  unfoldable pub stop_domain : String → DomainManager S H E → DomainManager S H E
  stop_domain id m = stop_run id (lookup id m.runs) m

  -- `ids` are the keys of `m.runs` as the first `range` visits them.
  unfoldable pub stop_removed :
      Map DomainSpec → List String → DomainManager S H E → DomainManager S H E
  stop_removed index [] m = m
  stop_removed index (id ∷ ids) m =
      stop_removed index ids (if keeps (lookup id index) then m else stop_domain id m)

  -- Whether a new specification asks for a restart.
  abbrev pub changed : DomainSpec → DomainSpec → Bool
  changed old s =
      not (old.mode == s.mode)
      || not (old.kind == s.kind)
      || not (env.same_config old.config s.config)
      || not (env.same_flags old.feature_flags s.feature_flags)

  abbrev pub renew :
      String → DomainSpec → Option (DomainRun S H E) → DomainManager S H E → DomainManager S H E
  renew id s none m = (launch_inproc s m).0
  renew id s (some r) m =
      if changed r.spec s
      then (launch_inproc s (stop_domain id m)).0
      else record m { runs = insert id (record r { spec = s }) m.runs }

  -- `order` lists the entries of the index as the second `range` visits them.
  unfoldable pub renew_all : Map DomainSpec → DomainManager S H E → DomainManager S H E
  renew_all [] m = m
  renew_all ((id, s) ∷ order) m = renew_all order (renew id s (lookup id m.runs) m)

  unfoldable pub reload :
      Map DomainSpec → List String → Map DomainSpec → DomainManager S H E → DomainManager S H E
  reload index ids order m = renew_all order (stop_removed index ids m)
