-- ===== src/Degradation.antt =====
-- cmd/rk/degradation_policy_gen.go: the exports of a kernel that is not ready are taken out of the
-- registry and kept aside. The policy's map and the registry are one state.
pub mod Cells
pub mod Examples
pub mod Tick
pub mod Restore
pub mod Stale
use rassberry.Base.{String, List, Option, none, some, [], ◌∷◌, ◌++◌}
use rassberry.Base.Maps.{Map, lookup, insert, erase}
use rassberry.Contracts.{
  HealthStatus, health_ready, health_degraded, health_failed, health_draining, health_stopped,
  Exports,
}
use rassberry.Registry.{KernelRecord, DiscoveryRegistry, DiscoveryRecord, set_exports, list}

pub record DegradationPolicy : Type 0 where
  pub reg : DiscoveryRegistry
  pub snapshot : Map (Option Exports)

unfoldable pub new_degradation_policy : DiscoveryRegistry → DegradationPolicy
new_degradation_policy reg = record { reg = reg; snapshot = [] }

-- `append([]T(nil), s...)`
abbrev copy_slice {ℓ} : {A : Type ℓ} → List A → List A
copy_slice s = [] ++ s

unfoldable pub copy_exports : Option Exports → Option Exports
copy_exports none = none
copy_exports (some ex) = some (record {
  network = copy_slice ex.network;
  events = copy_slice ex.events;
  streams = copy_slice ex.streams;
  cli = copy_slice ex.cli;
  local = copy_slice ex.local;
})

-- The case `HealthReady`: what was hidden comes back.
unfoldable pub restore : String → Option (Option Exports) → DegradationPolicy → DegradationPolicy
restore id none p = p
restore id (some ex) p = record { reg = set_exports id ex p.reg; snapshot = erase id p.snapshot }

abbrev keep_first :
    String → Option Exports → Option (Option Exports) → Map (Option Exports) → Map (Option Exports)
keep_first id ex none snapshot = insert id (copy_exports ex) snapshot
keep_first id ex (some _) snapshot = snapshot

-- The other four cases: what is not hidden yet is kept, and then hidden.
unfoldable pub hide : String → Option Exports → DegradationPolicy → DegradationPolicy
hide id none p = p
hide id (some ex) p = record {
  reg = set_exports id none p.reg;
  snapshot = keep_first id (some ex) (lookup id p.snapshot) p.snapshot;
}

unfoldable pub dispatch : HealthStatus → DiscoveryRecord → DegradationPolicy → DegradationPolicy
unfolding restore hide
dispatch health_ready rec p = restore rec.id (lookup rec.id p.snapshot) p
dispatch health_degraded rec p = hide rec.id rec.exports p
dispatch health_failed rec p = hide rec.id rec.exports p
dispatch health_draining rec p = hide rec.id rec.exports p
dispatch health_stopped rec p = hide rec.id rec.exports p
dispatch _ rec p = p

-- One round of the loop over the listing.
unfoldable pub visit : DiscoveryRecord → DegradationPolicy → DegradationPolicy
unfolding dispatch
visit rec p = dispatch rec.health.status rec p

unfoldable pub visit_all : List DiscoveryRecord → DegradationPolicy → DegradationPolicy
visit_all [] p = p
visit_all (rec ∷ recs) p = visit_all recs (visit rec p)

-- One tick of `Run`; `order` is the order in which `List` visits the registry's map.
unfoldable pub tick : Map KernelRecord → DegradationPolicy → DegradationPolicy
tick order p = visit_all (list order) p
