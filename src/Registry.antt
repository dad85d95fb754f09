-- ===== src/Registry.antt =====
-- cmd/rk/discovery_registry_gen.go and discovery_registry_exports_gen.go. Each method holds the lock
-- from its first to its last access, so it is one step on the map; a reading of `time.Now` is an
-- argument, in the order of the calls. The records' pointers do not leave the registry.
pub mod Aggregate
pub mod Examples
pub mod Store
pub mod Listing
pub mod Interleaving
use rassberry.Base.{
  ℕ, String, Bool, List, Option, true, false, none, some, [], ◌∷◌, ◌++◌, ◌==◌, ◌&&◌, not, map,
  if◌then◌else◌, ltb, nat_eq,
}
use rassberry.Base.Maps.{Map, lookup, insert, erase}
use rassberry.Base.Order.{text_lt}
use rassberry.Contracts.{
  Scope, Health, HealthStatus, health_ready, health_degraded, health_failed, health_draining,
  health_stopped, health_unset, health_other, Manifest, Exports,
}

pub record KernelRecord : Type 0 where
  pub id : String
  pub scope : Scope
  pub manifest : Manifest
  pub health : Health
  pub exports : Option Exports
  pub registered_at : ℕ
  pub updated_at : ℕ

pub record DiscoveryRegistry : Type 0 where
  pub kernels : Map KernelRecord

pub record DiscoveryRecord : Type 0 where
  pub id : String
  pub health : Health
  pub exports : Option Exports

unfoldable pub new_discovery_registry : DiscoveryRegistry
new_discovery_registry = record { kernels = [] }

-- The zero values of Go.
abbrev pub zero_manifest : Manifest
zero_manifest = record {
  kernel_id = "";
  version = "";
  scope = "";
  features = [];
  requires = [];
  resources = [];
  security = [];
  compat = [];
}

abbrev pub zero_health : Health
zero_health = record { status = health_unset; reason = ""; since = 0 }

abbrev pub zero_record : KernelRecord
zero_record = record {
  id = "";
  scope = "";
  manifest = zero_manifest;
  health = zero_health;
  exports = none;
  registered_at = 0;
  updated_at = 0;
}

abbrev pub get_record : Option KernelRecord → KernelRecord → KernelRecord
get_record none d = d
get_record (some rec) d = rec

-- `t.IsZero()` with `t = now` behind it.
abbrev pub or_now : ℕ → ℕ → ℕ
or_now t now = if nat_eq t 0 then now else t

abbrev pub or_text : String → String → String
or_text s d = if s == "" then d else s

abbrev pub is_unset : HealthStatus → Bool
is_unset health_unset = true
is_unset _ = false

unfoldable pub register_kernel : Manifest → ℕ → ℕ → ℕ → DiscoveryRegistry → DiscoveryRegistry
register_kernel m registered since updated r =
    let rec = get_record (lookup m.kernel_id r.kernels) zero_record in
    record {
      kernels =
          insert m.kernel_id
            (record rec {
              id = m.kernel_id;
              scope = m.scope;
              manifest = m;
              registered_at = or_now rec.registered_at registered;
              health =
                  if is_unset rec.health.status
                  then record { status = health_ready; reason = ""; since = since }
                  else rec.health;
              updated_at = updated;
            })
            r.kernels;
    }

-- What `Register` fills in before it takes the lock.
unfoldable pub complete : KernelRecord → ℕ → ℕ → KernelRecord
complete rec registered updated =
    let kernel_id =
      if rec.manifest.kernel_id == "" && not (rec.id == "")
      then rec.id
      else rec.manifest.kernel_id in
    record rec {
      manifest = record (rec.manifest) { kernel_id = kernel_id };
      id = or_text rec.id kernel_id;
      scope = or_text rec.scope rec.manifest.scope;
      registered_at = or_now rec.registered_at registered;
      updated_at = updated;
    }

unfoldable pub register : KernelRecord → ℕ → ℕ → DiscoveryRegistry → DiscoveryRegistry
register rec registered updated r =
    let copy = complete rec registered updated in record { kernels = insert copy.id copy r.kernels }

unfoldable pub unregister : String → DiscoveryRegistry → DiscoveryRegistry
unregister id r = record { kernels = erase id r.kernels }

-- The record that `UpdateHealth` makes for an id that the registry does not know.
abbrev pub unknown_record : String → KernelRecord
unknown_record id = record zero_record {
  id = id;
  manifest = record zero_manifest { kernel_id = id };
}

-- What `UpdateHealth` writes to the record that it found or made.
abbrev pub mark_health : Health → ℕ → ℕ → ℕ → KernelRecord → KernelRecord
mark_health health since registered updated rec = record rec {
  health = record health { since = or_now health.since since };
  scope = or_text rec.scope rec.manifest.scope;
  registered_at = or_now rec.registered_at registered;
  updated_at = updated;
}

unfoldable pub update_health : String → Health → ℕ → ℕ → ℕ → DiscoveryRegistry → DiscoveryRegistry
update_health id health since registered updated r =
    let rec = get_record (lookup id r.kernels) (unknown_record id) in
    record { kernels = insert id (mark_health health since registered updated rec) r.kernels }

unfoldable pub set_exports : String → Option Exports → DiscoveryRegistry → DiscoveryRegistry
set_exports id ex r = elim (lookup id r.kernels) [
  | none ↦ r
  | some rec ↦ record { kernels = insert id (record rec { exports = ex }) r.kernels }
]

-- `sort.Slice` by a text key. The order of two values with one key is the library's to choose.
module _ {A : Type 0} (key : A → String) where
  unfoldable pub place : A → List A → List A
  place a [] = a ∷ []
  place a (b ∷ bs) = if text_lt (key b) (key a) then b ∷ place a bs else a ∷ b ∷ bs

  unfoldable pub sort_by : List A → List A
  unfolding place
  sort_by [] = []
  sort_by (a ∷ l) = place a (sort_by l)

-- `range r.kernels` visits the entries in an order that the runtime chooses anew each time. The
-- methods that range over the map take that order as the list of entries visited.
abbrev pub manifest_key : KernelRecord → String
manifest_key rec = rec.manifest.kernel_id

unfoldable pub kernels : Map KernelRecord → List KernelRecord
unfolding sort_by
kernels order = sort_by manifest_key (map (λ e. e.1) order)

unfoldable pub kernel_health : Map KernelRecord → Map Health
kernel_health [] = []
kernel_health ((id, rec) ∷ order) = insert id rec.health (kernel_health order)

abbrev pub discovery_record : String → KernelRecord → DiscoveryRecord
discovery_record id rec = record { id = id; health = rec.health; exports = rec.exports }

abbrev pub record_key : DiscoveryRecord → String
record_key d = d.id

unfoldable pub list : Map KernelRecord → List DiscoveryRecord
unfolding sort_by
list order = sort_by record_key (map (λ e. discovery_record e.0 e.1) order)
