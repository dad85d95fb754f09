-- ===== src/Registry/Aggregate.antt =====
-- AggregateHealth and KernelHealth of cmd/rk/discovery_registry_gen.go, and the HealthAggregator of
-- cmd/rk/health_aggregator_gen.go, which keeps the last summary.
pub mod Severity
pub mod Seen
use Prim.Native.String.{◌++◌}
use rassberry.Base.{
  ℕ, String, Bool, List, Option, true, false, none, some, [], ◌∷◌, ◌==◌, ◌||◌, map, if◌then◌else◌,
  ltb, nat_eq,
}
use rassberry.Base.Maps.{Map}
use rassberry.Contracts.{
  Health, HealthStatus, health_ready, health_degraded, health_failed, health_draining,
  health_stopped, health_unset, health_other,
}
use rassberry.Registry.{KernelRecord, or_now, or_text}

-- The lower severities that a status does not replace.
abbrev pub is_failed : HealthStatus → Bool
is_failed health_failed = true
is_failed _ = false

abbrev pub is_degraded : HealthStatus → Bool
is_degraded health_degraded = true
is_degraded _ = false

abbrev pub is_ready : HealthStatus → Bool
is_ready health_ready = true
is_ready _ = false

-- The `switch h.Status` of the loop, on the status so far and on the variable `reason`.
unfoldable pub raise : HealthStatus → String → HealthStatus × String → HealthStatus × String
raise health_failed id (status, reason) = (health_failed, or_text reason ("kernel failed: " ++ id))
raise health_degraded id (status, reason) =
    if is_failed status
    then (status, reason)
    else (health_degraded, or_text reason ("kernel degraded: " ++ id))
raise health_draining id (status, reason) =
    if is_failed status || is_degraded status
    then (status, reason)
    else (health_draining, or_text reason ("kernel draining: " ++ id))
raise health_stopped id (status, reason) =
    if is_ready status
    then (health_stopped, or_text reason ("kernel stopped: " ++ id))
    else (status, reason)
raise health_ready id (health_unset, reason) = (health_ready, reason)
raise (health_other _) id (health_unset, reason) = (health_ready, reason)
raise _ id (status, reason) = (status, reason)

abbrev pub earlier : ℕ → ℕ → ℕ
earlier since summary = if nat_eq summary 0 || ltb since summary then since else summary

-- One round of the loop; `reason` is the summary's.
unfoldable pub absorb_reported : HealthStatus → KernelRecord → Health → Health
unfolding raise
absorb_reported health_unset rec summary = summary
absorb_reported h rec summary =
    let (status, reason) = raise h rec.manifest.kernel_id (summary.status, summary.reason) in
    record { status = status; reason = reason; since = earlier rec.health.since summary.since }

unfoldable pub absorb : KernelRecord → Health → Health
unfolding absorb_reported
absorb rec summary = absorb_reported rec.health.status rec summary

unfoldable pub absorb_all : List KernelRecord → Health → Health
absorb_all [] summary = summary
absorb_all (rec ∷ order) summary = absorb_all order (absorb rec summary)

abbrev pub started_at : ℕ → Health
started_at now = record { status = health_ready; reason = ""; since = now }

abbrev pub or_ready : HealthStatus → HealthStatus
or_ready health_unset = health_ready
or_ready status = status

abbrev pub finish : ℕ → Health → Health
finish late summary = record summary {
  since = or_now summary.since late;
  status = or_ready summary.status;
}

-- `order` lists the records as `range` visits them. `now` is the first reading of the clock, `late`
-- the one behind the loop.
unfoldable pub aggregate_health : ℕ → ℕ → List KernelRecord → Health
unfolding absorb_all absorb
aggregate_health now late [] = started_at now
aggregate_health now late (rec ∷ order) = finish late (absorb_all (rec ∷ order) (started_at now))

pub record HealthAggregator : Type 0 where
  pub last : Option Health

unfoldable pub new_health_aggregator : ℕ → HealthAggregator
new_health_aggregator now = record { last = some (started_at now) }

unfoldable pub snapshot : ℕ → HealthAggregator → Health
snapshot now h = elim h.last [ none ↦ started_at now | some v ↦ v ]

-- One tick of `Run`: the summary is kept, and handed on to the bus under this topic.
abbrev pub health_topic : String
health_topic = "telemetry.health.root"

unfoldable pub tick :
    ℕ → ℕ → List KernelRecord → HealthAggregator → HealthAggregator × String × Health
unfolding aggregate_health
tick now late order h =
    let v = aggregate_health now late order in (record { last = some v }, health_topic, v)
