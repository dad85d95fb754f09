-- ===== src/EndToEnd/Report/Examples.antt =====
-- A drain of a kernel that the registry does not know yet.
use mathlib.Core.List.Permᴰ
use rassberry.Base.{String, [], some, ◌≡◌, ◌≤◌, refl, arith, differ, ◌==◌, if◌then◌else◌}
use rassberry.Base.Maps.{Map, lookup, insert, Distinct}
use rassberry.Contracts.{Health}
use rassberry.Registry.{new_discovery_registry, update_health}
use rassberry.Registry.Aggregate.{HealthAggregator, new_health_aggregator, tick}
use rassberry.Registry.Aggregate.Severity.{rank}
use rassberry.Admin.{
  AdminServer, new_admin_server, Clock, respond, health_report, health_handler,
  set_health_aggregator, drained, control_handler,
}
use rassberry.Rkctl.{base_url, cmd_kernels_action}
use rassberry.Rkctl.Actions.{deliver}
use rassberry.EndToEnd.Report.{visited, drain_reported}
use rassberry.Telemetry.Filter.{has_prefix}
use rassberry.Text.{trim_right, trim_prefix, split}

abbrev server : AdminServer
server = new_admin_server new_discovery_registry

abbrev clock : Clock
clock = record { handler = 5; since = 6; registered = 7; updated = 8 }

abbrev served : String → String
served url = if url == "http://h/admin/kernels/site/drain" then "/admin/kernels/site/drain" else ""

abbrev after : AdminServer
after = (deliver served (cmd_kernels_action "http://h/" "site" "drain") clock server).0

after-Distinct : Distinct after.reg.kernels
unfolding cmd_kernels_action control_handler split trim_prefix has_prefix update_health lookup
    insert new_admin_server new_discovery_registry
after-Distinct = (tt, tt)

abbrev aggregator : HealthAggregator
aggregator = (tick 9 10 (visited after.reg.kernels) (new_health_aggregator 1)).0

drain_reported_example :
    (summary : Health) × (kernels : Map Health) × (health_handler [] after.reg.kernels 11 12 13 14
        (set_health_aggregator aggregator after)
      ≡ respond 200 (health_report summary kernels 14))
    × (2 ≤ rank summary.status)
    × (lookup "site" kernels ≡ some (drained 5))
unfolding base_url trim_right
drain_reported_example =
    drain_reported "http://h/" "site" served clock server (new_health_aggregator 1)
      after.reg.kernels after.reg.kernels [] 9 10 11 12 13 14 (differ "site" "" refl) refl refl
      (omega arith) (Permᴰ.refl _) (Permᴰ.refl _) after-Distinct after-Distinct
