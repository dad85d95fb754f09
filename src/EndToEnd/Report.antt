-- ===== src/EndToEnd/Report.antt =====
-- What a `kernels drain` of the client shows in the report that `kernels health` asks for: the
-- administration writes the registry (Admin), a tick of the aggregator reads it (Registry.Aggregate),
-- and the handler of `/admin/health` answers with both.
mod Examples
use Prim.Native.String.{◌++◌}
use mathlib.Core.List.{Permᴰ}
use rassberry.Base.{
  ℕ, String, List, Option, false, none, some, ◌≡◌, ◌≢◌, ◌≤◌, refl, sym, ap, ◌∙◌, subst, arith, map,
  ne_of_false,
}
use rassberry.Base.Maps.{Map, lookup, Distinct}
use rassberry.Base.Entries.{lookup_of_perm}
use rassberry.Contracts.{Health, health_draining}
use rassberry.Registry.{KernelRecord, kernel_health}
use rassberry.Registry.Aggregate.{HealthAggregator, aggregate_health, tick, snapshot}
use rassberry.Registry.Aggregate.Severity.{rank, worst, status_of_rank, aggregate_health-worst}
use rassberry.Registry.Aggregate.Seen.{rank-le-worst, rank_of_status, lookup-kernel_health}
use rassberry.Admin.{
  AdminServer, Clock, respond, health_report, health_handler, set_health_aggregator, drained,
}
use rassberry.Rkctl.{base_url, action_path, cmd_kernels_action}
use rassberry.Rkctl.Actions.{drain, deliver, health_of, action_marked}
use rassberry.Text.{holds, slash}

-- A record that has the health.
record_with :
    (o : Option KernelRecord) (h : Health)
    → health_of o ≡ some h
    → (rec : KernelRecord) × (o ≡ some rec) × (rec.health ≡ h)
record_with none h e = cc
record_with (some rec) h e = (rec, refl, cc)

-- The kernels in the order of a visit.
abbrev pub visited : Map KernelRecord → List KernelRecord
visited order = map (λ e. e.1) order

tick-bad :
    (id : String) (rec : KernelRecord) (order : Map KernelRecord) (now late : ℕ)
    → lookup id order ≡ some rec
    → rec.health.status ≡ health_draining
    → 2 ≤ rank (aggregate_health now late (visited order)).status
tick-bad id rec order now late h s =
    let w : rank rec.health.status ≤ worst (visited order) = rank-le-worst id rec order h in
    let v : rank rec.health.status ≡ 2 = ap rank s in
    subst (λ x. 2 ≤ rank x) (sym (aggregate_health-worst now late (visited order)))
      (rank_of_status 2 (worst (visited order)) (omega arith) (omega (arith, w, v)))

report_of :
    (visit : List KernelRecord) (o₁ o₂ : Map KernelRecord) (now late now₂ late₂ shown generated : ℕ)
    (h : HealthAggregator) (s : AdminServer)
    → health_handler visit o₂ now₂ late₂ shown generated
        (set_health_aggregator (tick now late (visited o₁) h).0 s)
      ≡ respond 200
          (health_report (aggregate_health now late (visited o₁)) (kernel_health o₂) generated)
unfolding health_handler set_health_aggregator tick snapshot
report_of visit o₁ o₂ now late now₂ late₂ shown generated h s = refl

-- A kernel with a name that is not empty and has no slash, behind a server that shows the handler the
-- path of the URL, is drained by the client; then the aggregator ticks. The report of the
-- administration shows that kernel as draining since that moment, and a summary that is draining
-- or worse. The orders in which the map is visited do not matter.
pub drain_reported :
    (http id : String) (served : String → String) (t : Clock) (s : AdminServer)
    (h : HealthAggregator) (o₁ o₂ : Map KernelRecord) (visit : List KernelRecord)
    (now late now₂ late₂ shown generated : ℕ)
    → id ≢ ""
    → holds slash id ≡ false
    → served (base_url http ++ action_path id "drain") ≡ action_path id "drain"
    → t.handler ≢ 0
    → let after = (deliver served (cmd_kernels_action http id "drain") t s).0 in
      let ticked = set_health_aggregator (tick now late (visited o₁) h).0 after in
      Permᴰ after.reg.kernels o₁
      → Permᴰ after.reg.kernels o₂
      → Distinct o₁
      → Distinct o₂
      → (summary : Health) × (kernels : Map Health) × (health_handler visit o₂ now₂ late₂ shown
            generated ticked
          ≡ respond 200 (health_report summary kernels generated))
        × (2 ≤ rank summary.status)
        × (lookup id kernels ≡ some (drained t.handler))
drain_reported http id served t s h o₁ o₂ visit now late now₂ late₂ shown generated e n p z q₁ q₂ d₁
      d₂ =
    let after = (deliver served (cmd_kernels_action http id "drain") t s).0 in
    let (rec, found, marked) =
      record_with (lookup id after.reg.kernels) (drained t.handler)
        (action_marked drain http id served t s e n p z) in
    let f₁ = lookup_of_perm id rec after.reg.kernels o₁ q₁ d₁ found in
    let f₂ = lookup_of_perm id rec after.reg.kernels o₂ q₂ d₂ found in
    (
      aggregate_health now late (visited o₁),
      kernel_health o₂,
      report_of visit o₁ o₂ now late now₂ late₂ shown generated h after,
      tick-bad id rec o₁ now late f₁ (ap (λ x. x.status) marked),
      lookup-kernel_health id rec o₂ f₂ ∙ ap some marked,
    )
