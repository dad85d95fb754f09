-- ===== src/EndToEnd/Operator.antt =====
-- An operator takes a kernel out of the traffic and puts it back: the client's `kernels drain` and
-- `kernels restart` (Rkctl), the administration that writes the registry (Admin), and the ticks of the
-- degradation policy on that registry (Degradation). Each step is that module's function.
mod Examples
use mathlib.Core.List.{Permᴰ}
use Prim.Native.String.{◌++◌}
use rassberry.Base.{ℕ, String, Option, false, none, some, ◌≡◌, ◌≢◌, refl, ap, ◌∙◌, ne_of_false}
use rassberry.Base.Maps.{Map, lookup, Distinct}
use rassberry.Registry.{DiscoveryRegistry, KernelRecord, update_health}
use rassberry.Admin.{
  AdminServer, Clock, Response, respond, accepted, restarted, drained, put_health,
}
use rassberry.Degradation.{DegradationPolicy, tick}
use rassberry.Degradation.Restore.{exports_of, on_registry, settle, settle_round_trip}
use rassberry.Rkctl.{Exchange, base_url, action_path, cmd_kernels_action}
use rassberry.Rkctl.Actions.{Action, restart, drain, name, mark, deliver, control_of_action}
use rassberry.Text.{holds, slash}

-- The administration and the policy hold the same registry: what a command of the client, behind the
-- URL's path as `served` shows it, leaves for the policy, and the answer to the client.
unfoldable pub command :
    (String → String)
    → Exchange
    → Clock
    → AdminServer
    → DegradationPolicy
    → DegradationPolicy × Option Response
command served x t s p =
    let (s', answer) = deliver served x t (record s { reg = p.reg }) in
    (on_registry (λ r. s'.reg) p, answer)

command_of_action :
    (a : Action) (http id : String) (served : String → String) (t : Clock) (s : AdminServer)
    (p : DegradationPolicy)
    → id ≢ ""
    → holds slash id ≡ false
    → served (base_url http ++ action_path id (name a)) ≡ action_path id (name a)
    → command served (cmd_kernels_action http id (name a)) t s p ≡ (
      on_registry (update_health id (mark a t.handler) t.since t.registered t.updated) p,
      some (respond 202 (accepted (name a) id)),
    )
unfolding command cmd_kernels_action
command_of_action a http id served t s p e h q =
    rw (ne_of_false id "" e, q, control_of_action a id t (record s { reg = p.reg }) h) refl

-- A kernel with a name that is not empty and has no slash, known to the registry, of whose exports
-- nothing is kept: behind a server that shows the handler the path of the URL, `kernels drain` is
-- accepted and the next tick hides its exports; `kernels restart` is then accepted, and the tick
-- behind it shows the exports that it had before, and nothing of them is kept. The orders in which
-- the ticks visit the map do not matter.
pub drain_then_restart :
    (http id : String) (served : String → String) (t₁ t₂ : Clock) (s₁ s₂ : AdminServer)
    (o₁ o₂ : Map KernelRecord) (p : DegradationPolicy) (rec : KernelRecord)
    → id ≢ ""
    → holds slash id ≡ false
    → ((a : Action) → served (base_url http ++ action_path id (name a)) ≡ action_path id (name a))
    → Distinct p.reg.kernels
    → lookup id p.reg.kernels ≡ some rec
    → lookup id p.snapshot ≡ none
    → let out = command served (cmd_kernels_action http id "drain") t₁ s₁ p in
      let hidden = tick o₁ out.0 in
      let back = command served (cmd_kernels_action http id "restart") t₂ s₂ hidden in
      Permᴰ out.0.reg.kernels o₁
      → Permᴰ back.0.reg.kernels o₂
      → (out.1 ≡ some (respond 202 (accepted "drain" id)))
        × (back.1 ≡ some (respond 202 (accepted "restart" id)))
        × (exports_of id hidden ≡ some none)
        × (exports_of id (tick o₂ back.0) ≡ some rec.exports)
        × (lookup id (tick o₂ back.0).snapshot ≡ none)
unfolding settle
drain_then_restart http id served t₁ t₂ s₁ s₂ o₁ o₂ p rec e h q d known fresh =
    let after : DegradationPolicy =
      on_registry (update_health id (drained t₁.handler) t₁.since t₁.registered t₁.updated) p in
    let x : command served (cmd_kernels_action http id "drain") t₁ s₁ p
        ≡ (after, some (respond 202 (accepted "drain" id))) =
      command_of_action drain http id served t₁ s₁ p e h (q drain) in
    let y : command served (cmd_kernels_action http id "restart") t₂ s₂ (tick o₁ after) ≡ (
      on_registry (update_health id (restarted t₂.handler) t₂.since t₂.registered t₂.updated)
          (tick o₁ after),
      some (respond 202 (accepted "restart" id)),
    ) =
      command_of_action restart http id served t₂ s₂ (tick o₁ after) e h (q restart) in
    rw (x, y)
      λ p₁ p₂.
        let (u, v, w) =
          settle_round_trip id (drained t₁.handler) (restarted t₂.handler) t₁.since t₁.registered
            t₁.updated t₂.since t₂.registered t₂.updated o₁ o₂ p rec tt refl d known fresh p₁ p₂ in
        (refl, refl, u, v, w)
