-- ===== src/EndToEnd/Operator/Examples.antt =====
-- An operator's drain and restart of a kernel that exports something.
use Prim.Native.String.{◌++◌}
use mathlib.Core.List.Permᴰ
use rassberry.Base.{ℕ, String, Option, none, some, [], ◌∷◌, ◌≡◌, refl, differ}
use rassberry.Base.Maps.{lookup}
use rassberry.Contracts.{Exports, health_ready}
use rassberry.Registry.{KernelRecord}
use rassberry.Registry.Examples.{kernel_of}
use rassberry.Admin.{AdminServer, Clock, new_admin_server, respond, accepted, Response}
use rassberry.Degradation.{DegradationPolicy, tick}
use rassberry.Degradation.Restore.{exports_of}
use rassberry.Rkctl.{base_url, action_path, cmd_kernels_action}
use rassberry.Rkctl.Actions.{Action, restart, drain, name}
use rassberry.EndToEnd.Operator.{command, drain_then_restart}
use rassberry.Telemetry.Filter.{has_prefix}
use rassberry.Text.{trim_prefix, trim_right}

abbrev some_exports : Option Exports
some_exports = some (record { network = []; events = []; streams = []; cli = []; local = [] })

abbrev site : KernelRecord
site = record (kernel_of "site" health_ready) { exports = some_exports }

abbrev before : DegradationPolicy
before = record { reg = record { kernels = ("site", site) ∷ [] }; snapshot = [] }

abbrev server : AdminServer
server = new_admin_server before.reg

abbrev clock : ℕ → Clock
clock t = record { handler = t; since = t; registered = t; updated = t }

abbrev served : String → String
served url = trim_prefix url "http://h"

served_action :
    (a : Action)
    → served (base_url "http://h/" ++ action_path "site" (name a)) ≡ action_path "site" (name a)
unfolding base_url trim_right trim_prefix has_prefix
served_action restart = refl
served_action drain = refl

abbrev out : DegradationPolicy × Option Response
out = command served (cmd_kernels_action "http://h/" "site" "drain") (clock 5) server before

abbrev hidden : DegradationPolicy
hidden = tick out.0.reg.kernels out.0

abbrev back : DegradationPolicy × Option Response
back = command served (cmd_kernels_action "http://h/" "site" "restart") (clock 9) server hidden

drain_then_restart_example :
    (out.1 ≡ some (respond 202 (accepted "drain" "site")))
    × (back.1 ≡ some (respond 202 (accepted "restart" "site")))
    × (exports_of "site" hidden ≡ some none)
    × (exports_of "site" (tick back.0.reg.kernels back.0) ≡ some some_exports)
    × (lookup "site" (tick back.0.reg.kernels back.0).snapshot ≡ none)
unfolding lookup
drain_then_restart_example =
    drain_then_restart "http://h/" "site" served (clock 5) (clock 9) server server out.0.reg.kernels
      back.0.reg.kernels before site (differ "site" "" refl) refl served_action (tt, tt) refl refl
      (Permᴰ.refl _) (Permᴰ.refl _)
