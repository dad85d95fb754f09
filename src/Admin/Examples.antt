-- ===== src/Admin/Examples.antt =====
-- A record of the scope `domain` in two streams, and the answers of the handlers.
use rassberry.Base.{ℕ, String, List, false, true, some, [], ◌∷◌, ◌≡◌, refl}
use mathlib.Core.List.Permᴰ
use rassberry.Base.Int.{pos}
use rassberry.Telemetry.Record.{LogRecordV2}
use rassberry.Telemetry.Filter.{LogFilter, has_prefix}
use rassberry.Telemetry.Gateway.{hub_publish}
use rassberry.Registry.{new_discovery_registry}
use rassberry.Admin.{
  AdminServer, new_admin_server, telemetry_handler, control_handler, level_of, level_set, message,
  respond, Clock,
}
use rassberry.Admin.Stream.{Message}
use rassberry.Admin.Repeats.OverBus.{publish_calls}
use rassberry.Bus.{InMemoryEventBus, Moment, new_bus}
use rassberry.Bus.Calls.{Call, subscribe_call, calls}
use rassberry.Text.{split, trim_prefix}

abbrev rec : LogRecordV2
rec = record {
  time = 7;
  level = pos 2;
  kernel_id = "site";
  scope = "domain";
  component = "site/http";
  trace = "";
  message = "slow";
  fields = [];
}

abbrev scoped : LogFilter
scoped = record { level_min = pos 1; kernel_id = ""; scope = "domain"; component = "site" }

-- The stream's two subscriptions on a new bus.
abbrev two : List (Call Message)
two = subscribe_call "telemetry.logs" ∷ subscribe_call "telemetry.logs.domain" ∷ []

abbrev subs : List (String × ℕ)
subs = ("telemetry.logs", 0) ∷ ("telemetry.logs.domain", 1) ∷ []

abbrev alive : ℕ → Moment
alive i = record { done = false; pick = false }

abbrev behind : InMemoryEventBus Message
behind = calls (publish_calls alive (hub_publish true rec)) (calls two new_bus)

abbrev server : AdminServer
server = new_admin_server new_discovery_registry

abbrev clock : Clock
clock = record { handler = 5; since = 6; registered = 7; updated = 8 }

level_is_set :
    telemetry_handler "POST" (some "warn") server
    ≡ (record server { level = "WARN" }, respond 200 (level_set "WARN"))
unfolding telemetry_handler level_of new_admin_server
level_is_set = refl

no_action :
    control_handler "POST" "/admin/kernels/site" clock server
    ≡ (server, respond 400 (message "bad path"))
unfolding control_handler split trim_prefix has_prefix
no_action = refl

wrong_method :
    control_handler "GET" "/admin/kernels/site/drain" clock server
    ≡ (server, respond 405 (message "method not allowed"))
unfolding control_handler split trim_prefix has_prefix
wrong_method = refl
