-- ===== src/Telemetry/Examples.antt =====
-- Records, filters and hubs on small inputs.
use rassberry.Base.{List, true, [], ◌∷◌, ◌≡◌, ◌↔◌}
use rassberry.Base.Int.{pos}
use rassberry.Telemetry.Record.{info, warn, LogRecordV2}
use rassberry.Telemetry.Filter.{LogFilter, match_v2, Passes, match_v2-Passes}
use rassberry.Telemetry.Wire.{blank_record}
use rassberry.Telemetry.SafeLogHub.{SafeLogHubOption, with_buffer, with_rate_limit, received}
use rassberry.Telemetry.SafeLogHub.Balance.{
  Step, enter_step, limit_step, push_step, round_step, close_step, steps, start_system, Balanced,
  steps-start-Balanced,
}

abbrev entry : LogRecordV2
entry = record (blank_record 5) { component = "gateway/http"; level = warn }

abbrev other : LogRecordV2
other = record entry { message = "other" }

abbrev gateways : LogFilter
gateways = record { level_min = info; kernel_id = ""; scope = ""; component = "gateway" }

match_v2-Passes_example : (match_v2 gateways entry ≡ true) ↔ Passes gateways entry
match_v2-Passes_example = match_v2-Passes gateways entry

abbrev some_options : List SafeLogHubOption
some_options = with_buffer (pos 1) ∷ with_rate_limit (pos 2) (pos 0) ∷ []

abbrev some_steps : List Step
some_steps =
    enter_step entry
    ∷ enter_step other
    ∷ limit_step 1
    ∷ limit_step 0
    ∷ push_step 0
    ∷ push_step 0
    ∷ round_step received
    ∷ round_step received
    ∷ close_step
    ∷ round_step received
    ∷ []

steps-start-Balanced_example : Balanced (steps some_steps (start_system some_options 3))
steps-start-Balanced_example = steps-start-Balanced some_options 3 some_steps
