-- ===== src/Admin.antt =====
-- cmd/rk/http_admin_server_gen.go, http_admin_control_gen.go and http_admin_telemetry_gen.go: what each
-- handler answers and what it does to the registry and to the level. Listening, the mux and the text of
-- the answers in JSON are the library's; an answer is kept as what is encoded.
pub mod Stream
pub mod Repeats
mod Examples
use rassberry.Base.{
  ℕ, String, Bool, List, Option, true, false, none, some, [], ◌∷◌, ◌==◌, ◌||◌, map, if◌then◌else◌,
}
use rassberry.Base.Maps.{Map}
use rassberry.Contracts.{Health, HealthStatus, health_ready, health_draining}
use rassberry.Registry.{DiscoveryRegistry, KernelRecord, update_health, kernels, kernel_health}
use rassberry.Registry.Aggregate.{HealthAggregator, aggregate_health, snapshot}
use rassberry.Telemetry.Wire.{spells}
use rassberry.Text.{split, slash, trim_prefix}

-- `health` is the aggregator, if one is set; `level` is `currentLogLevel`.
pub record AdminServer : Type 0 where
  pub reg : DiscoveryRegistry
  pub health : Option HealthAggregator
  pub level : String

pub data Body : Type 0 where
  message : String → Body
  accepted : String → String → Body
  level_set : String → Body
  health_report : Health → Map Health → ℕ → Body
  kernel_list : List KernelRecord → Body

pub record Response : Type 0 where
  pub status : ℕ
  pub body : Body

abbrev pub respond : ℕ → Body → Response
respond status body = record { status = status; body = body }

-- `init` has stored the level.
unfoldable pub new_admin_server : DiscoveryRegistry → AdminServer
new_admin_server reg = record { reg = reg; health = none; level = "INFO" }

unfoldable pub set_health_aggregator : HealthAggregator → AdminServer → AdminServer
set_health_aggregator h s = record s { health = some h }

-- `GET /admin/health`. `order` lists the records as each of the two loops over the map visits them,
-- and the clock is read for the aggregation, for a snapshot that is not set, and for the report.
unfoldable pub health_handler :
    List KernelRecord → Map KernelRecord → ℕ → ℕ → ℕ → ℕ → AdminServer → Response
health_handler order entries now late shown generated s = respond 200 (
    health_report
      (elim s.health [ none ↦ aggregate_health now late order | some h ↦ snapshot shown h ])
      (kernel_health entries) generated)

unfoldable pub kernels_handler : Map KernelRecord → Response
kernels_handler entries = respond 200 (kernel_list (kernels entries))

abbrev pub prefix_kernels : String
prefix_kernels = "/admin/kernels/"

-- The health that an action writes, with the handler's reading of the clock.
abbrev pub restarted : ℕ → Health
restarted since = record {
  status = health_ready;
  reason = "manual restart (placeholder)";
  since = since;
}

abbrev pub drained : ℕ → Health
drained since = record {
  status = health_draining;
  reason = "manual drain (placeholder)";
  since = since;
}

-- The readings of the clock: the handler's, and those of `UpdateHealth`.
pub record Clock : Type 0 where
  pub handler : ℕ
  pub since : ℕ
  pub registered : ℕ
  pub updated : ℕ

abbrev pub put_health : String → Health → Clock → AdminServer → AdminServer
put_health id h t s = record s { reg = update_health id h t.since t.registered t.updated s.reg }

abbrev pub act : String → String → Clock → AdminServer → AdminServer × Response
act id action t s =
    if action == "restart"
    then (put_health id (restarted t.handler) t s, respond 202 (accepted "restart" id))
    else if action == "drain"
    then (put_health id (drained t.handler) t s, respond 202 (accepted "drain" id))
    else (s, respond 404 (message "unknown action"))

abbrev pub control_parts : String → List String → Clock → AdminServer → AdminServer × Response
control_parts method (id ∷ action ∷ rest) t s =
    if method == "POST" then act id action t s else (s, respond 405 (message "method not allowed"))
control_parts method _ t s = (s, respond 400 (message "bad path"))

-- The handler of `/admin/kernels/`.
unfoldable pub control_handler : String → String → Clock → AdminServer → AdminServer × Response
unfolding split
control_handler method path t s =
    control_parts method (split slash (trim_prefix path prefix_kernels)) t s

-- `strings.ToUpper` of a level, if it is one of the four.
unfoldable pub level_of : String → Option String
level_of level =
    if spells level "DEBUG"
    then some "DEBUG"
    else if spells level "INFO"
    then some "INFO"
    else if spells level "WARN"
    then some "WARN"
    else if spells level "ERROR"
    then some "ERROR"
    else none

abbrev pub store_level : Option String → AdminServer → AdminServer × Response
store_level none s = (s, respond 400 (message "bad level"))
store_level (some level) s = (record s { level = level }, respond 200 (level_set level))

abbrev pub decoded_level : Option String → AdminServer → AdminServer × Response
decoded_level none s = (s, respond 400 (message "bad json"))
decoded_level (some level) s = store_level (level_of level) s

-- The handler of `/admin/telemetry`; `body` is the level that is decoded from the request.
unfoldable pub telemetry_handler : String → Option String → AdminServer → AdminServer × Response
unfolding level_of
telemetry_handler method body s =
    if method == "POST"
    then decoded_level body s
    else (s, respond 405 (message "method not allowed"))

-- How `ListenAndServe` ends: with `http.ErrServerClosed`, or with another error.
pub data Listened (E : Type 0) : Type 0 where
  closed : Listened E
  broken : E → Listened E

-- The error that the goroutine of `Start` sends on.
abbrev pub served_error : {E : Type 0} → Listened E → Option E
served_error closed = none
served_error (broken e) = some e

-- Which case the `select` of `Start` takes.
pub data Selected (E : Type 0) : Type 0 where
  done : Selected E
  listened : Listened E → Selected E

-- `Start`; the error of `Shutdown`, and what the goroutine sends behind it, are dropped.
unfoldable pub admin_start : {E : Type 0} → Selected E → Option E
admin_start done = none
admin_start (listened l) = served_error l
