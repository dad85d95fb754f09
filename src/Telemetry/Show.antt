-- ===== src/Telemetry/Show.antt =====
-- `LogRecord.String` of platform/telemetry/log.go.
use Prim.Native.String.{String}
use rassberry.Base.{ℕ, [], ◌∷◌}
use rassberry.Base.Maps.{Map}
use rassberry.Contracts.{AnyValue}
use rassberry.Telemetry.Record.{LogRecord, level_string}
use rassberry.Text.{join, pad}

-- `rfc3339` and `shown` are the library's `Format` and `%v`.
unfoldable pub log_record_string : (ℕ → String) → (Map AnyValue → String) → LogRecord → String
unfolding level_string
log_record_string rfc3339 shown r = join (
    rfc3339 r.time
    ∷ " "
    ∷ pad 5 (level_string r.level)
    ∷ " "
    ∷ r.scope
    ∷ "/"
    ∷ r.kernel_id
    ∷ " "
    ∷ r.message
    ∷ " "
    ∷ shown r.fields
    ∷ [])
