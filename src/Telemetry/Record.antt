-- ===== src/Telemetry/Record.antt =====
-- platform/telemetry/log.go and log_v2_gen.go: levels and records.
use Prim.Native.String.{◌++◌}
use rassberry.Base.{ℕ, zero, suc, String}
use rassberry.Base.Int.{ℤ, pos}
use rassberry.Base.Maps.{Map}
use rassberry.Contracts.{AnyValue}

-- `type Level int`: any number, of which four have names.
abbrev pub Level : Type 0
Level = ℤ

abbrev pub debug : Level
debug = pos 0

abbrev pub info : Level
info = pos 1

abbrev pub warn : Level
warn = pos 2

abbrev pub error : Level
error = pos 3

abbrev level_name : ℕ → String
level_name zero = "DEBUG"
level_name (suc zero) = "INFO"
level_name (suc (suc zero)) = "WARN"
level_name (suc (suc (suc zero))) = "ERROR"
level_name _ = "UNKNOWN"

unfoldable pub level_string : Level → String
level_string (pos n) = level_name n
level_string _ = "UNKNOWN"

pub record LogRecord : Type 0 where
  pub time : ℕ
  pub level : Level
  pub kernel_id : String
  pub scope : String
  pub component : String
  pub message : String
  pub fields : Map AnyValue

pub record LogRecordV2 : Type 0 where
  pub time : ℕ
  pub level : Level
  pub kernel_id : String
  pub scope : String
  pub component : String
  pub trace : String
  pub message : String
  pub fields : Map AnyValue

-- The argument's type in the source is a struct with the fields of `LogRecord`.
unfoldable pub from_v1 : LogRecord → LogRecordV2
from_v1 v1 = record {
  time = v1.time;
  level = v1.level;
  kernel_id = v1.kernel_id;
  scope = v1.scope;
  component = v1.component;
  trace = "";
  message = v1.message;
  fields = v1.fields;
}

-- The topic of a scope.
abbrev pub scope_topic_of : String → String
scope_topic_of scope = "telemetry.logs." ++ scope
