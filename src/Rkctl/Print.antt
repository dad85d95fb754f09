-- ===== src/Rkctl/Print.antt =====
-- How the client prints a record: `printLog` and `colorForLevel` of cmd/rkctl/main_run_gen.go.
use Prim.Native.String.{String}
use rassberry.Base.{ℕ, Bool, Option, none, some, [], ◌∷◌, if◌then◌else◌}
use rassberry.Base.Maps.{Map}
use rassberry.Contracts.{AnyValue}
use rassberry.Telemetry.Record.{LogRecordV2, level_string}
use rassberry.Telemetry.Wire.{spells}
use rassberry.Text.{join, pad}

unfoldable pub color_for_level : String → String
color_for_level lv =
    if spells lv "DEBUG"
    then "\u{1b}[36m"
    else if spells lv "INFO"
    then "\u{1b}[32m"
    else if spells lv "WARN"
    then "\u{1b}[33m"
    else if spells lv "ERROR"
    then "\u{1b}[31m"
    else "\u{1b}[0m"

-- What the library knows of times and JSON: RFC 3339, the fields as JSON, and the same indented.
pub record Formats : Type 0 where
  pub rfc3339 : ℕ → String
  pub fields_json : Map AnyValue → String
  pub indented : String → Option String

abbrev pub or_same : Option String → String → String
or_same none s = s
or_same (some t) s = t

unfoldable pub print_log : Formats → Bool → Bool → LogRecordV2 → String
unfolding level_string color_for_level
print_log fm pretty compact r =
    let ts = fm.rfc3339 r.time in
    let lv = level_string r.level in
    let color = color_for_level lv in
    let reset : String = "\u{1b}[0m" in
    let b = fm.fields_json r.fields in
    let fields = if pretty then or_same (fm.indented b) b else b in
    if compact
    then join (
        color
        ∷ ""
        ∷ pad 5 lv
        ∷ reset
        ∷ " "
        ∷ ts
        ∷ " "
        ∷ r.scope
        ∷ "/"
        ∷ r.kernel_id
        ∷ " "
        ∷ r.message
        ∷ "\n"
        ∷ [])
    else join (
        color
        ∷ pad 5 lv
        ∷ reset
        ∷ " "
        ∷ ts
        ∷ " "
        ∷ pad 8 r.scope
        ∷ " "
        ∷ r.kernel_id
        ∷ "/"
        ∷ r.component
        ∷ " ["
        ∷ r.trace
        ∷ "] "
        ∷ r.message
        ∷ " | "
        ∷ fields
        ∷ "\n"
        ∷ [])
