-- ===== src/Telemetry/TeeLogger.antt =====
-- platform/ports/tee_logger_gen.go: a logger that gives its records to the bus, under the topics of
-- its scope, after the next logger had them.
use Prim.Native.Char.{code}
use Prim.Native.String.{String}
use mathlib.Core.Path.{ap₂}
use text.Mathlib.TextEquality.{Char-path}
use rassberry.Base.{
  ℕ, Bool, List, true, false, [], ◌∷◌, ◌+◌, ◌≡◌, refl, arith, ◌&&◌, ◌||◌, nat_eq, leb,
  if◌then◌else◌, ◌==◌, map, differ, Bool-cases, inl, inr,
}
use rassberry.Base.Maps.{Map}
use rassberry.Contracts.{AnyValue}
use rassberry.Telemetry.Record.{Level, debug, info, warn, error, LogRecordV2}
use rassberry.Telemetry.Gateway.{topic_all}
use rassberry.Telemetry.Wire.{spells, parse_level}

-- `teeLogger`: `on` is whether it has a bus.
pub record TeeLogger : Type 0 where
  pub on : Bool
  pub kernel_id : String
  pub scope : String
  pub component : String

unfoldable pub tee_level : String → Level
tee_level level =
    if spells level "DEBUG"
    then debug
    else if spells level "INFO"
    then info
    else if spells level "WARN" || spells level "WARNING"
    then warn
    else if spells level "ERROR"
    then error
    else info

-- The code point of the lower case, where it is ASCII: besides the capitals, the dotted I and the
-- Kelvin sign have one.
abbrev lower : ℕ → ℕ
lower c =
    if leb 65 c && leb c 90
    then c + 32
    else if nat_eq c 304
    then 105
    else if nat_eq c 8490
    then 107
    else c

-- `strings.ToLower(s) == t` for an ASCII `t`.
abbrev pub spells_low : String → String → Bool
spells_low String.[] String.[] = true
spells_low String.[] (String.◌∷◌ d t) = false
spells_low (String.◌∷◌ c s) String.[] = false
spells_low (String.◌∷◌ c s) (String.◌∷◌ d t) = nat_eq (lower (code c)) (code d) && spells_low s t

unfoldable pub tee_topics : String → List String
tee_topics scope =
    topic_all
    ∷ (if spells_low scope "root"
        then "telemetry.logs.root" ∷ []
        else if spells_low scope "domain"
        then "telemetry.logs.domain" ∷ []
        else if spells_low scope "function"
        then "telemetry.logs.function" ∷ []
        else [])

-- The record that `Log` makes.
abbrev pub tee_record : TeeLogger → String → String → Map AnyValue → ℕ → LogRecordV2
tee_record l level message fields now = record {
  time = now;
  level = tee_level level;
  kernel_id = l.kernel_id;
  scope = l.scope;
  component = l.component;
  trace = "";
  message = message;
  fields = fields;
}

-- `Log`, behind the call of the next logger; the bus is given the record under each topic.
unfoldable pub tee_log :
    TeeLogger → String → String → Map AnyValue → ℕ → List (String × LogRecordV2)
tee_log l level message fields now =
    if l.on then map (λ t. (t, tee_record l level message fields now)) (tee_topics l.scope) else []

spells_same : (s t u : String) → spells s t ≡ true → spells s u ≡ true → t ≡ u
spells_same String.[] String.[] String.[] h k = refl
spells_same String.[] String.[] (String.◌∷◌ e u) h k = cc
spells_same String.[] (String.◌∷◌ d t) u h k = cc
spells_same (String.◌∷◌ c s) String.[] u h k = cc
spells_same (String.◌∷◌ c s) (String.◌∷◌ d t) String.[] h k = cc
spells_same (String.◌∷◌ c s) (String.◌∷◌ d t) (String.◌∷◌ e u) h k =
    ap₂ String.◌∷◌ (Char-path d e (ground arith)) (spells_same s t u (ground arith) (ground arith))

spells_once : (s t u : String) → (t == u) ≡ false → spells s t ≡ true → spells s u ≡ false
spells_once s t u n h = elim (Bool-cases (spells s u)) [
  | inl k ↦ absurd (differ t u n (spells_same s t u h k))
  | inr k ↦ k
]

-- Every text of a level means the same to the logger as to the conversion of a pushed record.
pub tee_level-parse_level : (level : String) → tee_level level ≡ parse_level level
unfolding tee_level parse_level
tee_level-parse_level level = ground (
  arith,
  spells_once level "INFO" "WARN" refl,
  spells_once level "INFO" "WARNING" refl,
  spells_once level "INFO" "ERROR" refl,
)
