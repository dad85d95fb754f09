-- ===== src/Telemetry/Wire.antt =====
-- platform/telemetry/from_proto_gen.go, with the messages of platform/telemetry/proto. A message's
-- time is signed, and counts from 1970; the texts of levels are compared without case.
use Prim.Native.Char.{code}
use Prim.Native.String.{String}
use rassberry.Base.{
  ℕ, zero, suc, Bool, List, Option, true, false, none, some, [], ◌∷◌, ◌+◌, ◌-◌, ◌*◌, ◌≡◌, refl, ◌∙◌,
  ap, arith, ◌&&◌, ◌||◌, not, nat_eq, leb, if◌then◌else◌, ◌==◌,
}
use rassberry.Base.Int.{ℤ, pos, negsuc, pos_part, is_positive, less}
use rassberry.Base.Maps.{Map, lookup, insert, lookup-insert}
use rassberry.Contracts.{AnyValue, text_value}
use rassberry.Telemetry.Record.{Level, debug, info, warn, error, level_string, LogRecordV2}

pub record LogRecordField : Type 0 where
  pub key : String
  pub value : String

pub record WireRecord : Type 0 where
  pub time_unix_nano : ℤ
  pub level : String
  pub kernel_id : String
  pub scope : String
  pub component : String
  pub trace : String
  pub message : String
  pub fields : List (Option LogRecordField)

-- `req` and `req.Record` may both be nil.
pub record PushRequest : Type 0 where
  pub record_ : Option WireRecord

-- The code point of the upper case, where it is ASCII: besides the small letters, the dotless i and
-- the long s have one.
abbrev upper : ℕ → ℕ
upper c =
    if leb 97 c && leb c 122
    then c - 32
    else if nat_eq c 305
    then 73
    else if nat_eq c 383
    then 83
    else c

-- `strings.ToUpper(s) == t` for an ASCII `t`.
abbrev pub spells : String → String → Bool
spells String.[] String.[] = true
spells String.[] (String.◌∷◌ d t) = false
spells (String.◌∷◌ c s) String.[] = false
spells (String.◌∷◌ c s) (String.◌∷◌ d t) = nat_eq (upper (code c)) (code d) && spells s t

unfoldable pub parse_level : String → Level
parse_level lv =
    if spells lv "DEBUG"
    then debug
    else if spells lv "WARN" || spells lv "WARNING"
    then warn
    else if spells lv "ERROR"
    then error
    else info

-- `time.Unix(0, n)`, counted from Go's zero time.
abbrev pub unix_nano : ℕ → ℕ
unix_nano n = n + 62_135_596_800 * 1_000_000_000

unfoldable pub put_fields : List (Option LogRecordField) → Map AnyValue → Map AnyValue
put_fields [] m = m
put_fields (none ∷ fs) m = put_fields fs m
put_fields (some f ∷ fs) m = put_fields fs (insert f.key (text_value f.value) m)

abbrev pub blank_record : ℕ → LogRecordV2
blank_record now = record {
  time = now;
  level = info;
  kernel_id = "";
  scope = "";
  component = "";
  trace = "";
  message = "";
  fields = [];
}

abbrev pub from_wire : WireRecord → ℕ → LogRecordV2
from_wire r now = record {
  time = if is_positive r.time_unix_nano then unix_nano (pos_part r.time_unix_nano) else now;
  level = parse_level r.level;
  kernel_id = r.kernel_id;
  scope = r.scope;
  component = r.component;
  trace = r.trace;
  message = r.message;
  fields = put_fields r.fields [];
}

abbrev from_record : Option WireRecord → ℕ → LogRecordV2
from_record none now = blank_record now
from_record (some r) now = from_wire r now

unfoldable pub from_proto : Option PushRequest → ℕ → LogRecordV2
from_proto none now = blank_record now
from_proto (some req) now = from_record req.record_ now

-- The level that a text names is the level of that text, for the four levels with a name; another
-- level comes back as `info`.
pub parse_level-level_string :
    (l : Level)
    → parse_level (level_string l) ≡ (if not (less l (pos 0)) && less l (pos 4) then l else info)
unfolding parse_level level_string
parse_level-level_string (pos zero) = refl
parse_level-level_string (pos (suc zero)) = refl
parse_level-level_string (pos (suc (suc zero))) = refl
parse_level-level_string (pos (suc (suc (suc zero)))) = refl
parse_level-level_string (pos (suc (suc (suc (suc n))))) = ground arith
parse_level-level_string (negsuc n) = ground arith

-- The specification of a field: the last one of the key that is not nil.
unfoldable pub last_value :
    String → List (Option LogRecordField) → Option AnyValue → Option AnyValue
last_value k [] v = v
last_value k (none ∷ fs) v = last_value k fs v
last_value k (some f ∷ fs) v = last_value k fs (if f.key == k then some (text_value f.value) else v)

lookup-put_fields :
    (k : String) (fs : List (Option LogRecordField)) (m : Map AnyValue)
    → lookup k (put_fields fs m) ≡ last_value k fs (lookup k m)
unfolding put_fields last_value
lookup-put_fields k [] m = refl
lookup-put_fields k (none ∷ fs) m = lookup-put_fields k fs m
lookup-put_fields k (some f ∷ fs) m =
    lookup-put_fields k fs (insert f.key (text_value f.value) m)
    ∙ ap (last_value k fs) (lookup-insert f.key k (text_value f.value) m)

-- A converted record has, under each key, the value of the last field of that key that is not nil,
-- and none if there is no such field.
pub from_proto-fields :
    (k : String) (r : WireRecord) (now : ℕ)
    → lookup k (from_proto (some (record { record_ = some r })) now).fields
      ≡ last_value k r.fields none
unfolding from_proto lookup
from_proto-fields k r now = lookup-put_fields k r.fields []
