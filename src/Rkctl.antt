-- ===== src/Rkctl.antt =====
-- cmd/rkctl/main_run_gen.go: the command line client of the administration. Parsing of flags, JSON and
-- the HTTP client are the library's: a command starts from its parsed flags, and what it asks the
-- server for comes with how it goes on.
pub mod Actions
pub mod Logs
pub mod Print
mod Examples
use Prim.Native.Char.{Char, code}
use Prim.Native.String.{String, ◌++◌}
use rassberry.Base.{
  ℕ, zero, suc, Bool, List, Option, true, false, none, some, [], ◌∷◌, ◌==◌, nat_eq, ltb,
  if◌then◌else◌, length,
}
use rassberry.Base.Maps.{Map}
use rassberry.Contracts.{AnyValue}
use rassberry.Telemetry.Record.{LogRecordV2, level_string}
use rassberry.Telemetry.Filter.{has_prefix}
use rassberry.Telemetry.Wire.{spells}
use rassberry.Text.{slash, trim_right, join, trim_prefix, trim_space, read_lines}

-- What `main` runs, with the arguments that are left.
pub data Command : Type 0 where
  usage : Command
  logs kernels_list kernels_health : List String → Command
  kernels_action : List String → String → Command

abbrev pub kernels_command : List String → Command
kernels_command [] = usage
kernels_command (name ∷ args) =
    if name == "list"
    then kernels_list args
    else if name == "health"
    then kernels_health args
    else if name == "restart"
    then kernels_action args "restart"
    else if name == "drain"
    then kernels_action args "drain"
    else usage

abbrev pub named_command : String → List String → Command
named_command name args =
    if name == "logs" then logs args else if name == "kernels" then kernels_command args else usage

-- `main`, on `os.Args`.
unfoldable pub main : List String → Command
main (program ∷ name ∷ args) = named_command name args
main _ = usage

abbrev pub default_http : String
default_http = "http://localhost:8090"

-- The flags of `logs` and their defaults.
pub record LogsFlags : Type 0 where
  pub http : String
  pub level : String
  pub kernel : String
  pub scope : String
  pub component : String
  pub pretty : Bool
  pub compact : Bool

abbrev pub default_logs_flags : LogsFlags
default_logs_flags = record {
  http = default_http;
  level = "INFO";
  kernel = "";
  scope = "";
  component = "";
  pretty = false;
  compact = false;
}

abbrev pub is_slash : ℕ → Bool
is_slash c = nat_eq c slash

-- `strings.TrimRight(url, "/")`
unfoldable pub base_url : String → String
unfolding trim_right
base_url url = trim_right is_slash url

-- One of the two replacements: no text that is put in holds the character that is replaced.
abbrev pub replace_all : ℕ → String → String → String
replace_all c new String.[] = String.[]
replace_all c new (String.◌∷◌ d s) =
    let rest = replace_all c new s in if nat_eq (code d) c then new ++ rest else String.◌∷◌ d rest

unfoldable pub url_query_esc : String → String
url_query_esc s = replace_all b'#' "%23" (replace_all b' ' "%20" s)

unfoldable pub logs_url : LogsFlags → String
unfolding base_url url_query_esc
logs_url f = join (
    base_url f.http
    ∷ "/admin/logs/stream?level="
    ∷ url_query_esc f.level
    ∷ "&kernel="
    ∷ url_query_esc f.kernel
    ∷ "&scope="
    ∷ url_query_esc f.scope
    ∷ "&component="
    ∷ url_query_esc f.component
    ∷ [])

-- What `POST`s an action to a kernel; the id is put in as it is.
abbrev pub action_path : String → String → String
action_path id action = "/admin/kernels/" ++ (id ++ ("/" ++ action))

pub record Request : Type 0 where
  pub method : String
  pub url : String

pub data Output : Type 0 where
  to_stderr to_stdout : String → Output
  copied : List (List ℕ) → Output

-- One `Read`: the bytes, and whether it came with an error.
abbrev pub Chunk : Type 0
Chunk = List ℕ × Bool

-- The writes of `ioCopy`.
unfoldable pub io_copy : List Chunk → List (List ℕ)
io_copy [] = []
io_copy ((bytes, failed) ∷ cs) =
    let rest = if failed then [] else io_copy cs in
    if ltb 0 (length bytes) then bytes ∷ rest else rest

-- The answer to a request: the client's error, or the reads of the body.
pub data HttpAnswer : Type 0 where
  http_failed : String → HttpAnswer
  http_body : List Chunk → HttpAnswer

-- What a command of `kernels` shows of the answer.
unfoldable pub shown : HttpAnswer → List Output
unfolding io_copy
shown (http_failed e) = to_stderr ("http error: " ++ (e ++ "\n")) ∷ []
shown (http_body cs) = copied (io_copy cs) ∷ []

-- A command: an answer at once, or a request.
pub data Exchange : Type 0 where
  finished : List Output → Exchange
  asks : Request → Exchange

abbrev pub get : String → Exchange
get url = asks (record { method = "GET"; url = url })

unfoldable pub cmd_kernels_list : String → Exchange
unfolding base_url
cmd_kernels_list http = get (base_url http ++ "/admin/kernels")

unfoldable pub cmd_kernels_health : String → Exchange
unfolding base_url
cmd_kernels_health http = get (base_url http ++ "/admin/health")

unfoldable pub cmd_kernels_action : String → String → String → Exchange
unfolding base_url
cmd_kernels_action http id action =
    if id == ""
    then finished (to_stderr "--id is required\n" ∷ [])
    else asks (record { method = "POST"; url = base_url http ++ action_path id action })

module _ (unmarshal : String → Option LogRecordV2) where
  abbrev pub decoded : Option LogRecordV2 → List LogRecordV2 → List LogRecordV2
  decoded none rs = rs
  decoded (some r) rs = r ∷ rs

  -- The records of the lines, in the loop of `cmdLogs`.
  unfoldable pub records_of : List String → List LogRecordV2
  records_of [] = []
  records_of (line ∷ lines) =
      let rest = records_of lines in
      if has_prefix line "data: "
      then decoded (unmarshal (trim_space (trim_prefix line "data: "))) rest
      else rest

  -- What is printed of a body, record by record.
  unfoldable pub received : String → List LogRecordV2
  unfolding records_of
  received body = records_of (read_lines body)
