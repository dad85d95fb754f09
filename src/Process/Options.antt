-- ===== src/Process/Options.antt =====
-- `NewProcessRunner` of platform/runtime/process_runner_gen.go, and its options.
use Prim.Native.String
use Prim.Native.String.{String}
use rassberry.Base.{Bool, List, false, none, [], ◌∷◌, ◌++◌, ◌==◌, if◌then◌else◌}
use rassberry.Process.{ProcessRunner, scanning}

-- The options; a map of variables comes as the list in which `range` visits it.
pub data ProcOption : Type 0 where
  with_env_map : List (String × String) → ProcOption
  with_working_dir : String → ProcOption
  with_health_http : String → ProcOption
  with_ready_prefix : String → ProcOption
  with_on_event : Bool → ProcOption

-- `k + "=" + v`
abbrev pub join_var : String × String → String
join_var (k, v) = String.◌++◌ k (String.◌++◌ "=" v)

abbrev join_vars : List (String × String) → List String
join_vars [] = []
join_vars (kv ∷ m) = join_var kv ∷ join_vars m

module _ {E : Type 0} where
  unfoldable pub apply_option : ProcOption → ProcessRunner E → ProcessRunner E
  apply_option (with_env_map m) p = record p { env = p.env ++ join_vars m }
  apply_option (with_working_dir dir) p = record p { wd = dir }
  apply_option (with_health_http url) p = record p { health_url = url }
  apply_option (with_ready_prefix prefix) p =
      if prefix == "" then p else record p { ready_prefix = prefix }
  apply_option (with_on_event on) p = record p { on = on }

  unfoldable pub apply_options : List ProcOption → ProcessRunner E → ProcessRunner E
  apply_options [] p = p
  apply_options (o ∷ os) p = apply_options os (apply_option o p)

  abbrev pub plain_runner : String → List String → ProcessRunner E
  plain_runner cmd_path args = record {
    cmd_path = cmd_path;
    args = [] ++ args;
    env = [];
    wd = "";
    health_url = "";
    ready_prefix = "READY";
    logs = [];
    logs_closed = false;
    on = false;
    events = [];
    cmd = none;
    ready = false;
    out_at = scanning;
    err_at = scanning;
    waiting = false;
    closing = false;
    crashed = false;
  }

  unfoldable pub new_process_runner : String → List String → List ProcOption → ProcessRunner E
  new_process_runner cmd_path args opts = apply_options opts (plain_runner cmd_path args)
