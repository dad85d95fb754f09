-- ===== src/EntryPoints.antt =====
-- cmd/rk/main.go and cmd/rkctl/main.go, the programs without their build tags, with the lines that
-- main_gen.go of either prints first. What is printed is a list of lines.
use Prim.Native.String.{String, ◌++◌}
use rassberry.Base.{ℕ, Bool, List, Option, [], ◌∷◌, if◌then◌else◌}
use rassberry.Base.Maps.{Map}
use rassberry.Contracts.{AnyValue, text_value, Manifest, root_scope, manifest_json}
use rassberry.Registry.{zero_manifest}
use rassberry.Telemetry.Record.{LogRecord, info}
use rassberry.Telemetry.Show.{log_record_string}

abbrev rk_manifest : Manifest
rk_manifest = record zero_manifest {
  kernel_id = "rk";
  version = "0.0.1";
  scope = root_scope;
  features = "admin" ∷ "discovery" ∷ [];
}

-- `go_version` is `GoRuntimeVersion`.
abbrev rk_record : ℕ → String → LogRecord
rk_record now go_version = record {
  time = now;
  level = info;
  kernel_id = "rk";
  scope = root_scope;
  component = "";
  message = "Root-Kernel: скелет запущен";
  fields = ("go", text_value go_version) ∷ [];
}

unfoldable pub rk_lines :
    (Manifest → Option String) → (ℕ → String) → (Map AnyValue → String) → ℕ → String → List String
rk_lines marshal_indent rfc3339 shown now go_version =
    "rk: вспомогательная инициализация из main_gen.go (без перезаписи комментариев)"
    ∷ manifest_json marshal_indent rk_manifest
    ∷ log_record_string rfc3339 shown (rk_record now go_version)
    ∷ []

abbrev rkctl_version : String
rkctl_version = "0.0.1"

unfoldable pub rkctl_lines : Bool → List String
rkctl_lines show_version =
    "rkctl: вспомогательная инициализация из main_gen.go (без перезаписи комментариев)"
    ∷ (if show_version
        then "rkctl " ++ rkctl_version
        else "rkctl: скелет CLI. Команды появятся позже.")
    ∷ []
