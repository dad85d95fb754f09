-- ===== src/Config.antt =====
-- cmd/rk/config_gen.go. Reading the file and the YAML parser are parameters; `DomainSpec` is in Domains.
use rassberry.Base.{ℕ, String, Bool, List, Option, true, none, some, [], ◌∷◌, ◌==◌, if◌then◌else◌}
use rassberry.Base.Int.{ℤ, pos}
use rassberry.Contracts.{text_value}
use rassberry.Domains.{DomainSpec}

pub record RootSection : Type 0 where
  pub node_id : String
  pub zone : String

pub record DiscoveryConfig : Type 0 where
  pub enabled : Bool
  pub advertise_internal : Bool

pub record TelemetryFilters : Type 0 where
  pub level : String
  pub kernel : String
  pub scope : String
  pub component : String

pub record AdminConfig : Type 0 where
  pub addr : String
  pub grpc_addr : String

pub record TelemetryConfig : Type 0 where
  pub level : String
  pub buffer : ℤ
  pub filters : TelemetryFilters

pub record RootConfig : Type 0 where
  pub root : RootSection
  pub admin : AdminConfig
  pub discovery : DiscoveryConfig
  pub telemetry : TelemetryConfig
  pub domains : List DomainSpec

abbrev pub default_site : DomainSpec
default_site = record {
  id = "site";
  mode = "inproc";
  kind = "site";
  entry = "";
  command = "";
  feature_flags = ("http", true) ∷ ("workers", true) ∷ ("log_forwarder", true) ∷ [];
  config = ("http_addr", text_value ":8081") ∷ ("log_gateway", text_value "127.0.0.1:8079") ∷ [];
}

abbrev pub default_config : RootConfig
default_config = record {
  root = record { node_id = "rk-1"; zone = "dc-1" };
  admin = record { addr = ":8090"; grpc_addr = ":8079" };
  discovery = record { enabled = true; advertise_internal = true };
  telemetry = record {
    level = "INFO";
    buffer = pos 256;
    filters = record { level = "INFO"; kernel = ""; scope = ""; component = "" };
  };
  domains = default_site ∷ [];
}

module _ (E : Type 0) where
  -- The answer of `os.ReadFile`.
  pub data File : Type 0 where
    unreadable : E → File
    contents : List ℕ → File

  -- `yaml.Unmarshal` into a configuration; with an error it may have set some of it.
  abbrev pub Unmarshal : Type 0
  Unmarshal = List ℕ → RootConfig → RootConfig × Option E

  abbrev pub load_file : Unmarshal → File → RootConfig × Option E
  load_file unmarshal (unreadable e) = (default_config, some e)
  load_file unmarshal (contents bytes) = unmarshal bytes default_config

  unfoldable pub load_config : (String → File) → Unmarshal → String → RootConfig × Option E
  load_config read unmarshal path =
      if path == "" then (default_config, none) else load_file unmarshal (read path)

-- The error, if there is one.
unfoldable pub validate : RootConfig → Option String
validate c =
    if c.admin.addr == ""
    then some "admin.addr is required"
    else if c.admin.grpc_addr == ""
    then some "admin.grpc_addr is required"
    else none
