-- ===== src/Contracts.antt =====
-- platform/contracts: the models that kernels share. `time.Time` is a number of nanoseconds since
-- Go's zero time, so `IsZero` is the test for 0; a slice is a list (nil and empty are one); a JSON
-- tag changes no value and is left out.
use rassberry.Base.{ℕ, String, Bool, List, Option, none, some}
use rassberry.Base.Maps.{Map}

-- `type Scope string`
abbrev pub Scope : Type 0
Scope = String

abbrev pub root_scope : Scope
root_scope = "root"

abbrev pub domain_scope : Scope
domain_scope = "domain"

abbrev pub function_scope : Scope
function_scope = "function"

-- `type LifecycleState string`, whose nine constants are all that the code assigns.
pub data LifecycleState : Type 0 where
  state_load state_init state_configure state_start state_ready : LifecycleState
  state_degraded state_failed state_draining state_stopped : LifecycleState

-- `type HealthStatus string`: its five constants, the empty text, and any other text.
pub data HealthStatus : Type 0 where
  health_ready health_degraded health_failed health_draining health_stopped : HealthStatus
  health_unset : HealthStatus
  health_other : String → HealthStatus

-- A value of Go type `any` in a dynamic map: a text, or a value of another type, of which the code
-- only ever asks whether it equals another one.
pub data AnyValue : Type 0 where
  text_value : String → AnyValue
  other_value : ℕ → AnyValue

pub record Health : Type 0 where
  pub status : HealthStatus
  pub reason : String
  pub since : ℕ

pub record Manifest : Type 0 where
  pub kernel_id : String
  pub version : String
  pub scope : Scope
  pub features : List String
  pub requires : Map AnyValue
  pub resources : Map AnyValue
  pub security : Map AnyValue
  pub compat : Map AnyValue

pub record NetworkEndpoint : Type 0 where
  pub name : String
  pub protocol : String
  pub address : String
  pub version : String
  pub endpoints : List String

pub record EventSpec : Type 0 where
  pub topic : String
  pub description : String

pub record StreamSpec : Type 0 where
  pub topic : String
  pub group : String
  pub dlq : String
  pub delivery : String

pub record CliCommand : Type 0 where
  pub name : String
  pub description : String

pub record LocalService : Type 0 where
  pub name : String
  pub interface : String
  pub version : String

pub record Exports : Type 0 where
  pub network : List NetworkEndpoint
  pub events : List EventSpec
  pub streams : List StreamSpec
  pub cli : List CliCommand
  pub local : List LocalService

pub record RpcRef : Type 0 where
  pub name : String
  pub version : String
  pub optional : Bool

pub record TopicRef : Type 0 where
  pub topic : String
  pub optional : Bool

pub record StreamRef : Type 0 where
  pub topic : String
  pub group : String
  pub optional : Bool

pub record StorageRef : Type 0 where
  pub kind : String
  pub name : String
  pub optional : Bool

pub record Imports : Type 0 where
  pub rpc : List RpcRef
  pub events : List TopicRef
  pub streams : List StreamRef
  pub storages : List StorageRef
  pub env : List String

pub record Envelope : Type 0 where
  pub id : String
  pub type_ : String
  pub key : String
  pub headers : Map String
  pub payload : List ℕ
  pub occurred_at : ℕ

-- `Manifest.JSON`, where `marshal_indent` is the library's; its error leaves the empty text.
unfoldable pub manifest_json : (Manifest → Option String) → Manifest → String
manifest_json marshal_indent m = elim (marshal_indent m) [ none ↦ "" | some text ↦ text ]
