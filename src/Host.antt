-- ===== src/Host.antt =====
-- platform/runtime/host_gen.go: what a kernel is given. Loggers, RPC, buses and streams are parameters;
-- a map is the list in which `range` visits it.
use rassberry.Base.{String, List, Option, none, some, [], ◌∷◌}
use rassberry.Base.Maps.{Map, insert}
use rassberry.Contracts.{AnyValue, Scope}

module _ (L R B T : Type 0) where
  -- `none` as the logger is `noopLogger`; elsewhere it is nil.
  pub record Host : Type 0 where
    pub id : String
    pub scope : Scope
    pub logger : Option L
    pub rpc : Option R
    pub bus : Option B
    pub stream : Option T
    pub cfg : Map AnyValue

  pub data HostOption : Type 0 where
    with_logger : Option L → HostOption
    with_rpc : Option R → HostOption
    with_event_bus : Option B → HostOption
    with_stream : Option T → HostOption
    with_config : Option (List (String × AnyValue)) → HostOption

abbrev put_all : List (String × AnyValue) → Map AnyValue → Map AnyValue
put_all [] cfg = cfg
put_all ((k, v) ∷ kvs) cfg = put_all kvs (insert k v cfg)

module _ {L R B T : Type 0} where
  unfoldable pub apply_option : HostOption L R B T → Host L R B T → Host L R B T
  apply_option (with_logger none) h = h
  apply_option (with_logger (some l)) h = record h { logger = some l }
  apply_option (with_rpc r) h = record h { rpc = r }
  apply_option (with_event_bus b) h = record h { bus = b }
  apply_option (with_stream s) h = record h { stream = s }
  apply_option (with_config none) h = h
  apply_option (with_config (some kvs)) h = record h { cfg = put_all kvs h.cfg }

  abbrev apply_options : List (HostOption L R B T) → Host L R B T → Host L R B T
  apply_options [] h = h
  apply_options (o ∷ os) h = apply_options os (apply_option o h)

  unfoldable pub new_host : String → Scope → List (HostOption L R B T) → Host L R B T
  unfolding apply_option
  new_host id scope opts = apply_options opts (record {
    id = id;
    scope = scope;
    logger = none;
    rpc = none;
    bus = none;
    stream = none;
    cfg = [];
  })
