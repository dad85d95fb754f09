-- ===== src/Site.antt =====
-- kernels/examples/site/site_domain_gen.go: the kernel of the domain `site`, as hooks of Lifecycle on
-- its state. Its workers are those of Supervisor; listening and the clock are the library's.
pub mod Life
mod Examples
use Prim.Native.String.{◌++◌}
use rassberry.Base.{
  ℕ, String, Bool, List, Option, true, false, none, some, [], ◌∷◌, ◌==◌, if◌then◌else◌,
}
use rassberry.Base.Int.{pos}
use rassberry.Base.Maps.{Map, lookup}
use rassberry.Contracts.{AnyValue, text_value, Health, health_ready, Manifest, domain_scope}
use rassberry.Registry.{zero_manifest}
use rassberry.Lifecycle.{KernelModule, kernel_module_base}
use rassberry.Supervisor.Backoff.{Float, BackoffPolicy}
use rassberry.Supervisor.{
  Supervisor, Worker, WorkerSpec, Choice, permanent, new_supervisor, start, stop_all,
}
use rassberry.Supervisor.Acts.{acts}
use rassberry.Supervisor.Ending.{turns}

-- What `ListenAndServe` answers: `http.ErrServerClosed`, or another error.
pub data Served (E : Type 0) : Type 0 where
  server_closed : Served E
  serve_failed : E → Served E

-- The answer of the worker `fk-hello-http`, and what it shows under `/hello`.
abbrev pub hello_result : {E : Type 0} → Served E → Option E
hello_result server_closed = none
hello_result (serve_failed e) = some e

abbrev pub hello_page : String → String
hello_page id = "hello from site: " ++ (id ++ "\n")

-- `if v, ok := cfg[key].(string); ok && v != ""`
abbrev pub set_text : Option AnyValue → String → String
set_text (some (text_value v)) old = if v == "" then old else v
set_text _ old = old

module _ (fl : Float) (H E : Type 0) where
  pub record Domain : Type 0 where
    pub id : String
    pub host : Option H
    pub sup : Option (Supervisor fl E)
    pub http_addr : String
    pub log_gw : String
    pub health : Health

  abbrev pub new_domain : String → ℕ → Domain
  new_domain id now = record {
    id = id;
    host = none;
    sup = none;
    http_addr = ":8081";
    log_gw = "127.0.0.1:8079";
    health = record { status = health_ready; reason = ""; since = now };
  }

  abbrev pub site_manifest : Domain → Manifest
  site_manifest d = record zero_manifest {
    kernel_id = d.id;
    version = "0.0.1";
    scope = domain_scope;
    features = "http" ∷ "workers" ∷ "log-forwarder" ∷ [];
  }

  unfoldable pub on_configure : Map AnyValue → Domain → Domain
  on_configure cfg d = record d {
    http_addr = set_text (lookup "http_addr" cfg) d.http_addr;
    log_gw = set_text (lookup "log_gateway" cfg) d.log_gw;
  }

  -- A specification whose backoff is left at its zero value.
  abbrev pub worker : String → WorkerSpec fl E
  worker name = record {
    name = name;
    policy = permanent;
    backoff = record { min = pos 0; max = pos 0; factor = fl.zero_point; jitter = fl.zero_point };
    has_fn = true;
  }

  abbrev pub hello_http : WorkerSpec fl E
  hello_http = worker "fk-hello-http"

  abbrev pub log_forwarder : WorkerSpec fl E
  log_forwarder = worker "fk-log-forwarder"

  abbrev pub worker_logs : WorkerSpec fl E
  worker_logs = worker "worker-logs"

  module _ (blank : Worker fl E) where
    -- The errors of the three calls of `Start` are dropped.
    unfoldable pub on_start : Domain → Domain
    on_start d = record d {
      sup =
          some
            (start worker_logs
              (start log_forwarder (start hello_http (new_supervisor blank)).0).0).0;
    }

    -- `order` is how `range` visits the workers, and `t` the turns of the goroutines while `Wait`
    -- waits for them.
    unfoldable pub on_stop : Map ℕ → List (ℕ × Choice fl E) → Domain → Domain
    on_stop order t d = elim d.sup [
      | none ↦ d
      | some s ↦ record d { sup = some (acts (turns t) (stop_all order s)) }
    ]

    abbrev pub site_module : Map ℕ → List (ℕ × Choice fl E) → KernelModule Domain H (Map AnyValue) E
    site_module order t = record (kernel_module_base 0) {
      manifest = site_manifest;
      on_load = λ h d. (record d { host = some h }, none);
      on_configure = λ cfg d. (on_configure cfg d, none);
      on_start = λ d. (on_start d, none);
      on_stop = λ d. (on_stop order t d, none);
      health = λ d. d.health;
    }
