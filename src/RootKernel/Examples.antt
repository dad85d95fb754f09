-- ===== src/RootKernel/Examples.antt =====
-- A configuration with one domain in the process and one of another mode, and a line of the logger.
use rassberry.Base.{ℕ, String, Option, true, none, some, [], ◌∷◌, ◌≡◌, refl, differ}
use rassberry.Base.Maps.{Map}
use rassberry.Contracts.{AnyValue}
use rassberry.StdLogger.{std_log}
use rassberry.Lifecycle.{kernel_module_base}
use rassberry.Domains.{DomainSpec, Kernel, Environment, index_of, launch_inproc}
use rassberry.Config.{RootConfig, default_config, default_site, validate}
use rassberry.RootKernel.{launch_all, root_manager, run_root_kernel, invalid, on_hup}
use rassberry.RootKernel.Again.{on_hup_again}

abbrev pub quiet : Kernel ℕ Unit String
quiet = record {
  hooks = kernel_module_base {S = ℕ} {H = Unit} {C = Map AnyValue} {E = String} 0;
  start = 0;
}

abbrev pub world : Environment ℕ Unit String
world = record {
  factories = ("site", λ id. quiet) ∷ [];
  host = λ s. tt;
  same_config = λ a b. true;
  same_flags = λ a b. true;
  registered = λ id. 1;
  updated = λ id. 2;
}

abbrev remote : DomainSpec
remote = record default_site { id = "far"; mode = "remote" }

abbrev far_config : RootConfig
far_config = record default_config { domains = remote ∷ [] }

on_hup_again_example :
    let m = (launch_all world (remote ∷ []) (root_manager world 1 2 3)).0 in
    on_hup world (far_config, none) [] (index_of (remote ∷ []) []) m
    ≡ (launch_inproc world remote m).0
on_hup_again_example =
    on_hup_again world remote far_config 1 2 3 (differ "remote" "inproc" refl) refl

no_address :
    run_root_kernel world
      (record default_config { admin = record { addr = ""; grpc_addr = "" } })
      1
      2
      3
    ≡ invalid "admin.addr is required"
unfolding run_root_kernel validate
no_address = refl

without_fields :
    (marshal : Map AnyValue → Option String)
    → std_log marshal (some (record { prefix = "rk" })) "INFO" "up" [] "t" ≡ "t INFO  rk up\n"
unfolding std_log
without_fields marshal = refl
