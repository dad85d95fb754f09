-- ===== src/RootKernel/Serving.antt =====
-- The second half of `RunRootKernel` in cmd/rk/root_kernel_gen.go, from its servers to its return, and
-- `main` of cmd/rk/main_run_gen.go around it. What happens meanwhile is a list of events, in the
-- order in which the goroutines and the `select` take them; the goroutine of the SIGHUPs goes through
-- a `Reload` visit by visit.
pub mod InForce
pub mod Signal
pub mod NoneLost
mod Examples
use rassberry.Base.{
  ℕ, String, Bool, List, Option, true, false, none, some, [], ◌∷◌, ◌==◌, if◌then◌else◌,
}
use rassberry.Base.Maps.{Map, lookup}
use rassberry.Domains.{DomainSpec, DomainManager, Environment, index_of, keeps, stop_domain, renew}
use rassberry.Config.{RootConfig, File, Unmarshal, load_config}
use rassberry.Admin.{Selected, admin_start}
use rassberry.RootKernel.{Launched, Started, invalid, serving, run_root_kernel}

-- The goroutine takes a SIGHUP, with the files as they are then and the orders of the two loops of
-- `Reload`, or makes the next visit of the `Reload` that is under way; the return of the log gateway, or of the administration; and the end of the context by a signal.
pub data Event (E : Type 0) : Type 0 where
  hup : (String → File E) → List String → Map DomainSpec → Event E
  visited : Event E
  gateway_ended : Option E → Event E
  admin_ended : Selected E → Event E
  context_done : Event E

-- The manager, and what is left of the `Reload` under way: its index, and the ids that each of its
-- two loops has yet to visit.
pub record Serving (S H E : Type 0) : Type 0 where
  pub manager : DomainManager S H E
  pub index : Map DomainSpec
  pub removing : List String
  pub renewing : Map DomainSpec

abbrev pub is_idle : List String → Map DomainSpec → Bool
is_idle [] [] = true
is_idle _ _ = false

-- The error of `RunRootKernel`.
pub data RootError (E : Type 0) : Type 0 where
  invalid_config : String → RootError E
  server_failed : E → RootError E

-- How `main` leaves the process, once it does.
pub data Exit (E : Type 0) : Type 0 where
  config_error : E → Exit E
  kernel_error : RootError E → Exit E
  finished : Exit E

abbrev pub code : {E : Type 0} → Exit E → ℕ
code (config_error e) = 1
code (kernel_error e) = 1
code finished = 0

-- What `main` makes of the result, where `is_canceled` tests for `context.Canceled`.
abbrev pub exit_of : {E : Type 0} → (E → Bool) → Option (Option E) → Option (Exit E)
exit_of is_canceled none = none
exit_of is_canceled (some none) = some finished
exit_of is_canceled (some (some e)) =
    some (if is_canceled e then finished else kernel_error (server_failed e))

module _ {S H E : Type 0} (env : Environment S H E) (unmarshal : Unmarshal E) (path : String) where
  abbrev pub at_rest : DomainManager S H E → Serving S H E
  at_rest m = record { manager = m; index = []; removing = []; renewing = [] }

  -- What `LoadConfig` answers starts the `Reload`.
  abbrev pub begin :
      RootConfig × Option E → List String → Map DomainSpec → Serving S H E → Serving S H E
  begin (cfg, none) ids order s = record s {
    index = index_of cfg.domains [];
    removing = ids;
    renewing = order;
  }
  begin (cfg, some e) ids order s = s

  -- The goroutine takes no SIGHUP while a `Reload` is under way.
  abbrev pub take_hup :
      RootConfig × Option E → List String → Map DomainSpec → Serving S H E → Serving S H E
  take_hup answer ids order s =
      if is_idle s.removing s.renewing then begin answer ids order s else s

  -- The next round of the loops of `Reload`.
  abbrev pub visit_of : List String → Map DomainSpec → Serving S H E → Serving S H E
  visit_of (id ∷ ids) order s = record s {
    removing = ids;
    renewing = order;
    manager = if keeps (lookup id s.index) then s.manager else stop_domain env id s.manager;
  }
  visit_of [] ((id, t) ∷ order) s = record s {
    removing = [];
    renewing = order;
    manager = renew env id t (lookup id s.manager.runs) s.manager;
  }
  visit_of [] [] s = s

  unfoldable pub next_visit : Serving S H E → Serving S H E
  next_visit s = visit_of s.removing s.renewing s

  -- From the launches on: the manager with the `Reload` under way, and what `RunRootKernel` returns,
  -- once it does. The log gateway's error is dropped.
  unfoldable pub serve : List (Event E) → Serving S H E → Serving S H E × Option (Option E)
  unfolding next_visit
  serve [] s = (s, none)
  serve (hup read ids order ∷ es) s =
      serve es (take_hup (load_config E read unmarshal path) ids order s)
  serve (visited ∷ es) s = serve es (next_visit s)
  serve (gateway_ended err ∷ es) s = serve es s
  serve (admin_ended sel ∷ es) s = (s, some (admin_start sel))
  serve (context_done ∷ es) s = (s, some none)

  abbrev pub run_config : (E → Bool) → Started env → List (Event E) → Option (Exit E)
  run_config is_canceled (invalid text) es = some (kernel_error (invalid_config text))
  run_config is_canceled (serving m ls) es = exit_of is_canceled (serve es (at_rest m)).1

  abbrev pub run_loaded :
      (E → Bool) → RootConfig × Option E → ℕ → ℕ → ℕ → List (Event E) → Option (Exit E)
  run_loaded is_canceled (cfg, some e) registered since updated es = some (config_error e)
  run_loaded is_canceled (cfg, none) registered since updated es =
      run_config is_canceled (run_root_kernel env cfg registered since updated) es

  -- `main`; `path` is its flag, and `read` the files at the start.
  unfoldable pub main :
      (E → Bool) → (String → File E) → ℕ → ℕ → ℕ → List (Event E) → Option (Exit E)
  main is_canceled read registered since updated es =
      run_loaded is_canceled (load_config E read unmarshal path) registered since updated es
