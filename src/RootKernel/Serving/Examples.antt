-- ===== src/RootKernel/Serving/Examples.antt =====
-- A log gateway that cannot listen, a SIGHUP with a new list of domains, and a signal.
use rassberry.Base.{
  ℕ, String, List, false, none, some, [], ◌∷◌, ◌++◌, ◌≡◌, refl, inl, inr, ◌⊎◌, String-cases,
}
use rassberry.Base.Maps.{lookup, insert, erase}
use rassberry.Lifecycle.{Fsm, run, stage, set, new_fsm}
use rassberry.Domains.{
  DomainSpec, DomainRun, DomainManager, index_of, launch_inproc, reload, stop_removed, renew_all,
  stop_domain,
}
use rassberry.Config.{Unmarshal, contents, default_config, default_site, load_config, validate}
use rassberry.RootKernel.{launch, launch_all, root_manager}
use rassberry.RootKernel.Launch.{Among}
use rassberry.RootKernel.Examples.{quiet, world}
use rassberry.RootKernel.Serving.{
  Event, hup, visited, gateway_ended, context_done, finished, Serving, at_rest, next_visit, serve,
  main,
}
use rassberry.RootKernel.Serving.InForce.{AllVisit, IsDue, in_force, serve-runs}
use rassberry.Domains.Retire.{Held}
use rassberry.RootKernel.Serving.NoneLost.{serve-Held}
use rassberry.RootKernel.Serving.Signal.{signal_finishes}

abbrev shop : DomainSpec
shop = record default_site { id = "shop" }

-- Every file has the list of one domain.
abbrev unmarshal : Unmarshal String
unmarshal bytes cfg = (record cfg { domains = shop ∷ [] }, none)

abbrev events : List (Event String)
events =
    gateway_ended (some "address in use")
    ∷ hup (λ p. contents []) ("site" ∷ []) (index_of (shop ∷ []) [])
    ∷ visited
    ∷ visited
    ∷ []

abbrev shop_run : DomainRun ℕ Unit String
shop_run = record {
  spec = shop;
  kernel = quiet;
  fsm = (run quiet.hooks tt shop.config (new_fsm 0 false)).0;
}

abbrev manager : DomainManager ℕ Unit String
manager = (launch_all world default_config.domains (root_manager world 1 2 3)).0

abbrev served : Serving ℕ Unit String
served = at_rest world unmarshal "rk.yaml" manager

events-AllVisit : AllVisit world unmarshal "rk.yaml" events served
unfolding AllVisit load_config launch_all launch launch_inproc root_manager lookup insert index_of
    run stage set new_fsm
events-AllVisit = (
  λ e. (
    (λ i. elim (String-cases "site" i) [
      | inl (e, p) ↦ inr (rw e refl)
      | inr (e, n) ↦ inl (rw e refl)
    ]),
    (tt, tt),
    (λ i. refl),
  ),
  tt,
)

serve-runs_example :
    IsDue world unmarshal "rk.yaml" "shop" (serve world unmarshal "rk.yaml" events served).0
    ⊎ (Among shop (in_force world unmarshal "rk.yaml" default_config events served).domains
        × (shop.id ≡ "shop"))
unfolding launch_all launch launch_inproc root_manager lookup insert run stage set new_fsm serve
    next_visit load_config renew_all index_of stop_removed stop_domain erase reload
serve-runs_example =
    serve-runs world unmarshal "rk.yaml" default_config 1 2 3 events events-AllVisit "shop" shop_run
      refl

signal_finishes_example :
    (main world unmarshal "rk.yaml"
        (λ e. false)
        (λ p. contents [])
        1
        2
        3
        (events ++ context_done ∷ [])
      ≡ some finished)
    × ((serve world unmarshal "rk.yaml" (events ++ context_done ∷ []) (
          at_rest world unmarshal "rk.yaml"
            (launch_all world (shop ∷ []) (root_manager world 1 2 3)).0)).0
        ≡ (serve world unmarshal "rk.yaml" events (
            at_rest world unmarshal "rk.yaml"
              (launch_all world (shop ∷ []) (root_manager world 1 2 3)).0)).0)
unfolding load_config validate
signal_finishes_example =
    signal_finishes world unmarshal "rk.yaml" (λ e. false) (λ p. contents []) 1 2 3 events []
      (record default_config { domains = shop ∷ [] }) refl refl (tt, (tt, (tt, (tt, tt))))

abbrev site_fsm : Fsm ℕ String
site_fsm = (run quiet.hooks tt default_site.config (new_fsm 0 false)).0

abbrev site_run : DomainRun ℕ Unit String
site_run = record { spec = default_site; kernel = quiet; fsm = site_fsm }

serve-Held_example :
    Held "site" quiet site_fsm (serve world unmarshal "rk.yaml" events served).0.manager
unfolding launch_all launch launch_inproc root_manager lookup insert run stage set new_fsm
serve-Held_example =
    serve-Held world unmarshal "rk.yaml" events "site" quiet site_fsm manager events-AllVisit
      (inl (site_run, refl, refl, refl))
