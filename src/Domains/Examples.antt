-- ===== src/Domains/Examples.antt =====
-- A manager that runs two domains, of which a new list names one, with another mode.
use rassberry.Base.{
  ℕ, String, true, false, none, some, [], ◌∷◌, ◌≡◌, refl, arith, ◌⊎◌, inl, inr, Bool-cases, ◌||◌,
  ◌==◌,
}
use rassberry.Base.Maps.{Map, lookup, insert, erase}
use rassberry.Contracts.{AnyValue}
use rassberry.Lifecycle.{kernel_module_base, new_fsm, run, stage, set}
use rassberry.Domains.{
  DomainSpec, Kernel, DomainRun, DomainManager, Environment, index_of, reload, launch_inproc,
  stop_removed, stop_domain, renew_all,
}
use rassberry.Domains.{not_implemented}
use rassberry.Domains.Factory.{
  in_run_fsm, register_domain_factory, launch_domain_with_factory,
  launch_domain_with_factory-launch_inproc,
}
use rassberry.Domains.Reload.{has, reload-runs}

abbrev quiet : Kernel ℕ Unit String
quiet = record {
  hooks = kernel_module_base {S = ℕ} {H = Unit} {C = Map AnyValue} {E = String} 0;
  start = 0;
}

abbrev world : Environment ℕ Unit String
world = record {
  factories = ("site", λ id. quiet) ∷ [];
  host = λ s. tt;
  same_config = λ a b. true;
  same_flags = λ a b. true;
  registered = λ id. 1;
  updated = λ id. 2;
}

abbrev site : DomainSpec
site = record {
  id = "site";
  mode = "inproc";
  kind = "site";
  entry = "";
  command = "";
  feature_flags = [];
  config = [];
}

abbrev moved : DomainSpec
moved = record site { mode = "remote" }

abbrev run_of : DomainSpec → DomainRun ℕ Unit String
run_of spec = record { spec = spec; kernel = quiet; fsm = new_fsm 0 false }

abbrev two : DomainManager ℕ Unit String
two = record {
  reg = record { kernels = [] };
  runs = ("old", run_of (record site { id = "old" })) ∷ ("site", run_of site) ∷ [];
  retired = [];
}

visited : (i : String) → (lookup i two.runs ≡ none) ⊎ (has i ("site" ∷ "old" ∷ []) ≡ true)
unfolding lookup
visited i = elim (Bool-cases ("site" == i || ("old" == i || false))) [
  | inl e ↦ inr e
  | inr e ↦ inl (ground arith)
]

reload-runs_example : lookup "site" (index_of (moved ∷ []) []) ≡ some moved
unfolding lookup insert index_of reload stop_removed stop_domain renew_all launch_inproc run stage
    set new_fsm erase
reload-runs_example =
    reload-runs world (moved ∷ []) ("site" ∷ "old" ∷ []) (("site", moved) ∷ []) two "site" _ visited
      (tt, tt) (λ i. refl) refl

launch_domain_with_factory-launch_inproc_example :
    ((launch_domain_with_factory world moved two.reg).0 ≡ (launch_inproc world moved two).0.reg)
    × ((((launch_domain_with_factory world moved two.reg).1 ≡ true)
          × ((launch_domain_with_factory world moved two.reg).2
              ≡ in_run_fsm (launch_inproc world moved two).1))
        ⊎ (((launch_domain_with_factory world moved two.reg).1 ≡ false)
            × ((launch_domain_with_factory world moved two.reg).2 ≡ none)
            × ((launch_inproc world moved two).1 ≡ some (not_implemented "remote"))))
launch_domain_with_factory-launch_inproc_example =
    launch_domain_with_factory-launch_inproc world moved two

abbrev by_kind : Map ℕ
by_kind = register_domain_factory "site" (some 1) (register_domain_factory "" (some 2) [])

last_factory : lookup "site" (register_domain_factory "site" (some 3) by_kind) ≡ some 3
unfolding lookup insert register_domain_factory
last_factory = refl
