-- ===== src/RootKernel/Serving/Signal.antt =====
-- How the process of the root kernel ends by a signal.
use rassberry.Base.{ℕ, String, Bool, List, none, some, [], ◌∷◌, ◌++◌, ◌≡◌, refl, ap, ◌∙◌, All}
use rassberry.Domains.{Environment}
use rassberry.Config.{RootConfig, File, Unmarshal, load_config, validate}
use rassberry.RootKernel.{launch_all, root_manager, run_root_kernel, serving}
use rassberry.RootKernel.Serving.{
  Event, hup, visited, Serving, at_rest, gateway_ended, admin_ended, context_done, finished, serve,
  run_loaded, exit_of, run_config, main,
}

-- The events behind which `RunRootKernel` goes on.
abbrev pub GoesOn : {E : Type 0} → Event E → Type 0
GoesOn (hup read ids order) = Unit
GoesOn visited = Unit
GoesOn (gateway_ended err) = Unit
GoesOn _ = ⊥

module _ {S H E : Type 0} (env : Environment S H E) (unmarshal : Unmarshal E) (path : String) where
  serve-signal :
      (es rest : List (Event E)) (m : Serving S H E)
      → All GoesOn es
      → serve env unmarshal path (es ++ context_done ∷ rest) m
        ≡ ((serve env unmarshal path es m).0, some none)
  unfolding serve
  serve-signal [] rest m h = refl
  serve-signal (hup read ids order ∷ es) rest m h = serve-signal es rest _ h.1
  serve-signal (visited ∷ es) rest m h = serve-signal es rest _ h.1
  serve-signal (gateway_ended err ∷ es) rest m h = serve-signal es rest m h.1
  serve-signal (admin_ended sel ∷ es) rest m h = absurd h.0
  serve-signal (context_done ∷ es) rest m h = absurd h.0

  run_root_kernel-valid :
      (cfg : RootConfig) (registered since updated : ℕ)
      → validate cfg ≡ none
      → let (m, ls) = launch_all env cfg.domains (root_manager env registered since updated) in
        run_root_kernel env cfg registered since updated ≡ serving m ls
  unfolding run_root_kernel
  run_root_kernel-valid cfg registered since updated v = rw (v, run_root_kernel) refl

  -- If the configuration loads and is valid, then a signal that comes while the administration still
  -- serves ends the process with the code 0, also where the log gateway has failed; the manager is
  -- left as it was, so that no domain is drained or stopped, and a `Reload` under way is broken off.
  pub signal_finishes :
      (is_canceled : E → Bool) (read : String → File E) (registered since updated : ℕ)
      (es rest : List (Event E)) (cfg : RootConfig)
      → load_config E read unmarshal path ≡ (cfg, none)
      → validate cfg ≡ none
      → All GoesOn es
      → let s =
          at_rest env unmarshal path
            (launch_all env cfg.domains (root_manager env registered since updated)).0 in
        (main env unmarshal path is_canceled read registered since updated
            (es ++ context_done ∷ rest)
          ≡ some finished)
        × ((serve env unmarshal path (es ++ context_done ∷ rest) s).0
            ≡ (serve env unmarshal path es s).0)
  unfolding main
  signal_finishes is_canceled read registered since updated es rest cfg l v h =
      let m = (launch_all env cfg.domains (root_manager env registered since updated)).0 in
      let e = serve-signal es rest (at_rest env unmarshal path m) h in
      let events = es ++ context_done ∷ rest in
      (
        ap (λ a. run_loaded env unmarshal path is_canceled a registered since updated events) l
            ∙ ap (λ s. run_config env unmarshal path is_canceled s events)
                (run_root_kernel-valid cfg registered since updated v)
            ∙ ap (λ q. exit_of is_canceled q.1) e,
        ap (λ q. q.0) e,
      )
