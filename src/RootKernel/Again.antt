-- ===== src/RootKernel/Again.antt =====
-- A domain of another mode than `inproc`, which the root kernel starts through its factory, and a
-- reload of the same list.
use rassberry.Base.{ℕ, none, [], ◌∷◌, ◌≡◌, ◌≢◌, refl, ap, ◌∙◌}
use rassberry.Base.Maps.{lookup, insert}
use rassberry.Domains.{
  DomainSpec, Environment, index_of, reload, stop_removed, renew_all, renew, launch_inproc,
}
use rassberry.RootKernel.{launch, launch_all, root_manager, on_hup}
use rassberry.RootKernel.Launch.{launch-runs}
use rassberry.Config.{RootConfig}

module _ {S H E : Type 0} (env : Environment S H E) where
  -- If the configuration has one domain, and its mode is not `inproc`, then a SIGHUP right behind the
  -- start, with the configuration unchanged, makes the manager launch that domain, although the root
  -- kernel has already tried to start it.
  pub on_hup_again :
      (spec : DomainSpec) (cfg : RootConfig) (registered since updated : ℕ)
      → spec.mode ≢ "inproc"
      → cfg.domains ≡ spec ∷ []
      → let m = (launch_all env cfg.domains (root_manager env registered since updated)).0 in
        on_hup env (cfg, none) [] (index_of cfg.domains []) m ≡ (launch_inproc env spec m).0
  unfolding on_hup reload stop_removed renew_all index_of insert launch_all root_manager
  on_hup_again spec cfg registered since updated n c =
      let m = root_manager env registered since updated in
      let e : lookup spec.id (launch env spec m).0.runs ≡ none =
        ap (lookup spec.id) (launch-runs env spec m n) ∙ unfold lookup in refl in
      rw (c, e, renew) refl
