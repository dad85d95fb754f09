-- ===== src/Site/Life.antt =====
-- The domain from its launch to its end.
use rassberry.Base.{
  ℕ, String, Bool, List, Option, none, some, [], ◌∷◌, ◌≡◌, ◌<◌, ◌≤◌, refl, ap, subst, ◌∙◌,
}
use rassberry.Base.Maps.{Map, lookup, insert}
use rassberry.Contracts.{
  AnyValue, text_value, other_value, state_ready, state_stopped, NetworkEndpoint,
}
use rassberry.Lifecycle.{Fsm, new_fsm, run, stop, stage, set}
use rassberry.Domains.{hello_exports, text_or}
use rassberry.Supervisor.Backoff.{Float}
use rassberry.Supervisor.{Supervisor, Worker, Choice, gone, new_supervisor, start}
use rassberry.Supervisor.Acts.{Act, acts, act, start_act}
use rassberry.Supervisor.Ending.{turns, turns_of, turns-next, stop_all-wait}
use rassberry.Site.{
  Domain, new_domain, set_text, on_configure, on_start, on_stop, site_module, hello_http,
  log_forwarder, worker_logs,
}

abbrev pub addresses : List NetworkEndpoint → List String
addresses [] = []
addresses (e ∷ es) = e.address ∷ addresses es

text_or-set_text : (o : Option AnyValue) → text_or ":8081" o ≡ set_text o ":8081"
text_or-set_text none = refl
text_or-set_text (some (text_value v)) = refl
text_or-set_text (some (other_value n)) = refl

module _ (fl : Float) (H E : Type 0) (blank : Worker fl E) where
  -- The goroutines of the workers go on.
  abbrev pub elapse : List (ℕ × Choice fl E) → Fsm (Domain fl H E) E → Fsm (Domain fl H E) E
  elapse l f = record f {
    kernel = record (f.kernel) {
      sup = elim f.kernel.sup [ none ↦ none | some s ↦ some (acts (turns l) s) ];
    };
  }

  abbrev pub waited_for : Option (Supervisor fl E) → ℕ
  waited_for none = 0
  waited_for (some s) = s.wg

  abbrev pub booted :
      Map ℕ
      → List (ℕ × Choice fl E)
      → H
      → Map AnyValue
      → String
      → ℕ
      → Bool
      → Fsm (Domain fl H E) E × Option E
  booted order t host cfg id now on =
      run (site_module fl H E blank order t) host cfg (new_fsm (new_domain fl H E id now) on)

  -- Whatever its configuration, a site domain starts without an error and is ready, and it listens on
  -- the very address that its launch puts into the registry as its export.
  pub site_address :
      (order : Map ℕ) (t : List (ℕ × Choice fl E)) (host : H) (cfg : Map AnyValue) (id : String)
      (now : ℕ) (on : Bool)
      → let r = booted order t host cfg id now on in
        (r.1 ≡ none)
        × (r.0.state ≡ state_ready)
        × (addresses (hello_exports cfg).network ≡ r.0.kernel.http_addr ∷ [])
  unfolding run stage set new_fsm on_configure on_start
  site_address order t host cfg id now on =
      (refl, refl, ap (λ a. a ∷ []) (text_or-set_text (lookup "http_addr" cfg)))

  abbrev starts : List (Act fl E) → List (Act fl E)
  starts l =
      start_act (hello_http fl H E)
      ∷ start_act (log_forwarder fl H E)
      ∷ start_act (worker_logs fl H E)
      ∷ l

  starts-next : (acts (starts []) (new_supervisor blank)).next ≡ 3
  unfolding acts act start lookup insert
  starts-next = refl

  -- However the goroutines of its three workers went on behind the start of a site domain, its stop is
  -- without an error and ends with the state `stopped` and with no goroutine left that `Wait` counts,
  -- if each of the three takes three turns while `Wait` waits.
  pub site_stops :
      (order : Map ℕ) (t l : List (ℕ × Choice fl E)) (host : H) (cfg : Map AnyValue) (id : String)
      (now : ℕ) (on : Bool)
      → blank.place ≡ gone
      → ((i : ℕ) → i < 3 → 3 ≤ turns_of i t)
      → let r =
          stop
            (site_module fl H E blank order t)
            (elapse l (booted order t host cfg id now on).0) in
        (r.1 ≡ none) × (r.0.state ≡ state_stopped) × (waited_for r.0.kernel.sup ≡ 0)
  unfolding run stage set new_fsm on_start on_stop stop acts act
  site_stops order t l host cfg id now on b h =
      let e = turns-next l (acts (starts []) (new_supervisor blank)) ∙ starts-next in
      (
        refl,
        refl,
        stop_all-wait blank (starts (turns l)) order t b (λ i n. h i (subst (λ k. i < k) e n)),
      )
