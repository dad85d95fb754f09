-- ===== src/Site/Examples.antt =====
-- A site domain with an address of its own, and a schedule that serves its three goroutines.
use rassberry.Base.{
  ℕ, zero, suc, String, List, true, false, none, [], ◌∷◌, ◌≡◌, ◌<◌, ◌≤◌, refl, arith,
}
use rassberry.Base.Maps.{Map}
use rassberry.Contracts.{AnyValue, text_value, state_stopped}
use rassberry.Lifecycle.{stop}
use rassberry.Supervisor.{Worker, Choice, gone, returned}
use rassberry.Supervisor.Ending.{turns_of}
use rassberry.Forwarder.Whole.{whole}
use rassberry.Site.{site_module, hello_http}
use rassberry.Site.Life.{booted, elapse, waited_for, site_stops}

abbrev config : Map AnyValue
config = ("http_addr", text_value ":9000") ∷ []

abbrev blank : Worker whole String
blank = record {
  spec = hello_http whole Unit String;
  cancelled = false;
  attempts = 0;
  stopped = false;
  place = gone;
}

abbrev returns : Choice whole String
returns = record { result = returned none; rnd = 0; timer = true }

abbrev schedule : List (ℕ × Choice whole String)
schedule =
    (0, returns)
    ∷ (1, returns)
    ∷ (2, returns)
    ∷ (0, returns)
    ∷ (1, returns)
    ∷ (2, returns)
    ∷ (0, returns)
    ∷ (1, returns)
    ∷ (2, returns)
    ∷ []

serves_three : (i : ℕ) → i < 3 → 3 ≤ turns_of i schedule
serves_three zero h = omega arith
serves_three (suc zero) h = omega arith
serves_three (suc (suc zero)) h = omega arith
serves_three (suc (suc (suc i))) h = absurd (omega arith)

site_stops_example :
    let r = stop (site_module whole Unit String blank [] schedule) (
      elapse whole Unit String blank
        ((0, returns) ∷ [])
        (booted whole Unit String blank [] schedule tt config "site" 5 true).0) in
    (r.1 ≡ none)
    × (r.0.state ≡ state_stopped)
    × (waited_for whole Unit String blank r.0.kernel.sup ≡ 0)
site_stops_example =
    site_stops whole Unit String blank [] schedule ((0, returns) ∷ []) tt config "site" 5 true refl
      serves_three
