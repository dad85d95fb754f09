-- ===== src/Supervisor/Invariant.antt =====
-- What every interleaving of the supervisor's methods and of its goroutines keeps.
use rassberry.Base.{ℕ, String, some, ◌<◌, ◌≡◌, ◌≤◌}
use rassberry.Base.Maps.{lookup}
use rassberry.Supervisor.Backoff.{Float}
use rassberry.Supervisor.{gone, Supervisor}
use rassberry.Supervisor.Acts.{IsLive}

module _ {fl : Float} {E : Type 0} where
  pub record IsWellFormed (s : Supervisor fl E) : Type 0 where
    pub found : (i : ℕ) → IsLive s i → lookup (s.heap i).spec.name s.workers ≡ some i
    pub named :
        (name : String) (i : ℕ)
        → lookup name s.workers ≡ some i
        → (i < s.next) × ((s.heap i).spec.name ≡ name)
    pub unused : (i : ℕ) → s.next ≤ i → (s.heap i).place ≡ gone
