-- ===== src/Supervisor/Acts.antt =====
-- The supervisor's methods and the steps of its goroutines, interleaved in any way.
use rassberry.Base.{ℕ, String, List, some, [], ◌∷◌, ◌<◌, ◌≡◌, ◌≢◌}
use rassberry.Base.Maps.{Map}
use rassberry.Supervisor.Backoff.{Float}
use rassberry.Supervisor.{gone, WorkerSpec, Supervisor, Choice, start, stop, stop_all, go}

-- A call of a method, or a step of a goroutine.
pub data Act (fl : Float) (E : Type 0) : Type 0 where
  start_act : WorkerSpec fl E → Act fl E
  stop_act : String → Act fl E
  stop_all_act : Map ℕ → Act fl E
  go_act : ℕ → Choice fl E → Act fl E

pub some_inj : {i j : ℕ} → some i ≡ some j → i ≡ j
some_inj h = cc

module _ {fl : Float} {E : Type 0} where
  unfoldable pub act : Act fl E → Supervisor fl E → Supervisor fl E
  act (start_act spec) s = (start spec s).0
  act (stop_act name) s = stop name s
  act (stop_all_act order) s = stop_all order s
  act (go_act i c) s = go i c s

  unfoldable pub acts : List (Act fl E) → Supervisor fl E → Supervisor fl E
  acts [] s = s
  acts (a ∷ l) s = acts l (act a s)

  -- A goroutine that was started and has not returned.
  abbrev pub IsLive : Supervisor fl E → ℕ → Type 0
  IsLive s i = (i < s.next) × ((s.heap i).place ≢ gone)
