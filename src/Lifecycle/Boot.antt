-- ===== src/Lifecycle/Boot.antt =====
-- `Run` against the plain sequence of the hooks.
use rassberry.Base.{List, Option, true, none, some, [], ◌∷◌, ◌≡◌, arith}
use rassberry.Contracts.{
  LifecycleState, state_load, state_init, state_configure, state_start, state_ready, state_failed,
}
use rassberry.Lifecycle.{KernelModule, Transition, Fsm, new_fsm, run}

-- Where a run of the hooks ends: the last kernel state, and the stage that failed with its error.
abbrev pub Outcome : Type 0 → Type 0 → Type 0
Outcome S E = S × Option (LifecycleState × E)

module _ {E : Type 0} where
  abbrev step : LifecycleState → LifecycleState → Option E → Transition E
  step from to err = record { from = from; to = to; err = err }

  -- The calls of the transition hook on the way to the end of a run.
  abbrev trail : Option (LifecycleState × E) → List (Transition E)
  trail (some (state_load, e)) = step state_load state_failed (some e) ∷ []
  trail (some (state_init, e)) =
      step state_load state_init none ∷ step state_init state_failed (some e) ∷ []
  trail (some (state_configure, e)) =
      step state_load state_init none
      ∷ step state_init state_configure none
      ∷ step state_configure state_failed (some e)
      ∷ []
  trail (some (_, e)) =
      step state_load state_init none
      ∷ step state_init state_configure none
      ∷ step state_configure state_start none
      ∷ step state_start state_failed (some e)
      ∷ []
  trail none =
      step state_load state_init none
      ∷ step state_init state_configure none
      ∷ step state_configure state_start none
      ∷ step state_start state_ready none
      ∷ []

  abbrev end_state : Option (LifecycleState × E) → LifecycleState
  end_state none = state_ready
  end_state (some _) = state_failed

  abbrev end_error : Option (LifecycleState × E) → Option E
  end_error none = none
  end_error (some (at, e)) = some e

module _ {S E : Type 0} where
  abbrev attempt : LifecycleState → S × Option E → (S → Outcome S E) → Outcome S E
  attempt at (s, none) rest = rest s
  attempt at (s, some e) rest = (s, some (at, e))

  abbrev pub report : Outcome S E → Fsm S E × Option E
  report (s, o) =
      (record { state = end_state o; kernel = s; on = true; seen = trail o }, end_error o)

module _ {S H C E : Type 0} (m : KernelModule S H C E) where
  -- The specification: the four hooks in order up to the first error, and `OnReady` behind them,
  -- whose error does not count. A stage is named by the state in which its hook runs.
  unfoldable pub boot : H → C → S → Outcome S E
  boot host cfg s = attempt state_load (m.on_load host s) λ s. attempt state_init (m.on_init s) λ s.
      attempt state_configure (m.on_configure cfg s)
        λ s. attempt state_start (m.on_start s) λ s. ((m.on_ready s).0, none)

  -- `Run` of a new automaton with a transition hook calls the kernel's hooks in order up to the
  -- first error and returns that error; it ends `ready` without one and `failed` with one, and the
  -- transition hook sees each state on the way, the error with the last.
  pub run-boot :
      (host : H) (cfg : C) (s : S) → run m host cfg (new_fsm s true) ≡ report (boot host cfg s)
  unfolding run boot new_fsm
  run-boot host cfg s = ground arith
