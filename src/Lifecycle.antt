-- ===== src/Lifecycle.antt =====
-- platform/runtime/fsm_gen.go: the lifecycle of one kernel. A kernel is a value of a type `S` that
-- its hooks change; `H` is the type of hosts, `C` of configurations, `E` of errors. A context is
-- part of what a hook closes over.
pub mod Boot
pub mod Examples
pub mod Trail
use rassberry.Base.{Bool, List, Option, true, false, none, some, [], ◌∷◌, ◌++◌, if◌then◌else◌, ℕ}
use rassberry.Contracts.{
  LifecycleState, state_load, state_init, state_configure, state_start, state_ready, state_failed,
  state_draining, state_stopped, Manifest, Health, health_stopped,
}
use rassberry.Registry.{zero_manifest}

pub record KernelModule (S H C E : Type 0) : Type 0 where
  pub manifest : S → Manifest
  pub on_load : H → S → S × Option E
  pub on_init : S → S × Option E
  pub on_configure : C → S → S × Option E
  pub on_start : S → S × Option E
  pub on_ready : S → S × Option E
  pub on_drain : S → S × Option E
  pub on_stop : S → S × Option E
  pub health : S → Health

-- `KernelModuleBase`; `now` is the reading of the clock in `Health`.
abbrev pub kernel_module_base : {S H C E : Type 0} → ℕ → KernelModule S H C E
kernel_module_base now = record {
  manifest = λ s. zero_manifest;
  on_load = λ h s. (s, none);
  on_init = λ s. (s, none);
  on_configure = λ c s. (s, none);
  on_start = λ s. (s, none);
  on_ready = λ s. (s, none);
  on_drain = λ s. (s, none);
  on_stop = λ s. (s, none);
  health = λ s. record { status = health_stopped; reason = ""; since = now };
}

-- A call of the transition hook.
pub record Transition (E : Type 0) : Type 0 where
  pub from : LifecycleState
  pub to : LifecycleState
  pub err : Option E

-- `on` is whether a hook is set, `seen` the calls made of it, the oldest first.
pub record Fsm (S E : Type 0) : Type 0 where
  pub state : LifecycleState
  pub kernel : S
  pub on : Bool
  pub seen : List (Transition E)

module _ {S E : Type 0} where
  unfoldable pub new_fsm : S → Bool → Fsm S E
  new_fsm k on = record { state = state_load; kernel = k; on = on; seen = [] }

  unfoldable pub set : LifecycleState → Option E → Fsm S E → Fsm S E
  set to err f = record f {
    state = to;
    seen = if f.on then f.seen ++ record { from = f.state; to = to; err = err } ∷ [] else f.seen;
  }

  -- `if err := hook(); err != nil { f.set(StateFailed, err); return err }; f.set(to, nil)`
  abbrev pub settle : LifecycleState → S × Option E → Fsm S E → Fsm S E × Option E
  settle to (k, none) f = (set to none (record f { kernel = k }), none)
  settle to (k, some e) f = (set state_failed (some e) (record f { kernel = k }), some e)

  unfoldable pub stage : (S → S × Option E) → LifecycleState → Fsm S E → Fsm S E × Option E
  unfolding set
  stage hook to f = settle to (hook f.kernel) f

  -- What follows an early return on an error.
  infixl 5 ◌and_then◌
  abbrev pub ◌and_then◌ : Fsm S E × Option E → (Fsm S E → Fsm S E × Option E) → Fsm S E × Option E
  (f, none) and_then rest = rest f
  (f, some e) and_then rest = (f, some e)

  -- `Drain` sets the state first; the hook's error is recorded behind it.
  abbrev pub drained : S × Option E → Fsm S E → Fsm S E × Option E
  drained (k, none) f = (record f { kernel = k }, none)
  drained (k, some e) f = (set state_failed (some e) (record f { kernel = k }), some e)

module _ {S H C E : Type 0} (m : KernelModule S H C E) where
  unfoldable pub run : H → C → Fsm S E → Fsm S E × Option E
  unfolding stage
  run host cfg f =
      stage (m.on_load host) state_init f
      and_then stage m.on_init state_configure
      and_then stage (m.on_configure cfg) state_start
      and_then stage m.on_start state_ready
      and_then λ g. (record g { kernel = (m.on_ready g.kernel).0 }, none)

  unfoldable pub drain : Fsm S E → Fsm S E × Option E
  unfolding set
  drain f = let g = set state_draining none f in drained (m.on_drain g.kernel) g

  unfoldable pub stop : Fsm S E → Fsm S E × Option E
  unfolding stage
  stop f = stage m.on_stop state_stopped f
