-- ===== src/Lifecycle/Trail.antt =====
-- Any sequence of `Run`, `Drain` and `Stop` on one automaton: what its transition hook sees, and how
-- a result and a state go together.
use rassberry.Base.{List, Option, true, none, some, [], ◌∷◌, ◌++◌, ◌≡◌, refl, sym, arith, ◌⊎◌}
use rassberry.Contracts.{
  LifecycleState, state_load, state_init, state_configure, state_start, state_ready, state_failed,
  state_draining, state_stopped,
}
use rassberry.Lifecycle.{
  KernelModule, Transition, Fsm, new_fsm, set, settle, stage, run, drain, drained, stop, ◌and_then◌,
}

pub data Call (H C : Type 0) : Type 0 where
  run_call : H → C → Call H C
  drain_call : Call H C
  stop_call : Call H C

module _ {S H C E : Type 0} (m : KernelModule S H C E) where
  unfoldable pub call : Call H C → Fsm S E → Fsm S E × Option E
  call (run_call host cfg) f = run m host cfg f
  call drain_call f = drain m f
  call stop_call f = stop m f

  unfoldable pub calls : List (Call H C) → Fsm S E → Fsm S E
  calls [] f = f
  calls (c ∷ cs) f = calls cs (call c f).0

module _ {E : Type 0} where
  -- The transitions lead from one state to another without a gap.
  abbrev pub Links : LifecycleState → List (Transition E) → LifecycleState → Type 0
  Links a [] b = a ≡ b
  Links a (t ∷ ts) b = (t.from ≡ a) × Links t.to ts b

  Links-snoc :
      (a b c : LifecycleState) (ts : List (Transition E)) (err : Option E)
      → Links a ts b
      → Links a (ts ++ record { from = b; to = c; err = err } ∷ []) c
  Links-snoc a b c [] err h = (sym h, refl)
  Links-snoc a b c (t ∷ ts) err h = (h.0, Links-snoc t.to b c ts err h.1)

module _ {S E : Type 0} where
  -- The hook is set, and has seen the way from `a` to the present state.
  abbrev Tracked : LifecycleState → Fsm S E → Type 0
  Tracked a f = (f.on ≡ true) × Links a f.seen f.state

  set-Tracked :
      (a to : LifecycleState) (err : Option E) (f : Fsm S E)
      → Tracked a f
      → Tracked a (set to err f)
  unfolding set
  set-Tracked a to err f h = (h.0, rw h.0 (Links-snoc a f.state to f.seen err h.1))

  stage-Tracked :
      (a to : LifecycleState) (hook : S → S × Option E) (f : Fsm S E)
      → Tracked a f
      → Tracked a (stage hook to f).0
  unfolding stage
  stage-Tracked a to hook f h = by_result (hook f.kernel)
    where
      by_result : (r : S × Option E) → Tracked a (settle to r f).0
      by_result (k, none) = set-Tracked a to none (record f { kernel = k }) h
      by_result (k, some e) = set-Tracked a state_failed (some e) (record f { kernel = k }) h

  and_then-Tracked :
      (a : LifecycleState) (r : Fsm S E × Option E) (rest : Fsm S E → Fsm S E × Option E)
      → Tracked a r.0
      → ((f : Fsm S E) → Tracked a f → Tracked a (rest f).0)
      → Tracked a (r and_then rest).0
  and_then-Tracked a (f, none) rest h k = k f h
  and_then-Tracked a (f, some e) rest h k = h

module _ {S H C E : Type 0} (m : KernelModule S H C E) where
  run-Tracked :
      (a : LifecycleState) (host : H) (cfg : C) (f : Fsm S E)
      → Tracked a f
      → Tracked a (run m host cfg f).0
  unfolding run
  run-Tracked a host cfg f h =
      let r₁ : Fsm S E × Option E = stage (m.on_load host) state_init f in
      let r₂ : Fsm S E × Option E = r₁ and_then stage m.on_init state_configure in
      let r₃ : Fsm S E × Option E = r₂ and_then stage (m.on_configure cfg) state_start in
      let r₄ : Fsm S E × Option E = r₃ and_then stage m.on_start state_ready in
      let h₁ : Tracked a r₁.0 = stage-Tracked a state_init (m.on_load host) f h in
      let h₂ : Tracked a r₂.0 =
        and_then-Tracked a r₁ (stage m.on_init state_configure) h₁
          (stage-Tracked a state_configure m.on_init) in
      let h₃ : Tracked a r₃.0 =
        and_then-Tracked a r₂ (stage (m.on_configure cfg) state_start) h₂
          (stage-Tracked a state_start (m.on_configure cfg)) in
      let h₄ : Tracked a r₄.0 =
        and_then-Tracked a r₃ (stage m.on_start state_ready) h₃
          (stage-Tracked a state_ready m.on_start) in
      and_then-Tracked a r₄ (λ g. (record g { kernel = (m.on_ready g.kernel).0 }, none)) h₄
        (λ g k. k)

  call-Tracked :
      (a : LifecycleState) (c : Call H C) (f : Fsm S E) → Tracked a f → Tracked a (call m c f).0
  unfolding call drain stop
  call-Tracked a (run_call host cfg) f h = run-Tracked a host cfg f h
  call-Tracked a stop_call f h = stage-Tracked a state_stopped m.on_stop f h
  call-Tracked a drain_call f h = by_result (m.on_drain g.kernel)
    where
      g : Fsm S E
      g = set state_draining none f

      by_result : (r : S × Option E) → Tracked a (drained r g).0
      by_result (k, none) = set-Tracked a state_draining none f h
      by_result (k, some e) =
          set-Tracked a state_failed (some e) (record g { kernel = k })
            (set-Tracked a state_draining none f h)

  calls-Tracked :
      (a : LifecycleState) (cs : List (Call H C)) (f : Fsm S E)
      → Tracked a f
      → Tracked a (calls m cs f)
  unfolding calls
  calls-Tracked a [] f h = h
  calls-Tracked a (c ∷ cs) f h = calls-Tracked a cs (call m c f).0 (call-Tracked a c f h)

  -- Whatever is called on a new automaton and whatever the kernel's hooks answer, the transitions
  -- that the hook has seen lead from `load` to the present state, each from where the last one led.
  pub calls-Links :
      (s : S) (cs : List (Call H C))
      → Links state_load (calls m cs (new_fsm s true)).seen (calls m cs (new_fsm s true)).state
  unfolding new_fsm
  calls-Links s cs = (calls-Tracked state_load cs (new_fsm s true) (refl, refl)).1

  -- The state in which a call without an error ends.
  abbrev pub goal : Call H C → LifecycleState
  goal (run_call host cfg) = state_ready
  goal drain_call = state_draining
  goal stop_call = state_stopped

  -- From every state, a call returns no error and leaves the automaton in the state that it is for,
  -- or it returns an error and leaves the automaton `failed`.
  pub call-outcome :
      (c : Call H C) (f : Fsm S E)
      → (((call m c f).1 ≡ none) × ((call m c f).0.state ≡ goal c))
        ⊎ ((e : E) × ((call m c f).1 ≡ some e) × ((call m c f).0.state ≡ state_failed))
  unfolding call run drain stop
  call-outcome (run_call host cfg) f = ground arith
  call-outcome drain_call f = ground arith
  call-outcome stop_call f = ground arith
