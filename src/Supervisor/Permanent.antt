-- ===== src/Supervisor/Permanent.antt =====
-- What `Stop` does to a worker that is restarted after every run.
use rassberry.Base.{
  if_both, ℕ, String, Bool, List, Option, true, false, some, [], ◌∷◌, ◌<◌, ◌≡◌, ◌==◌, refl, inl,
  inr, sym, ◌+◌, ◌∙◌, Option-cases, Bool-cases, ◌&&◌, ◌||◌, not,
}
use rassberry.Base.Maps.{lookup}
use rassberry.Supervisor.Backoff.{Float}
use rassberry.Supervisor.{
  permanent, Place, checking, running, sleeping, gone, RunResult, returned, panicked, WorkerSpec,
  Worker, Supervisor, Choice, Event, update, enter, start, halt_found, stop, restarts, decide,
  finish, go_at, go, new_supervisor,
}
use rassberry.Supervisor.Acts.{Act, start_act, stop_act, stop_all_act, go_act, act, acts, IsLive}
use rassberry.Supervisor.Policies.{policies_obeyed}

module _ {fl : Float} {E : Type 0} where
  -- Whether no call of `StopAll` is among them.
  unfoldable pub spared : List (Act fl E) → Bool
  spared [] = true
  spared (stop_all_act order ∷ l) = false
  spared (start_act spec ∷ l) = spared l
  spared (stop_act name ∷ l) = spared l
  spared (go_act i c ∷ l) = spared l

  cancelled-start :
      (spec : WorkerSpec fl E) (s : Supervisor fl E) → (start spec s).0.cancelled ≡ s.cancelled
  unfolding start
  cancelled-start spec s = elim (Bool-cases (not spec.has_fn || spec.name == "")) [
    | inl e ↦ rw e refl
    | inr e ↦ rw e (elim (Option-cases (lookup spec.name s.workers)) [
      | inl f ↦ rw (f, enter) refl
      | inr (i, f) ↦ rw (f, enter) refl
    ])
  ]

  cancelled-stop : (name : String) (s : Supervisor fl E) → (stop name s).cancelled ≡ s.cancelled
  unfolding stop
  cancelled-stop name s = elim (Option-cases (lookup name s.workers)) [
    | inl e ↦ rw (e, halt_found) refl
    | inr (i, e) ↦
        rw (e, halt_found)
          (if_both (λ (t : Supervisor fl E). t.cancelled ≡ s.cancelled) (s.heap i).stopped refl
            refl)
  ]

  cancelled-decide :
      (i : ℕ) (err : Option E) (rnd : fl.F) (s : Supervisor fl E)
      → (decide i err rnd s).cancelled ≡ s.cancelled
  unfolding decide
  cancelled-decide i err rnd s =
      if_both (λ (t : Supervisor fl E). t.cancelled ≡ s.cancelled)
        (restarts (s.heap i).spec.policy err) refl refl

  cancelled-exit :
      (i : ℕ) (err : Option E) (rnd : fl.F) (es : List (Event fl E)) (s : Supervisor fl E)
      → (decide i err rnd (record s {
        heap = update s.heap i (record (s.heap i) { attempts = (s.heap i).attempts + 1 });
        events = es;
      })).cancelled
        ≡ s.cancelled
  cancelled-exit i err rnd es s = cancelled-decide i err rnd (record s {
    heap = update s.heap i (record (s.heap i) { attempts = (s.heap i).attempts + 1 });
    events = es;
  })

  pub cancelled-go :
      (i : ℕ) (c : Choice fl E) (s : Supervisor fl E) → (go i c s).cancelled ≡ s.cancelled
  unfolding go go_at finish
  cancelled-go i c s = by_place (s.heap i).place
    where
      by_result : (r : RunResult E) → (finish i (record c { result = r }) s).cancelled ≡ s.cancelled
      by_result (returned err) = cancelled-exit i err c.rnd _ s
      by_result (panicked e) = cancelled-exit i (some e) c.rnd _ s

      by_place : (p : Place) → (go_at p i c s).cancelled ≡ s.cancelled
      by_place checking =
          if_both (λ (t : Supervisor fl E). t.cancelled ≡ s.cancelled) s.cancelled refl refl
      by_place running = by_result c.result
      by_place sleeping =
          if_both (λ (t : Supervisor fl E). t.cancelled ≡ s.cancelled) (s.cancelled && not c.timer)
            refl refl
      by_place gone = refl

  pub cancelled-acts :
      (l : List (Act fl E)) (s : Supervisor fl E)
      → spared l ≡ true
      → (acts l s).cancelled ≡ s.cancelled
  unfolding acts act spared
  cancelled-acts [] s n = refl
  cancelled-acts (start_act spec ∷ l) s n =
      cancelled-acts l (start spec s).0 n ∙ cancelled-start spec s
  cancelled-acts (stop_act name ∷ l) s n = cancelled-acts l (stop name s) n ∙ cancelled-stop name s
  cancelled-acts (stop_all_act order ∷ l) s n = cc
  cancelled-acts (go_act i c ∷ l) s n = cancelled-acts l (go i c s) n ∙ cancelled-go i c s

  -- As long as `StopAll` is not called, the goroutine of a `permanent` worker that was ever started
  -- does not return, whatever else happens: not when `Stop` is called with its name either.
  pub permanent_outlives_stop :
      (blank : Worker fl E) (l : List (Act fl E)) (i : ℕ)
      → spared l ≡ true
      → i < (acts l (new_supervisor blank)).next
      → ((acts l (new_supervisor blank)).heap i).spec.policy ≡ permanent
      → IsLive (acts l (new_supervisor blank)) i
  permanent_outlives_stop blank l i n h p = (
    h,
    λ g.
        let x = (policies_obeyed blank l i h).stays p g in
        let y = cancelled-acts l (new_supervisor blank) n in let z = sym x ∙ y in cc,
  )
