-- ===== src/Supervisor/Waiting.antt =====
-- `StopAll` and `Wait`: the wait group counts the goroutines that have not returned, and behind
-- `StopAll` each of them returns within three of its steps.
use rassberry.Base.{
  ℕ, String, List, Option, true, none, some, [], ◌∷◌, ◌+◌, ◌-◌, ◌<◌, ◌≤◌, ◌≡◌, ◌≢◌, ◌==◌, refl, ap,
  ◌∙◌, arith, inl, inr, nat_eq, ltb, Option-cases, Bool-cases, if_both, if_split, ◌&&◌, ◌||◌, not,
}
use rassberry.Base.Int.{pos}
use rassberry.Base.Maps.{Map, lookup}
use rassberry.Supervisor.Backoff.{Float}
use rassberry.Supervisor.{
  Place, checking, running, sleeping, gone, RunResult, returned, panicked, Event, event,
  event_start, event_stop, WorkerSpec, Worker, Supervisor, Choice, update, note, move, new_worker,
  enter, start, halt, halt_found, stop, halt_all, stop_all, restarts, decide, finish, go_at, go,
}
use rassberry.Supervisor.Live.{alive, live, live-update_ge, live-update, live-grow, alive-le-live}
use rassberry.Supervisor.Acts.{Act, start_act, stop_act, stop_all_act, go_act, act, acts}

module _ {fl : Float} {E : Type 0} where
  pub record Counted (s : Supervisor fl E) : Type 0 where
    pub counted : s.wg ≡ live s.heap s.next
    pub unused : (i : ℕ) → s.next ≤ i → (s.heap i).place ≡ gone

  set-Counted :
      (i : ℕ) (v : Worker fl E) (k : ℕ) (es : List (Event fl E)) (m : Map ℕ) (s : Supervisor fl E)
      → i < s.next
      → k + alive (s.heap i).place ≡ s.wg + alive v.place
      → Counted s
      → Counted (record s { wg = k; events = es; workers = m; heap = update s.heap i v })
  set-Counted i v k es m s h e c = record {
    counted = let x = c.counted in omega (arith, live-update s.heap i s.next v h);
    unused = λ j l.
        if_split (λ (w : Worker fl E). w.place ≡ gone) (nat_eq i j) (λ x. absurd (ground arith))
          (λ x. c.unused j l);
  }

  start-Counted :
      (spec : WorkerSpec fl E) (s : Supervisor fl E) → Counted s → Counted (start spec s).0
  unfolding start
  start-Counted spec s c = elim (Bool-cases (not spec.has_fn || spec.name == "")) [
    | inl e ↦ rw e c
    | inr e ↦ rw e (elim (Option-cases (lookup spec.name s.workers)) [
      | inr (i, f) ↦ rw (f, enter) c
      | inl f ↦
          rw (f, enter)
            (record {
              counted =
                  let x = c.counted in
                  omega (arith, live-grow s.heap s.next (new_worker spec) refl);
              unused = λ j l.
                  if_split (λ (w : Worker fl E). w.place ≡ gone) (nat_eq s.next j)
                    (λ x. absurd (ground arith)) (λ x. c.unused j (omega arith));
            })
    ])
  ]

  -- The worker's entry is written again, its place as it was.
  same-Counted :
      (i : ℕ) (v : Worker fl E) (s : Supervisor fl E)
      → v.place ≡ (s.heap i).place
      → Counted s
      → Counted (record s { heap = update s.heap i v })
  same-Counted i v s e c = elim (Bool-cases (ltb i s.next)) [
    | inl l ↦
        set-Counted i v s.wg s.events s.workers s (ground arith) (let x = ap alive e in omega arith)
          c
    | inr l ↦ record {
      counted = let x = c.counted in omega (arith, live-update_ge s.heap i s.next v (ground arith));
      unused = λ j h.
          if_split (λ (w : Worker fl E). w.place ≡ gone) (nat_eq i j)
            (λ x. e ∙ c.unused i (ground arith)) (λ x. c.unused j h);
    }
  ]

  halt-Counted : (i : ℕ) (s : Supervisor fl E) → Counted s → Counted (halt i s)
  halt-Counted i s c =
      if_both Counted (s.heap i).stopped c
        (same-Counted i (record (s.heap i) { stopped = true; cancelled = true }) s refl c)

  stop-Counted : (name : String) (s : Supervisor fl E) → Counted s → Counted (stop name s)
  unfolding stop
  stop-Counted name s c = elim (Option-cases (lookup name s.workers)) [
    | inl e ↦ rw (e, halt_found) c
    | inr (i, e) ↦ rw (e, halt_found) (halt-Counted i s c)
  ]

  halt_all-Counted : (m : Map ℕ) (s : Supervisor fl E) → Counted s → Counted (halt_all m s)
  unfolding halt_all
  halt_all-Counted [] s c = c
  halt_all-Counted ((name, i) ∷ m) s c = halt_all-Counted m (halt i s) (halt-Counted i s c)

  pub stop_all-Counted : (m : Map ℕ) (s : Supervisor fl E) → Counted s → Counted (stop_all m s)
  unfolding stop_all
  stop_all-Counted m s c =
      halt_all-Counted m (record s { cancelled = true })
        (record { counted = c.counted; unused = c.unused })

  move-Counted :
      (i : ℕ) (p : Place) (k : ℕ) (es : List (Event fl E)) (m : Map ℕ) (s : Supervisor fl E)
      → i < s.next
      → k + alive (s.heap i).place ≡ s.wg + alive p
      → Counted s
      → Counted (record (move i p s) { wg = k; events = es; workers = m })
  move-Counted i p k es m s h e c = set-Counted i (record (s.heap i) { place = p }) k es m s h e c

  decide-Counted :
      (i : ℕ) (err : Option E) (rnd : fl.F) (s : Supervisor fl E)
      → i < s.next
      → (s.heap i).place ≡ running
      → Counted s
      → Counted (decide i err rnd s)
  unfolding decide
  decide-Counted i err rnd s h p c =
      let a = ap alive p in
      let b = alive-le-live s.heap i s.next h in
      let x = c.counted in
      if_both Counted (restarts (s.heap i).spec.policy err)
        (set-Counted i (record (s.heap i) { place = sleeping }) s.wg _ s.workers s h (omega arith)
          c)
        (set-Counted i (record (s.heap i) { place = gone }) (s.wg - 1) s.events _ s h (omega arith)
          c)

  exit-Counted :
      (i : ℕ) (err : Option E) (rnd : fl.F) (es : List (Event fl E)) (s : Supervisor fl E)
      → i < s.next
      → (s.heap i).place ≡ running
      → Counted s
      → Counted (
          decide i err rnd (record s {
            heap = update s.heap i (record (s.heap i) { attempts = (s.heap i).attempts + 1 });
            events = es;
          }))
  exit-Counted i err rnd es s h p c =
      let w : Worker fl E = record (s.heap i) { attempts = (s.heap i).attempts + 1 } in
      let d = same-Counted i w s refl c in
      decide-Counted i err rnd (record s { heap = update s.heap i w; events = es }) h
        (if_both (λ (v : Worker fl E). v.place ≡ running) (nat_eq i i) p p)
        (record { counted = d.counted; unused = d.unused })

  go-Counted : (i : ℕ) (c : Choice fl E) (s : Supervisor fl E) → Counted s → Counted (go i c s)
  unfolding go go_at finish
  go-Counted i c s w = by_place (s.heap i).place refl
    where
      here : (s.heap i).place ≢ gone → i < s.next
      here n = elim (Bool-cases (ltb i s.next)) [
        | inl l ↦ ground arith
        | inr l ↦ absurd (n (w.unused i (ground arith)))
      ]

      by_result :
          (r : RunResult E)
          → (s.heap i).place ≡ running
          → Counted (finish i (record c { result = r }) s)
      by_result (returned err) e = exit-Counted i err c.rnd _ s (here (λ q. cc)) e w
      by_result (panicked x) e = exit-Counted i (some x) c.rnd _ s (here (λ q. cc)) e w

      by_place : (p : Place) → (s.heap i).place ≡ p → Counted (go_at p i c s)
      by_place checking e =
          let h = here (λ q. cc) in
          let a = ap alive e in
          let b = alive-le-live s.heap i s.next h in
          let x = w.counted in
          if_both Counted s.cancelled
            (move-Counted i gone (s.wg - 1)
              (note (event (s.heap i) event_stop 0 none (pos 0)) s).events s.workers s h
              (omega arith) w)
            (move-Counted i running s.wg
              (note (event (s.heap i) event_start ((s.heap i).attempts + 1) none (pos 0)) s).events
              s.workers s h (omega arith) w)
      by_place running e = by_result c.result e
      by_place sleeping e =
          let h = here (λ q. cc) in
          let a = ap alive e in
          let b = alive-le-live s.heap i s.next h in
          let x = w.counted in
          if_both Counted (s.cancelled && not c.timer)
            (move-Counted i gone (s.wg - 1) s.events s.workers s h (omega arith) w)
            (move-Counted i checking s.wg s.events s.workers s h (omega arith) w)
      by_place gone e = w

  pub acts-Counted : (l : List (Act fl E)) (s : Supervisor fl E) → Counted s → Counted (acts l s)
  unfolding acts act
  acts-Counted [] s w = w
  acts-Counted (start_act spec ∷ l) s w = acts-Counted l _ (start-Counted spec s w)
  acts-Counted (stop_act name ∷ l) s w = acts-Counted l _ (stop-Counted name s w)
  acts-Counted (stop_all_act m ∷ l) s w = acts-Counted l _ (stop_all-Counted m s w)
  acts-Counted (go_act i c ∷ l) s w = acts-Counted l _ (go-Counted i c s w)
