-- ===== src/Supervisor/Policies.antt =====
-- What the restart policies promise, and how a worker ends.
use rassberry.Base.{
  if_both, if_split, ℕ, String, Bool, List, Option, true, false, none, some, [], ◌∷◌, ◌+◌, ◌-◌, ◌<◌,
  ◌≤◌, ◌≡◌, ◌≢◌, ◌==◌, refl, sym, ap, ◌∙◌, arith, ◌⊎◌, inl, inr, nat_eq, Option-cases, Bool-cases,
  ◌&&◌, ◌||◌, not,
}
use rassberry.Base.Int.{pos}
use rassberry.Base.Maps.{Map, lookup}
use rassberry.Supervisor.Backoff.{Float}
use rassberry.Supervisor.{
  permanent, temporary, Place, checking, running, sleeping, gone, RunResult, returned, panicked,
  Event, WorkerSpec, event, event_start, event_stop, Worker, Supervisor, Choice, update, note, move,
  enter, start, halt, halt_found, stop, halt_all, stop_all, restarts, decide, finish, go_at, go,
  new_supervisor,
}
use rassberry.Supervisor.Acts.{Act, start_act, stop_act, stop_all_act, go_act, act, acts}

module _ {fl : Float} {E : Type 0} where
  -- The promise of a worker's policy; `c` is whether the supervisor is cancelled.
  pub record Obeys (c : Bool) (w : Worker fl E) : Type 0 where
    pub stays : w.spec.policy ≡ permanent → w.place ≡ gone → c ≡ true
    pub once : w.spec.policy ≡ temporary → (w.place ≢ sleeping) × (w.attempts ≤ 1)
    pub fresh :
        w.spec.policy ≡ temporary → (w.place ≡ checking) ⊎ (w.place ≡ running) → w.attempts ≡ 0

  abbrev pub AllObey : Supervisor fl E → Type 0
  AllObey s = (i : ℕ) → i < s.next → Obeys s.cancelled (s.heap i)

  set-AllObey :
      (i : ℕ) (v : Worker fl E) (k : ℕ) (es : List (Event fl E)) (m : Map ℕ) (s : Supervisor fl E)
      → (i < s.next → Obeys s.cancelled v)
      → AllObey s
      → AllObey (record s { wg = k; events = es; workers = m; heap = update s.heap i v })
  set-AllObey i v k es m s o a j h =
      if_split (Obeys s.cancelled) (nat_eq i j) (λ e. o (ground arith)) (λ e. a j h)

  enter-AllObey :
      (spec : WorkerSpec fl E) (s : Supervisor fl E)
      → AllObey s
      → AllObey (enter spec (lookup spec.name s.workers) s).0
  enter-AllObey spec s a = elim (Option-cases (lookup spec.name s.workers)) [
    | inl e ↦
        rw (e, enter)
          λ j h.
            if_split (Obeys s.cancelled) (nat_eq s.next j)
              (λ x. record {
                stays = λ p q. cc;
                once = λ p. ((λ q. cc), omega arith);
                fresh = λ p q. refl;
              })
              (λ x. a j (ground arith))
    | inr (i, e) ↦ rw (e, enter) a
  ]

  start-AllObey :
      (spec : WorkerSpec fl E) (s : Supervisor fl E) → AllObey s → AllObey (start spec s).0
  unfolding start
  start-AllObey spec s a = elim (Bool-cases (not spec.has_fn || spec.name == "")) [
    | inl e ↦ rw e a
    | inr e ↦ rw e (enter-AllObey spec s a)
  ]

  halt-AllObey : (i : ℕ) (s : Supervisor fl E) → AllObey s → AllObey (halt i s)
  halt-AllObey i s a = if_both AllObey (s.heap i).stopped a (
      set-AllObey i (record (s.heap i) { stopped = true; cancelled = true }) s.wg s.events s.workers
        s (λ h. record { stays = (a i h).stays; once = (a i h).once; fresh = (a i h).fresh }) a)

  stop-AllObey : (name : String) (s : Supervisor fl E) → AllObey s → AllObey (stop name s)
  unfolding stop
  stop-AllObey name s a = elim (Option-cases (lookup name s.workers)) [
    | inl e ↦ rw (e, halt_found) a
    | inr (i, e) ↦ rw (e, halt_found) (halt-AllObey i s a)
  ]

  halt_all-AllObey : (order : Map ℕ) (s : Supervisor fl E) → AllObey s → AllObey (halt_all order s)
  unfolding halt_all
  halt_all-AllObey [] s a = a
  halt_all-AllObey ((name, i) ∷ order) s a = halt_all-AllObey order (halt i s) (halt-AllObey i s a)

  stop_all-AllObey : (order : Map ℕ) (s : Supervisor fl E) → AllObey s → AllObey (stop_all order s)
  unfolding stop_all
  stop_all-AllObey order s a =
      halt_all-AllObey order (record s { cancelled = true })
        (λ i h. record { stays = λ p e. refl; once = (a i h).once; fresh = (a i h).fresh })

  -- What follows a run keeps the promise, once the worker's number of attempts does.
  decide-AllObey :
      (i : ℕ) (err : Option E) (rnd : fl.F) (s : Supervisor fl E)
      → (i < s.next → (s.heap i).spec.policy ≡ temporary → (s.heap i).attempts ≤ 1)
      → ((j : ℕ) → j < s.next → nat_eq i j ≡ false → Obeys s.cancelled (s.heap j))
      → AllObey (decide i err rnd s)
  unfolding decide
  decide-AllObey i err rnd s m o =
      if_split AllObey (restarts (s.heap i).spec.policy err)
        (λ e j h.
          if_split (Obeys s.cancelled) (nat_eq i j)
            (λ x. record {
              stays = λ p q. cc;
              once = λ p. let z = sym e ∙ ap (λ q. restarts q err) p in cc;
              fresh = λ p q. let z = sym e ∙ ap (λ q. restarts q err) p in cc;
            })
            (o j h))
        (λ e j h.
          if_split (Obeys s.cancelled) (nat_eq i j)
            (λ x. record {
              stays = λ p q. let z = sym (ap (λ q. restarts q err) p) ∙ e in cc;
              once = λ p. ((λ q. cc), m (ground arith) p);
              fresh = λ p q. elim q [ inl y ↦ cc | inr y ↦ cc ];
            })
            (o j h))

  exit-AllObey :
      (i : ℕ) (err : Option E) (rnd : fl.F) (es : List (Event fl E)) (s : Supervisor fl E)
      → (s.heap i).place ≡ running
      → AllObey s
      → AllObey (
          decide i err rnd (record s {
            heap = update s.heap i (record (s.heap i) { attempts = (s.heap i).attempts + 1 });
            events = es;
          }))
  exit-AllObey i err rnd es s p a =
      decide-AllObey i err rnd
        (record s {
          heap = update s.heap i (record (s.heap i) { attempts = (s.heap i).attempts + 1 });
          events = es;
        })
        (λ h.
          if_split (λ (w : Worker fl E). w.spec.policy ≡ temporary → w.attempts ≤ 1) (nat_eq i i)
            (λ x q. let z = (a i h).fresh q (inr p) in omega arith) (λ x q. ground arith))
        (λ j l n. if_split (Obeys s.cancelled) (nat_eq i j) (λ x. cc) (λ x. a j l))

  finish-AllObey :
      (i : ℕ) (c : Choice fl E) (s : Supervisor fl E)
      → (s.heap i).place ≡ running
      → AllObey s
      → AllObey (finish i c s)
  unfolding finish
  finish-AllObey i c s p a = by_result c.result
    where
      by_result : (r : RunResult E) → AllObey (finish i (record c { result = r }) s)
      by_result (returned err) = exit-AllObey i err c.rnd _ s p a
      by_result (panicked e) = exit-AllObey i (some e) c.rnd _ s p a

  -- A goroutine that moves to another place, its fields as they were.
  move-AllObey :
      (i : ℕ) (q : Place) (k : ℕ) (es : List (Event fl E)) (s : Supervisor fl E)
      → (q ≡ gone → s.cancelled ≡ true)
      → q ≢ sleeping
      → (i < s.next
          → (s.heap i).spec.policy ≡ temporary
          → (q ≡ checking) ⊎ (q ≡ running)
          → (s.heap i).attempts ≡ 0)
      → AllObey s
      → AllObey (record (move i q s) { wg = k; events = es })
  move-AllObey i q k es s g n f a =
      set-AllObey i (record (s.heap i) { place = q }) k es s.workers s
        (λ h. record {
          stays = λ p e. g e;
          once = λ p. (n, ((a i h).once p).1);
          fresh = λ p e. f h p e;
        })
        a

  go-AllObey : (i : ℕ) (c : Choice fl E) (s : Supervisor fl E) → AllObey s → AllObey (go i c s)
  unfolding go go_at
  go-AllObey i c s a = by_place (s.heap i).place refl
    where
      by_place : (p : Place) → (s.heap i).place ≡ p → AllObey (go_at p i c s)
      by_place checking e =
          if_split AllObey s.cancelled
            (λ t.
              move-AllObey i gone (s.wg - 1)
                (note (event (s.heap i) event_stop 0 none (pos 0)) s).events s (λ x. t) (λ x. cc)
                (λ h q x. (a i h).fresh q (inl e)) a)
            (λ t.
              move-AllObey i running s.wg
                (note (event (s.heap i) event_start ((s.heap i).attempts + 1) none (pos 0))
                  s).events
                s (λ x. cc) (λ x. cc) (λ h q x. (a i h).fresh q (inl e)) a)
      by_place running e = finish-AllObey i c s e a
      by_place sleeping e =
          if_split AllObey (s.cancelled && not c.timer)
            (λ t.
              move-AllObey i gone (s.wg - 1) s.events s (λ x. ground arith) (λ x. cc)
                (λ h q x. let z = ((a i h).once q).0 in absurd (z e)) a)
            (λ t.
              move-AllObey i checking s.wg s.events s (λ x. cc) (λ x. cc)
                (λ h q x. let z = ((a i h).once q).0 in absurd (z e)) a)
      by_place gone e = a

  act-AllObey : (x : Act fl E) (s : Supervisor fl E) → AllObey s → AllObey (act x s)
  unfolding act
  act-AllObey (start_act spec) s a = start-AllObey spec s a
  act-AllObey (stop_act name) s a = stop-AllObey name s a
  act-AllObey (stop_all_act order) s a = stop_all-AllObey order s a
  act-AllObey (go_act i c) s a = go-AllObey i c s a

  acts-AllObey : (l : List (Act fl E)) (s : Supervisor fl E) → AllObey s → AllObey (acts l s)
  unfolding acts
  acts-AllObey [] s a = a
  acts-AllObey (x ∷ l) s a = acts-AllObey l (act x s) (act-AllObey x s a)

  -- Whatever calls are made and however the goroutines are scheduled, a `permanent` worker's
  -- goroutine returns only when the whole supervisor is cancelled, and a `temporary` worker never
  -- waits for a restart and runs its function at most once.
  pub policies_obeyed :
      (blank : Worker fl E) (l : List (Act fl E)) → AllObey (acts l (new_supervisor blank))
  policies_obeyed blank l = acts-AllObey l (new_supervisor blank) (λ i h. ground arith)
