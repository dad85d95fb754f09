-- ===== src/Supervisor/Ending.antt =====
-- Behind `StopAll` each goroutine returns within three of its steps, and `Wait` ends.
use native.Mathlib.Decide.{ℕ_discrete}
use rassberry.Base.{
  ℕ, zero, suc, List, Option, true, some, [], ◌∷◌, ◌+◌, ◌-◌, ◌<◌, ◌≤◌, ◌≡◌, ◌≢◌, refl, ap, ◌∙◌,
  arith, if◌then◌else◌, nat_eq, if_both, ◌&&◌, not, subst,
}
use rassberry.Base.Maps.{Map}
use rassberry.Supervisor.Backoff.{Float}
use rassberry.Supervisor.{
  Place, checking, running, sleeping, gone, RunResult, returned, panicked, Event, Worker,
  Supervisor, Choice, update, halt, halt_all, stop_all, restarts, decide, finish, go_at, go,
  new_supervisor,
}
use rassberry.Supervisor.Acts.{Act, go_act, act, acts}
use rassberry.Supervisor.Permanent.{cancelled-go}
use rassberry.Supervisor.Live.{alive, live}
use rassberry.Supervisor.Waiting.{Counted, acts-Counted, stop_all-Counted}

-- The steps that a goroutine of a cancelled supervisor has left at most.
abbrev rank : Place → ℕ
rank running = 3
rank sleeping = 2
rank checking = 1
rank gone = 0

rank_gone : (p : Place) → rank p ≡ 0 → alive p ≡ 0
rank_gone p h = ground arith

rank-le : (p : Place) → rank p ≤ 3
rank-le p = ground arith

module _ {fl : Float} {E : Type 0} where
  -- A schedule of the goroutines: who takes a step, with what the environment decides.
  abbrev pub turns : List (ℕ × Choice fl E) → List (Act fl E)
  turns [] = []
  turns ((i, c) ∷ l) = go_act i c ∷ turns l

  -- How many steps a schedule gives to one goroutine.
  abbrev pub turns_of : ℕ → List (ℕ × Choice fl E) → ℕ
  turns_of i [] = 0
  turns_of i ((j, c) ∷ l) = (if nat_eq j i then 1 else 0) + turns_of i l

  -- The next number, and every other worker.
  abbrev Others : ℕ → Supervisor fl E → Supervisor fl E → Type 0
  Others i s t = (t.next ≡ s.next) × ((j : ℕ) → i ≢ j → t.heap j ≡ s.heap j)

  decide-Others :
      (i : ℕ) (err : Option E) (rnd : fl.F) (s : Supervisor fl E) → Others i s (decide i err rnd s)
  unfolding decide
  decide-Others i err rnd s =
      if_both (Others i s) (restarts (s.heap i).spec.policy err) (refl, λ j n. ground arith)
        (refl, λ j n. ground arith)

  exit-Others :
      (i : ℕ) (err : Option E) (rnd : fl.F) (w : Worker fl E) (es : List (Event fl E))
      (s : Supervisor fl E)
      → Others i s (decide i err rnd (record s { heap = update s.heap i w; events = es }))
  exit-Others i err rnd w es s =
      let (a, b) = decide-Others i err rnd (record s { heap = update s.heap i w; events = es }) in
      (a, λ j n. b j n ∙ ground arith)

  go-Others : (i : ℕ) (c : Choice fl E) (s : Supervisor fl E) → Others i s (go i c s)
  unfolding go go_at finish
  go-Others i c s = by_place (s.heap i).place
    where
      by_result : (r : RunResult E) → Others i s (finish i (record c { result = r }) s)
      by_result (returned err) = exit-Others i err c.rnd _ _ s
      by_result (panicked x) = exit-Others i (some x) c.rnd _ _ s

      by_place : (p : Place) → Others i s (go_at p i c s)
      by_place checking =
          if_both (Others i s) s.cancelled (refl, λ j n. ground arith) (refl, λ j n. ground arith)
      by_place running = by_result c.result
      by_place sleeping =
          if_both (Others i s) (s.cancelled && not c.timer) (refl, λ j n. ground arith)
            (refl, λ j n. ground arith)
      by_place gone = (refl, λ j n. refl)

  decide-rank :
      (i : ℕ) (err : Option E) (rnd : fl.F) (s : Supervisor fl E)
      → rank ((decide i err rnd s).heap i).place ≤ 2
  unfolding decide
  decide-rank i err rnd s =
      if_both (λ (t : Supervisor fl E). rank (t.heap i).place ≤ 2)
        (restarts (s.heap i).spec.policy err) (ground arith) (ground arith)

  exit-rank :
      (i : ℕ) (err : Option E) (rnd : fl.F) (w : Worker fl E) (es : List (Event fl E))
      (s : Supervisor fl E)
      → rank ((decide i err rnd (record s { heap = update s.heap i w; events = es })).heap i).place
        ≤ 2
  exit-rank i err rnd w es s =
      decide-rank i err rnd (record s { heap = update s.heap i w; events = es })

  go-rank :
      (i : ℕ) (c : Choice fl E) (s : Supervisor fl E)
      → s.cancelled ≡ true
      → rank ((go i c s).heap i).place ≤ rank (s.heap i).place - 1
  unfolding go go_at finish
  go-rank i c s h = by_place (s.heap i).place refl
    where
      by_result : (r : RunResult E) → rank ((finish i (record c { result = r }) s).heap i).place ≤ 2
      by_result (returned err) = exit-rank i err c.rnd _ _ s
      by_result (panicked x) = exit-rank i (some x) c.rnd _ _ s

      by_place :
          (p : Place) → (s.heap i).place ≡ p → rank ((go_at p i c s).heap i).place ≤ rank p - 1
      by_place checking e = rw h (ground arith)
      by_place running e = by_result c.result
      by_place sleeping e =
          if_both (λ (t : Supervisor fl E). rank (t.heap i).place ≤ 1) (s.cancelled && not c.timer)
            (ground arith) (ground arith)
      by_place gone e = let x = ap rank e in omega arith

  pub turns-next :
      (l : List (ℕ × Choice fl E)) (s : Supervisor fl E) → (acts (turns l) s).next ≡ s.next
  unfolding acts act
  turns-next [] s = refl
  turns-next ((j, c) ∷ l) s = turns-next l (go j c s) ∙ (go-Others j c s).0

  turns-rank :
      (l : List (ℕ × Choice fl E)) (i : ℕ) (s : Supervisor fl E)
      → s.cancelled ≡ true
      → (rank ((acts (turns l) s).heap i).place ≤ rank (s.heap i).place - turns_of i l)
        × ((acts (turns l) s).next ≡ s.next)
  unfolding acts act
  turns-rank [] i s h = (omega arith, refl)
  turns-rank ((j, c) ∷ l) i s h =
      let (a, b) = turns-rank l i (go j c s) (cancelled-go j c s ∙ h) in
      let (n, o) = go-Others j c s in
      (
        elim (ℕ_discrete j i) [
          | yes p ↦
              let x : rank ((go j c s).heap i).place ≤ rank (s.heap i).place - 1 =
                subst (λ (k : ℕ). rank ((go j c s).heap k).place ≤ rank (s.heap k).place - 1) p
                  (go-rank j c s h) in
              let y : ◌≡◌ {A = ℕ} (if nat_eq j i then 1 else 0) 1 = ground arith in omega arith
          | no p ↦
              let x = ap (λ (w : Worker fl E). rank w.place) (o i p) in
              let y : ◌≡◌ {A = ℕ} (if nat_eq j i then 1 else 0) 0 = ground arith in omega arith
        ],
        b ∙ n,
      )

  live_gone :
      (f : ℕ → Worker fl E) (n : ℕ) → ((i : ℕ) → i < n → alive (f i).place ≡ 0) → live f n ≡ 0
  live_gone f zero h = refl
  live_gone f (suc n) h = omega (arith, live_gone f n (λ i l. h i (omega arith)), h n (omega arith))

  halt_all_keeps :
      (m : Map ℕ) (s : Supervisor fl E)
      → ((halt_all m s).cancelled ≡ s.cancelled) × ((halt_all m s).next ≡ s.next)
  unfolding halt_all
  halt_all_keeps [] s = (refl, refl)
  halt_all_keeps ((name, i) ∷ m) s =
      let (a, b) = halt_all_keeps m (halt i s) in let (c, d) = halt_keeps in (a ∙ c, b ∙ d)
    where
      halt_keeps : ((halt i s).cancelled ≡ s.cancelled) × ((halt i s).next ≡ s.next)
      halt_keeps =
          if_both (λ (t : Supervisor fl E). (t.cancelled ≡ s.cancelled) × (t.next ≡ s.next))
            (s.heap i).stopped (refl, refl) (refl, refl)

  stop_all_keeps :
      (m : Map ℕ) (s : Supervisor fl E)
      → ((stop_all m s).cancelled ≡ true) × ((stop_all m s).next ≡ s.next)
  unfolding stop_all
  stop_all_keeps m s = halt_all_keeps m (record s { cancelled = true })

  -- Whatever calls were made and however the goroutines were scheduled before, behind a `StopAll`
  -- the counter on which `Wait` waits is zero after every schedule that gives three steps to each
  -- goroutine that was started: a call of a worker's function counts as a step, and has to return.
  pub stop_all-wait :
      (blank : Worker fl E) (l : List (Act fl E)) (order : Map ℕ) (t : List (ℕ × Choice fl E))
      → blank.place ≡ gone
      → let s = acts l (new_supervisor blank) in
        ((i : ℕ) → i < s.next → 3 ≤ turns_of i t) → (acts (turns t) (stop_all order s)).wg ≡ 0
  stop_all-wait blank l order t b h =
      let s = acts l (new_supervisor blank) in
      let q = stop_all order s in
      let c : Counted s =
        acts-Counted l (new_supervisor blank) (record { counted = refl; unused = λ i h. b }) in
      let d = acts-Counted (turns t) q (stop_all-Counted order s c) in
      let (k, m) = stop_all_keeps order s in
      let u = acts (turns t) q in
      d.counted
      ∙ live_gone u.heap u.next λ i n.
        let (r, e) = turns-rank t i q k in
        let g = h i (omega arith) in
        let f = rank-le (q.heap i).place in rank_gone (u.heap i).place (omega arith)
