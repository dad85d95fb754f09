-- ===== src/Process/Wait.antt =====
-- `WaitReady`: the loop over its timer. Between two rounds the other goroutines of the runner go on,
-- so each round comes with the steps that precede it, and a probe with the steps that others make
-- until it is answered; the context is cancelled by a round of its own.
use rassberry.Base.{
  ℕ, Bool, List, Option, true, false, none, some, [], ◌∷◌, ◌≡◌, ◌==◌, ◌++◌, ◌≤◌, ◌≢◌, ◌&&◌, ◌⊎◌,
  refl, arith, if◌then◌else◌, if_split, inl, inr, ltb, leb, nat_eq,
}
use rassberry.Base.Int.{ℤ, pos, negsuc}
use rassberry.Process.{ProcessRunner, ProcEventType, proc_event, proc_probe_ok, proc_probe_ko, emit}
use rassberry.Process.Address.{steps-address}
use rassberry.Process.Invariant.Reached.{steps-IsWellFormed}
use rassberry.Process.Invariant.{Step, steps, IsWellFormed, tally, tally-emit, emit-IsWellFormed}

-- The answer of the probe: a status code, or the error of `cl.Do`.
pub data Probe (E : Type 0) : Type 0 where
  answered : ℕ → Probe E
  unreachable : E → Probe E

pub data Wake (E : Type 0) : Type 0 where
  done : Wake E
  tick : List (Step E) → Probe E → Wake E

pub data Outcome : Type 0 where
  is_ready_now timed_out still_waiting : Outcome

-- `if timeout <= 0 { timeout = 10 * time.Second }`
abbrev pub effective_timeout : ℤ → ℤ
effective_timeout (pos n) = if nat_eq n 0 then pos 10000000000 else pos n
effective_timeout (negsuc n) = pos 10000000000

abbrev pub is_probe_ok : ProcEventType → Bool
is_probe_ok proc_probe_ok = true
is_probe_ok _ = false

module _ {E : Type 0} where
  abbrev pub healthy : Probe E → Bool
  healthy (answered code) = leb 200 code && ltb code 300
  healthy (unreachable e) = false

  abbrev pub probe_error : Probe E → Option E
  probe_error (answered code) = none
  probe_error (unreachable e) = some e

  abbrev pub probed : Probe E → ProcessRunner E → ProcessRunner E × Outcome
  probed r p =
      if healthy r
      then (emit (proc_event proc_probe_ok (pos 0) none p.health_url) p, is_ready_now)
      else (emit (proc_event proc_probe_ko (pos 0) (probe_error r) p.health_url) p, still_waiting)

  -- One round of the `select`.
  unfoldable pub round : Wake E → ProcessRunner E → ProcessRunner E × Outcome
  round done p = (p, timed_out)
  round (tick ys r) p =
      if p.ready
      then (p, is_ready_now)
      else if p.health_url == ""
      then (p, still_waiting)
      else probed r (steps ys p)

  abbrev pub unless_waiting :
      ProcessRunner E × Outcome → ProcessRunner E × Outcome → ProcessRunner E × Outcome
  unless_waiting (p, still_waiting) r = r
  unless_waiting (p, o) r = (p, o)

  -- `still_waiting` as the result is a loop that has not returned yet.
  unfoldable pub wait_ready :
      List (List (Step E) × Wake E) → ProcessRunner E → ProcessRunner E × Outcome
  unfolding steps round
  wait_ready [] p = (p, still_waiting)
  wait_ready ((xs, w) ∷ ws) p = let r = round w (steps xs p) in unless_waiting r (wait_ready ws r.0)

  -- A round of a probe that was answered with a status of the 2xx class.
  abbrev pub Succeeds : Wake E → Type 0
  Succeeds (tick ys (answered code)) = (200 ≤ code) × (code ≤ 299)
  Succeeds _ = ⊥

  abbrev pub SomeSucceeds : List (List (Step E) × Wake E) → Type 0
  SomeSucceeds [] = ⊥
  SomeSucceeds ((xs, k) ∷ ws) = Succeeds k ⊎ SomeSucceeds ws

  -- What an answer without an error has behind it: the announcement of the process, or one of the
  -- rounds `ws` with a successful probe of the runner's address, reported where a hook is set.
  abbrev pub Answer : List (List (Step E) × Wake E) → ProcessRunner E × Outcome → Type 0
  Answer ws (p, o) =
      IsWellFormed p
      × (o ≡ is_ready_now
          → (p.ready ≡ true)
            ⊎ (((p.health_url == "") ≡ false)
                × SomeSucceeds ws
                × (p.on ≡ true → 1 ≤ tally is_probe_ok p.events)))

  healthy-Succeeds : (ys : List (Step E)) (r : Probe E) → healthy r ≡ true → Succeeds (tick ys r)
  healthy-Succeeds ys (answered code) e = ground arith
  healthy-Succeeds ys (unreachable x) e = cc

  probed-Answer :
      (xs ys : List (Step E)) (ws : List (List (Step E) × Wake E)) (r : Probe E)
      (p : ProcessRunner E)
      → (p.health_url == "") ≡ false
      → IsWellFormed p
      → Answer ((xs, tick ys r) ∷ ws) (probed r p)
  probed-Answer xs ys ws r p u w =
      let ok = proc_event proc_probe_ok (pos 0) none p.health_url in
      let ko = proc_event proc_probe_ko (pos 0) (probe_error r) p.health_url in
      let n = tally-emit is_probe_ok ok p in
      if_split (Answer ((xs, tick ys r) ∷ ws)) (healthy r)
        (λ h. (
          emit-IsWellFormed ok p refl refl refl w,
          λ e. inr (u, inl (healthy-Succeeds ys r h), λ o. ground (arith, n, o)),
        ))
        (λ h. (emit-IsWellFormed ko p refl refl refl w, λ e. cc))

  round-Answer :
      (xs : List (Step E)) (ws : List (List (Step E) × Wake E)) (k : Wake E) (p : ProcessRunner E)
      → IsWellFormed p
      → Answer ((xs, k) ∷ ws) (round k p)
  unfolding round
  round-Answer xs ws done p w = (w, λ e. cc)
  round-Answer xs ws (tick ys r) p w =
      if_split (Answer ((xs, tick ys r) ∷ ws)) p.ready (λ e. (w, λ h. inl e))
        (λ e.
          if_split (Answer ((xs, tick ys r) ∷ ws)) (p.health_url == "") (λ u. (w, λ h. cc))
            (λ u.
              probed-Answer xs ys ws r (steps ys p) (rw (steps-address ys p) u)
                (steps-IsWellFormed ys p w)))

  later-Answer :
      (x : List (Step E) × Wake E) (ws : List (List (Step E) × Wake E))
      (r : ProcessRunner E × Outcome)
      → Answer ws r
      → Answer (x ∷ ws) r
  later-Answer x ws (p, o) (w, f) =
      (w, λ e. elim (f e) [ inl h ↦ inl h | inr (u, s, t) ↦ inr (u, inr s, t) ])

  unless_waiting-Answer :
      (ws : List (List (Step E) × Wake E)) (r s : ProcessRunner E × Outcome)
      → Answer ws r
      → Answer ws s
      → Answer ws (unless_waiting r s)
  unless_waiting-Answer ws (p, still_waiting) s h k = k
  unless_waiting-Answer ws (p, timed_out) s h k = h
  unless_waiting-Answer ws (p, is_ready_now) s h k = h

  unless_waiting-ends :
      (r s : ProcessRunner E × Outcome)
      → s.1 ≢ still_waiting
      → (unless_waiting r s).1 ≢ still_waiting
  unless_waiting-ends (p, still_waiting) s h = h
  unless_waiting-ends (p, timed_out) s h = λ e. cc
  unless_waiting-ends (p, is_ready_now) s h = λ e. cc

  wait_ready-ends :
      (ws vs : List (List (Step E) × Wake E)) (xs : List (Step E)) (p : ProcessRunner E)
      → (wait_ready (ws ++ (xs, done) ∷ vs) p).1 ≢ still_waiting
  unfolding wait_ready round
  wait_ready-ends [] vs xs p = λ e. cc
  wait_ready-ends ((ys, k) ∷ ws) vs xs p =
      unless_waiting-ends (round k (steps ys p)) _
        (wait_ready-ends ws vs xs (round k (steps ys p)).0)

  wait_ready-Answer :
      (ws : List (List (Step E) × Wake E)) (p : ProcessRunner E)
      → IsWellFormed p
      → Answer ws (wait_ready ws p)
  unfolding wait_ready
  wait_ready-Answer [] p w = (w, λ e. cc)
  wait_ready-Answer ((xs, k) ∷ ws) p w =
      let a = round-Answer xs ws k (steps xs p) (steps-IsWellFormed xs p w) in
      unless_waiting-Answer ((xs, k) ∷ ws) (round k (steps xs p)) _ a
        (later-Answer (xs, k) ws _ (wait_ready-Answer ws (round k (steps xs p)).0 a.0))

  -- Whatever the process and its readers do between the rounds and during the probes, `WaitReady` returns at the
  -- latest when its context is done. It keeps the runner well formed, and it answers without an error
  -- only if the process has announced itself, or if the runner has an address and one of the probes was
  -- answered with a status from 200 to 299, which is reported where a hook is set.
  pub wait_ready_sound :
      (ws vs : List (List (Step E) × Wake E)) (xs : List (Step E)) (p : ProcessRunner E)
      → IsWellFormed p
      → ((wait_ready (ws ++ (xs, done) ∷ vs) p).1 ≢ still_waiting)
        × Answer (ws ++ (xs, done) ∷ vs) (wait_ready (ws ++ (xs, done) ∷ vs) p)
  wait_ready_sound ws vs xs p w =
      (wait_ready-ends ws vs xs p, wait_ready-Answer (ws ++ (xs, done) ∷ vs) p w)
