-- ===== src/Forwarder/Reconnect.antt =====
-- Dials that fail, one after the other, and the stream behind them.
use rassberry.Base.{
  ℕ, suc, List, none, [], ◌∷◌, ◌++◌, ◌≡◌, append_nil, refl, ap, sym, subst, All, Bool-cases, inl,
  inr, if◌then◌else◌,
}
use rassberry.Base.Int.{ℤ, ◌≤ℤ◌}
use rassberry.Telemetry.Record.{LogRecordV2}
use rassberry.Admin.Stream.{log, other}
use rassberry.Supervisor.Backoff.{Float, BackoffPolicy, with_defaults}
use rassberry.Process.Backoff.{duration, duration_bounds}
use rassberry.Forwarder.{
  is_forwarded, Taken, done, taken, sending, Pause, slept, saw_sender, Attempt, dial_failed,
  streamed, running, send_loop, run_from,
}
use rassberry.Forwarder.Once.{records_in}

-- The records that are not of the root.
abbrev pub eligible : List LogRecordV2 → List LogRecordV2
eligible [] = []
eligible (rec ∷ recs) = let rest = eligible recs in if is_forwarded rec then rec ∷ rest else rest

module _ {E : Type 0} where
  abbrev pub dials : List (E × ℕ) → List (Attempt E)
  dials [] = []
  dials ((e, now) ∷ ds) = dial_failed e now slept ∷ dials ds

  -- The goroutine takes a message, and no `Send` fails.
  abbrev pub Sends : Taken E → Type 0
  Sends done = ⊥
  Sends (taken m answer) = answer ≡ none

  send_loop-eligible :
      (ts : List (Taken E)) → All Sends ts → send_loop ts ≡ (eligible (records_in ts), sending)
  unfolding send_loop
  send_loop-eligible [] h = refl
  send_loop-eligible (done ∷ ts) h = absurd h.0
  send_loop-eligible (taken other answer ∷ ts) h = send_loop-eligible ts h.1
  send_loop-eligible (taken (log rec) answer ∷ ts) h = elim (Bool-cases (is_forwarded rec)) [
    | inl e ↦ rw (e, h.0, send_loop-eligible ts h.1) refl
    | inr e ↦ rw (e, send_loop-eligible ts h.1) refl
  ]

  module _ (fl : Float) (b : BackoffPolicy fl) where
    -- The delays behind `n` failed dials.
    abbrev pub delays : ℕ → List (E × ℕ) → List ℤ
    delays n [] = []
    delays n ((e, now) ∷ ds) = duration fl b (suc n) now ∷ delays (suc n) ds

    delays-max :
        (n : ℕ) (ds : List (E × ℕ)) → All (λ d. d ≤ℤ (with_defaults fl b).max) (delays n ds)
    delays-max n [] = tt
    delays-max n ((e, now) ∷ ds) = ((duration_bounds fl b (suc n) now).0, delays-max (suc n) ds)

    dials-run :
        (n now : ℕ) (ds : List (E × ℕ)) (ts : List (Taken E)) (p : Pause)
        → All Sends ts
        → let r = run_from fl b n (dials ds ++ streamed ts saw_sender now p ∷ []) in
          (r.sent ≡ eligible (records_in ts)) × (r.sleeps ≡ delays n ds) × (r.ending ≡ running)
    unfolding run_from
    dials-run n now [] ts p h =
        rw (send_loop-eligible ts h) (append_nil (eligible (records_in ts)), refl, refl)
    dials-run n now ((e, t) ∷ ds) ts p h =
        let (x, y, z) = dials-run (suc n) now ds ts p h in
        (x, ap (λ l. duration fl b (suc n) t ∷ l) y, z)

    -- However many dials fail in a row, if the sleeps between them are not cancelled and no `Send` on
    -- the stream behind them fails, then every record that is taken and is not of the root is sent,
    -- once and in order; the k-th failed dial is followed by the k-th delay of the policy, and no
    -- delay is above the policy's effective maximum.
    pub run_from-reconnects :
        (now : ℕ) (ds : List (E × ℕ)) (ts : List (Taken E)) (p : Pause)
        → All Sends ts
        → let r = run_from fl b 0 (dials ds ++ streamed ts saw_sender now p ∷ []) in
          (r.sent ≡ eligible (records_in ts))
          × (r.sleeps ≡ delays 0 ds)
          × All (λ d. d ≤ℤ (with_defaults fl b).max) r.sleeps
    run_from-reconnects now ds ts p h =
        let (x, y, z) = dials-run 0 now ds ts p h in
        (x, y, subst (All (λ d. d ≤ℤ (with_defaults fl b).max)) (sym y) (delays-max 0 ds))
