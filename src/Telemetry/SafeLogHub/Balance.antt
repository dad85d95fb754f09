-- ===== src/Telemetry/SafeLogHub/Balance.antt =====
-- Calls of `Publish` by any number of goroutines, interleaved at the accesses to the shared fields,
-- with the hub's loop and `Close`.
use rassberry.Base.{
  ℕ, zero, suc, String, Bool, List, Option, true, false, none, some, [], ◌∷◌, ◌+◌, ◌≤◌, ◌^◌, ◌%◌,
  ◌≡◌, refl, ap, arith, length, length-append, Bool-cases, Option-cases, if_both, inl, inr, ltb,
}
use rassberry.Base.Int.{pos, add64, less, is_positive}
use rassberry.Telemetry.Record.{LogRecordV2}
use rassberry.Telemetry.SafeLogHub.{
  SafeLogHub, SafeLogHubOption, with_topics, with_scope_topic, with_buffer, with_rate_limit,
  apply_option, apply_options, default_hub, Ready, quit, ticked, received, new_safe_log_hub, enter,
  limit, push, forward, reset, serve, take_first, round_of, loop_step, access_of, LoopAt, selecting,
  forwarding, close,
}

-- The hub, the calls that are counted and not yet past the rate limit, and the calls that are past it.
pub record System : Type 0 where
  pub hub : SafeLogHub
  pub entered : List LogRecordV2
  pub admitted : List LogRecordV2

-- One access: which call goes on is a number in its list.
pub data Step : Type 0 where
  enter_step : LogRecordV2 → Step
  limit_step : ℕ → Step
  push_step : ℕ → Step
  round_step : Ready → Step
  close_step : Step

-- An element of a list, and the others.
unfoldable pub pick {ℓ} : {A : Type ℓ} → ℕ → List A → Option (A × List A)
pick i [] = none
pick zero (a ∷ l) = some (a, l)
pick (suc i) (a ∷ l) = elim (pick i l) [ none ↦ none | some (b, m) ↦ some (b, a ∷ m) ]

abbrev limited : LogRecordV2 → List LogRecordV2 → List LogRecordV2 → SafeLogHub × Bool → System
limited rec rest admitted (h, true) = record { hub = h; entered = rest; admitted = rec ∷ admitted }
limited rec rest admitted (h, false) = record { hub = h; entered = rest; admitted = admitted }

abbrev limit_picked : Option (LogRecordV2 × List LogRecordV2) → System → System
limit_picked none s = s
limit_picked (some (rec, rest)) s = limited rec rest s.admitted (limit s.hub)

abbrev push_picked : Option (LogRecordV2 × List LogRecordV2) → System → System
push_picked none s = s
push_picked (some (rec, rest)) s = record s { hub = (push rec s.hub).0; admitted = rest }

unfoldable pub step : Step → System → System
step (enter_step rec) s = record s { hub = enter s.hub; entered = rec ∷ s.entered }
step (limit_step i) s = limit_picked (pick i s.entered) s
step (push_step i) s = push_picked (pick i s.admitted) s
step (round_step r) s = record s { hub = loop_step r s.hub }
step close_step s = record s { hub = (close s.hub).0 }

unfoldable pub steps : List Step → System → System
steps [] s = s
steps (x ∷ xs) s = steps xs (step x s)

abbrev pub start_system : List SafeLogHubOption → ℕ → System
start_system opts now = record { hub = new_safe_log_hub opts now; entered = []; admitted = [] }

-- The record that the loop has taken and not yet counted as forwarded.
abbrev pub in_hand : LoopAt → ℕ
in_hand selecting = 0
in_hand (forwarding rec ms) = 1

pub record Balanced (s : System) : Type 0 where
  pub accounted :
      (s.hub.forwarded
          + s.hub.dropped_rate
          + s.hub.dropped_queue
          + length s.hub.in_queue
          + in_hand s.hub.loop_at
          + length s.entered
          + length s.admitted)
        % 2 ^ 64
      ≡ s.hub.total
  pub bounded : length s.hub.in_queue ≤ s.hub.buf

pick-length {ℓ} :
    {A : Type ℓ} (i : ℕ) (l : List A) (a : A) (m : List A)
    → pick i l ≡ some (a, m)
    → length l ≡ suc (length m)
unfolding pick
pick-length i [] a m h = cc
pick-length zero (b ∷ l) a m h = ground arith
pick-length (suc i) (b ∷ l) a m h = elim (Option-cases (pick i l)) [
  | inl e ↦ ground arith
  | inr ((c, n), e) ↦ let x = pick-length i l c n e in ground arith
]

limit-Balanced :
    (rec : LogRecordV2) (rest : List LogRecordV2) (s : System)
    → length s.entered ≡ suc (length rest)
    → Balanced s
    → Balanced (limited rec rest s.admitted (limit s.hub))
unfolding limit
limit-Balanced rec rest s h b =
    if_both (λ x. Balanced (limited rec rest s.admitted x)) (is_positive s.hub.rate_max)
      (if_both (λ x. Balanced (limited rec rest s.admitted x))
        (less s.hub.rate_max (add64 s.hub.rate_now (pos 1)))
        (let x = b.accounted in record { accounted = omega arith; bounded = b.bounded })
        (let x = b.accounted in record { accounted = omega arith; bounded = b.bounded }))
      (let x = b.accounted in record { accounted = omega arith; bounded = b.bounded })

push-Balanced :
    (rec : LogRecordV2) (rest : List LogRecordV2) (s : System)
    → length s.admitted ≡ suc (length rest)
    → Balanced s
    → Balanced (record s { hub = (push rec s.hub).0; admitted = rest })
unfolding push
push-Balanced rec rest s h b = elim (Bool-cases (ltb (length s.hub.in_queue) s.hub.buf)) [
  | inl e ↦ rw e (
      let x = b.accounted in
      let y = b.bounded in
      let n = length-append s.hub.in_queue (rec ∷ []) in
      record { accounted = omega arith; bounded = ground arith })
  | inr e ↦ rw e (let x = b.accounted in record { accounted = omega arith; bounded = b.bounded })
]

take_first-Balanced :
    (q : List LogRecordV2) (s : System)
    → s.hub.in_queue ≡ q
    → s.hub.loop_at ≡ selecting
    → Balanced s
    → Balanced (record s { hub = take_first q s.hub })
take_first-Balanced [] s e a b = b
take_first-Balanced (rec ∷ q) s e a b =
    let x = b.accounted in
    let y = b.bounded in
    let n : length s.hub.in_queue ≡ suc (length q) = ap (λ l. length l) e in
    let m : in_hand s.hub.loop_at ≡ 0 = ap in_hand a in
    record { accounted = omega arith; bounded = omega arith }

forward-Balanced :
    (rec : LogRecordV2) (ms : List (String × LogRecordV2)) (s : System)
    → s.hub.loop_at ≡ forwarding rec ms
    → Balanced s
    → Balanced (record s { hub = forward rec ms s.hub })
unfolding forward
forward-Balanced rec [] s a b =
    let x = b.accounted in
    let m : in_hand s.hub.loop_at ≡ 1 = ap in_hand a in
    record { accounted = omega arith; bounded = b.bounded }
forward-Balanced rec (msg ∷ ms) s a b =
    let x = b.accounted in
    let m : in_hand s.hub.loop_at ≡ 1 = ap in_hand a in
    record { accounted = omega arith; bounded = b.bounded }

round-Balanced :
    (r : Ready) (s : System)
    → s.hub.loop_at ≡ selecting
    → Balanced s
    → Balanced (record s { hub = round_of r s.hub })
unfolding reset serve
round-Balanced quit s a b =
    if_both (λ h. Balanced (record s { hub = h })) s.hub.stopped
      (record { accounted = b.accounted; bounded = b.bounded }) b
round-Balanced (ticked now) s a b = record { accounted = b.accounted; bounded = b.bounded }
round-Balanced received s a b = take_first-Balanced s.hub.in_queue s refl a b

access-Balanced :
    (r : Ready) (at : LoopAt) (s : System)
    → s.hub.loop_at ≡ at
    → Balanced s
    → Balanced (record s { hub = access_of r at s.hub })
access-Balanced r selecting s a b = round-Balanced r s a b
access-Balanced r (forwarding rec ms) s a b = forward-Balanced rec ms s a b

step-Balanced : (x : Step) (s : System) → Balanced s → Balanced (step x s)
unfolding step enter loop_step close
step-Balanced (enter_step rec) s b =
    let x = b.accounted in record { accounted = omega arith; bounded = b.bounded }
step-Balanced (limit_step i) s b = elim (Option-cases (pick i s.entered)) [
  | inl e ↦ rw (e, limit_picked) b
  | inr ((rec, rest), e) ↦
      rw (e, limit_picked) (limit-Balanced rec rest s (pick-length i s.entered rec rest e) b)
]
step-Balanced (push_step i) s b = elim (Option-cases (pick i s.admitted)) [
  | inl e ↦ rw (e, push_picked) b
  | inr ((rec, rest), e) ↦
      rw (e, push_picked) (push-Balanced rec rest s (pick-length i s.admitted rec rest e) b)
]
step-Balanced (round_step r) s b =
    if_both (λ h. Balanced (record s { hub = h })) s.hub.running
      (access-Balanced r s.hub.loop_at s refl b) b
step-Balanced close_step s b = record { accounted = b.accounted; bounded = b.bounded }

steps-Balanced : (xs : List Step) (s : System) → Balanced s → Balanced (steps xs s)
unfolding steps
steps-Balanced [] s b = b
steps-Balanced (x ∷ xs) s b = steps-Balanced xs (step x s) (step-Balanced x s b)

-- A hub that has seen no call.
abbrev Unused : SafeLogHub → Type 0
Unused h =
    (h.in_queue ≡ [])
    × (h.total ≡ 0)
    × (h.forwarded ≡ 0)
    × (h.dropped_rate ≡ 0)
    × (h.dropped_queue ≡ 0)
    × (h.loop_at ≡ selecting)

apply_options-Unused :
    (os : List SafeLogHubOption) (h : SafeLogHub) → Unused h → Unused (apply_options os h)
unfolding apply_options apply_option
apply_options-Unused [] h u = u
apply_options-Unused (with_topics topics ∷ os) h u = apply_options-Unused os _ u
apply_options-Unused (with_scope_topic enable ∷ os) h u = apply_options-Unused os _ u
apply_options-Unused (with_buffer size ∷ os) h u =
    apply_options-Unused os _ (if_both Unused (is_positive size) u u)
apply_options-Unused (with_rate_limit n t ∷ os) h u = apply_options-Unused os _ u

Unused-Balanced :
    (h : SafeLogHub) (now : ℕ)
    → Unused h
    → Balanced (record { hub = record h { last_reset = now }; entered = []; admitted = [] })
Unused-Balanced h now u =
    let n : length h.in_queue ≡ 0 = ap (λ l. length l) u.0 in
    let (q, t, f, d, e, a) = u in
    let m : in_hand h.loop_at ≡ 0 = ap in_hand a in
    record { accounted = omega arith; bounded = omega arith }

-- Whatever goroutines call `Publish` and however their accesses, those of the loop (each publish of
-- its own) and `Close` interleave, `total` is, as a 64-bit word, the number of records forwarded,
-- dropped for the rate, dropped for the queue and still queued, of the record that the loop is
-- forwarding, and of the calls under way; the queue is never longer than its capacity.
pub steps-start-Balanced :
    (opts : List SafeLogHubOption) (now : ℕ) (xs : List Step)
    → Balanced (steps xs (start_system opts now))
unfolding new_safe_log_hub
steps-start-Balanced opts now xs = steps-Balanced xs (start_system opts now) (
    Unused-Balanced (apply_options opts default_hub) now
      (apply_options-Unused opts default_hub (refl, refl, refl, refl, refl, refl)))
