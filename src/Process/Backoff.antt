-- ===== src/Process/Backoff.antt =====
-- The second `BackoffPolicy` of the package, in platform/runtime/process_runner_gen.go: the defaults
-- are those of the first; the power is multiplied up from `Min`, and the jitter comes from the clock.
use rassberry.Base.{ℕ, zero, suc, true, ◌≡◌, ◌-◌, ◌%◌, if◌then◌else◌, Bool-cases, inl, inr, leb}
use rassberry.Base.Int.{ℤ, pos, negsuc, ◌≤ℤ◌, add64}
use rassberry.Supervisor.Backoff.{
  Float, BackoffPolicy, with_defaults, at_most, at_least, at_most_bounds, at_least_at_most,
}

-- `int64(n%2000) - 1000` for a clock that shows no negative time.
abbrev pub spread : ℕ → ℤ
spread n = let r = n % 2000 in if leb 1000 r then pos (r - 1000) else negsuc (1000 - r - 1)

module _ (fl : Float) where
  open fl use {F, zero_point, mul, div, lt, of_duration, to_duration}

  -- `n` rounds of the loop from `exp`.
  unfoldable pub grow : F → F → ℕ → F
  grow exp factor zero = exp
  grow exp factor (suc n) = grow (mul exp factor) factor n

  abbrev jittered_by : BackoffPolicy fl → ℤ → ℕ → ℤ
  jittered_by b d n =
      let j = div (of_duration (spread n)) (of_duration (pos 1000)) in
      let delta = to_duration (mul (mul (of_duration d) j) b.jitter) in
      at_most fl (at_least fl (add64 d delta) b.min) b.max

  -- `now` is the reading of the clock in nanoseconds.
  unfoldable pub duration : BackoffPolicy fl → ℕ → ℕ → ℤ
  duration policy attempt now =
      let b = with_defaults fl policy in
      let d = at_most fl (to_duration (grow (of_duration b.min) b.factor (attempt - 1))) b.max in
      if lt zero_point b.jitter then jittered_by b d now else d

  jittered_by_bounds :
      (b : BackoffPolicy fl) (d : ℤ) (n : ℕ) → b.min ≤ℤ b.max → b.min ≤ℤ jittered_by b d n
  jittered_by_bounds b d n h =
      let delta = to_duration (
        mul (mul (of_duration d) (div (of_duration (spread n)) (of_duration (pos 1000))))
          b.jitter) in
      (at_least_at_most fl (add64 d delta) b.min b.max h).0

  abbrev base_delay : BackoffPolicy fl → ℕ → ℤ
  base_delay b attempt =
      at_most fl (to_duration (grow (of_duration b.min) b.factor (attempt - 1))) b.max

  -- Whatever the clock shows and however the numbers round, the delay is at most the effective
  -- maximum; with jitter, and an effective minimum not above the maximum, it is at least the minimum.
  pub duration_bounds :
      (b : BackoffPolicy fl) (attempt now : ℕ)
      → (duration b attempt now ≤ℤ (with_defaults fl b).max)
        × (lt zero_point (with_defaults fl b).jitter ≡ true
            → (with_defaults fl b).min ≤ℤ (with_defaults fl b).max
            → (with_defaults fl b).min ≤ℤ duration b attempt now)
  unfolding duration
  duration_bounds b attempt now = elim (Bool-cases (lt zero_point (with_defaults fl b).jitter)) [
    | inl e ↦ rw e (
        (
          at_most_bounds fl _ (with_defaults fl b).max,
          λ t h.
              jittered_by_bounds (with_defaults fl b) (base_delay (with_defaults fl b) attempt) now
                h,
        ))
    | inr e ↦ rw e ((at_most_bounds fl _ (with_defaults fl b).max, λ t h. cc))
  ]
