-- ===== src/Supervisor/Backoff.antt =====
-- BackoffPolicy of platform/runtime/supervisor_gen.go. A `time.Duration` is an `int64` of nanoseconds.
-- Go's `float64` is a parameter: nothing here depends on how it rounds.
use rassberry.Base.{
  ℕ, zero, suc, Bool, true, false, ◌≡◌, arith, if◌then◌else◌, Bool-cases, inl, inr, ◌-◌,
}
use rassberry.Base.Int.{ℤ, pos, negsuc, ◌≤ℤ◌, less, is_positive, add64}

pub record Float : Type 1 where
  pub F : Type 0
  pub zero_point : F
  pub one : F
  pub two : F
  pub mul : F → F → F
  pub div : F → F → F
  pub sub : F → F → F
  pub lt : F → F → Bool
  pub le : F → F → Bool
  pub of_duration : ℤ → F
  pub to_duration : F → ℤ

abbrev pub millisecond : ℕ
millisecond = 1_000_000

module _ (fl : Float) where
  open fl use {F, zero_point, one, two, mul, sub, lt, le, of_duration, to_duration}

  pub record BackoffPolicy : Type 0 where
    pub min : ℤ
    pub max : ℤ
    pub factor : F
    pub jitter : F

  unfoldable pub with_defaults : BackoffPolicy → BackoffPolicy
  with_defaults b = record {
    min = if is_positive b.min then b.min else pos 100_000_000;
    max = if is_positive b.max then b.max else pos 30_000_000_000;
    factor = if le b.factor zero_point then two else b.factor;
    jitter =
        let j = if lt b.jitter zero_point then zero_point else b.jitter in
        if lt one j then one else j;
  }

  -- `n` rounds of the loop; a negative `n` makes none.
  unfoldable pub pow : F → ℕ → F
  pow a zero = one
  pow a (suc n) = mul (pow a n) a

  abbrev pub at_most : ℤ → ℤ → ℤ
  at_most d m = if less m d then m else d

  abbrev pub at_least : ℤ → ℤ → ℤ
  at_least d m = if less d m then m else d

  -- The branch with jitter, on the delay so far.
  abbrev jittered : BackoffPolicy → ℤ → F → ℤ
  jittered b d rnd =
      let j = mul (sub (mul rnd two) one) b.jitter in
      let delta = to_duration (mul (of_duration d) j) in
      at_most (at_least (add64 d delta) b.min) b.max

  -- `rnd` is the next value of `rnd.Float64()`.
  unfoldable pub duration : BackoffPolicy → ℕ → F → ℤ
  duration policy attempt rnd =
      let b = with_defaults policy in
      let d = at_most (to_duration (mul (of_duration b.min) (pow b.factor (attempt - 1)))) b.max in
      if lt zero_point b.jitter then jittered b d rnd else d

  pub with_defaults_positive :
      (b : BackoffPolicy) → (pos 1 ≤ℤ (with_defaults b).min) × (pos 1 ≤ℤ (with_defaults b).max)
  unfolding with_defaults
  with_defaults_positive b = ground arith

  pub at_most_bounds : (d m : ℤ) → at_most d m ≤ℤ m
  at_most_bounds d m = ground arith

  pub at_least_at_most :
      (d lo hi : ℤ)
      → lo ≤ℤ hi
      → (lo ≤ℤ at_most (at_least d lo) hi) × (at_most (at_least d lo) hi ≤ℤ hi)
  at_least_at_most d lo hi h = ground arith

  jittered_bounds :
      (b : BackoffPolicy) (d : ℤ) (rnd : F)
      → b.min ≤ℤ b.max
      → (b.min ≤ℤ jittered b d rnd) × (jittered b d rnd ≤ℤ b.max)
  jittered_bounds b d rnd h =
      let delta = to_duration (mul (of_duration d) (mul (sub (mul rnd two) one) b.jitter)) in
      at_least_at_most (add64 d delta) b.min b.max h

  negative_at_most : (m : ℤ) (n : ℕ) → pos 1 ≤ℤ m → at_most (negsuc n) m ≡ negsuc n
  negative_at_most m n h = ground arith

  -- However the floating-point numbers round or overflow, a delay is never longer than the
  -- effective maximum.
  pub duration-le-max :
      (b : BackoffPolicy) (attempt : ℕ) (rnd : F) → duration b attempt rnd ≤ℤ (with_defaults b).max
  unfolding duration
  duration-le-max b attempt rnd = elim (Bool-cases (lt zero_point (with_defaults b).jitter)) [
    | inl e ↦ rw e (at_most_bounds _ (with_defaults b).max)
    | inr e ↦ rw e (at_most_bounds _ (with_defaults b).max)
  ]

  -- With jitter, and an effective minimum that is not above the effective maximum, a delay lies
  -- between them and is positive, however the floating-point numbers round or overflow.
  pub duration_in_range :
      (b : BackoffPolicy) (attempt : ℕ) (rnd : F)
      → lt zero_point (with_defaults b).jitter ≡ true
      → (with_defaults b).min ≤ℤ (with_defaults b).max
      → ((with_defaults b).min ≤ℤ duration b attempt rnd)
        × (pos 1 ≤ℤ duration b attempt rnd)
        × (duration b attempt rnd ≤ℤ (with_defaults b).max)
  unfolding duration
  duration_in_range b attempt rnd e h =
      let d : ℤ =
        at_most
          (to_duration
            (mul (of_duration (with_defaults b).min) (pow (with_defaults b).factor (attempt - 1))))
          (with_defaults b).max in
      let l : (with_defaults b).min ≤ℤ jittered (with_defaults b) d rnd =
        (jittered_bounds (with_defaults b) d rnd h).0 in
      let u : jittered (with_defaults b) d rnd ≤ℤ (with_defaults b).max =
        (jittered_bounds (with_defaults b) d rnd h).1 in
      rw e ((l, omega (arith, l, (with_defaults_positive b).0), u))

  -- Without jitter a delay is the rounded power, cut off at the maximum: where the conversion of a
  -- power that is too large gives a negative number, as it may in Go, the delay is negative.
  pub duration_overflow :
      (b : BackoffPolicy) (attempt : ℕ) (rnd : F) (n : ℕ)
      → lt zero_point (with_defaults b).jitter ≡ false
      → to_duration
          (mul (of_duration (with_defaults b).min) (pow (with_defaults b).factor (attempt - 1)))
        ≡ negsuc n
      → duration b attempt rnd ≡ negsuc n
  unfolding duration
  duration_overflow b attempt rnd n e h =
      rw (e, h) (negative_at_most (with_defaults b).max n (with_defaults_positive b).1)
