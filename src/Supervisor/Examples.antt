-- ===== src/Supervisor/Examples.antt =====
-- A supervisor with one worker, and a delay in a coarse arithmetic.
use rassberry.Base.{
  zero, suc, ◌<◌, ◌≤◌, ℕ, String, List, true, false, some, [], ◌∷◌, ◌≡◌, refl, arith, ltb, leb, ◌*◌,
  ◌-◌, ◌^◌, if◌then◌else◌,
}
use rassberry.Base.Int.{pos, negsuc, ◌≤ℤ◌, pos_part}
use rassberry.Base.Maps.{lookup, insert}
use rassberry.Supervisor.Backoff.{Float, BackoffPolicy, with_defaults, duration, duration_in_range}
use rassberry.Supervisor.{
  permanent, temporary, gone, returned, WorkerSpec, Worker, Choice, new_supervisor, start, stop,
  stop_all, go, go_at, finish, decide,
}
use rassberry.Supervisor.Acts.{Act, start_act, stop_act, go_act, act, acts, IsLive}
use rassberry.Supervisor.Ending.{turns, turns_of, stop_all-wait}
use rassberry.Supervisor.Policies.{AllObey, policies_obeyed}
use rassberry.Supervisor.Permanent.{spared, permanent_outlives_stop}

-- Whole numbers from 0 on, whose conversion is out of range from 2 ^ 63 on.
abbrev whole : Float
whole = record {
  F = ℕ;
  zero_point = 0;
  one = 1;
  two = 2;
  mul = λ a b. a * b;
  div = λ a b. a;
  sub = λ a b. a - b;
  lt = ltb;
  le = leb;
  of_duration = pos_part;
  to_duration = λ x. if ltb x (2 ^ 63) then pos x else negsuc (2 ^ 63 - 1);
}

abbrev plain : BackoffPolicy whole
plain = record { min = pos 0; max = pos 0; factor = 0; jitter = 0 }

abbrev random : BackoffPolicy whole
random = record plain { jitter = 1 }

duration_in_range_example :
    ((with_defaults whole random).min ≤ℤ duration whole random 3 0)
    × (pos 1 ≤ℤ duration whole random 3 0)
    × (duration whole random 3 0 ≤ℤ (with_defaults whole random).max)
unfolding with_defaults
duration_in_range_example = duration_in_range whole random 3 0 refl (omega arith)

abbrev ever : WorkerSpec whole String
ever = record { name = "ever"; policy = permanent; backoff = plain; has_fn = true }

abbrev blank : Worker whole String
blank = record { spec = ever; cancelled = false; attempts = 0; stopped = false; place = gone }

abbrev fails : Choice whole String
fails = record { result = returned (some "no"); rnd = 0; timer = true }

abbrev some_acts : List (Act whole String)
some_acts =
    start_act ever
    ∷ go_act 0 fails
    ∷ stop_act "ever"
    ∷ go_act 0 fails
    ∷ go_act 0 fails
    ∷ start_act (record ever { name = "other"; policy = temporary })
    ∷ []

policies_obeyed_example : AllObey (acts some_acts (new_supervisor blank))
policies_obeyed_example = policies_obeyed blank some_acts

permanent_outlives_stop_example : IsLive (acts some_acts (new_supervisor blank)) 0
unfolding acts act start lookup insert stop go go_at finish decide spared
permanent_outlives_stop_example = permanent_outlives_stop blank some_acts 0 refl (ground arith) refl

-- Three steps for each of the two workers.
abbrev schedule : List (ℕ × Choice whole String)
schedule = (0, fails) ∷ (1, fails) ∷ (1, fails) ∷ (0, fails) ∷ (0, fails) ∷ (1, fails) ∷ []

schedule_serves :
    (i : ℕ) → i < (acts some_acts (new_supervisor blank)).next → 3 ≤ turns_of i schedule
unfolding acts act start lookup insert stop go go_at finish decide
schedule_serves zero h = omega arith
schedule_serves (suc zero) h = omega arith
schedule_serves (suc (suc i)) h = absurd (omega arith)

stop_all-wait_example :
    (acts (turns schedule) (stop_all [] (acts some_acts (new_supervisor blank)))).wg ≡ 0
stop_all-wait_example = stop_all-wait blank some_acts [] schedule refl schedule_serves
