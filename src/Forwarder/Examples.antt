-- ===== src/Forwarder/Examples.antt =====
-- Two dials that fail, and a stream that takes a record of the root and one of a domain.
use rassberry.Base.{ℕ, String, List, true, none, some, [], ◌∷◌, ◌++◌, ◌≡◌, refl, All}
use mathlib.Core.List.{Sublistᴰ}
use rassberry.Base.Int.{pos, ◌≤ℤ◌}
use rassberry.Telemetry.Record.{LogRecordV2}
use rassberry.Telemetry.Wire.{blank_record}
use rassberry.Admin.Stream.{log, other}
use rassberry.Supervisor.Backoff.{BackoffPolicy, with_defaults}
use rassberry.Forwarder.Whole.{whole}
use rassberry.Forwarder.{
  Taken, taken, slept, saw_sender, saw_context, Attempt, open_failed, streamed, run_from, new,
  apply_option, with_topics,
}
use rassberry.Telemetry.TeeLogger.{TeeLogger}
use rassberry.Forwarder.Once.{Eligible, offered, records_in, run_from-sent}
use rassberry.Forwarder.Reconnect.{dials, delays, eligible, run_from-reconnects}

abbrev plain : BackoffPolicy whole
plain = record { min = pos 200_000_000; max = pos 10_000_000_000; factor = 2; jitter = 0 }

abbrev from_root : LogRecordV2
from_root = record (blank_record 1) { scope = "root" }

abbrev from_domain : LogRecordV2
from_domain = record (blank_record 2) { scope = "domain"; kernel_id = "site" }

abbrev stream : List (Taken String)
stream = taken (log from_root) none ∷ taken other none ∷ taken (log from_domain) none ∷ []

abbrev failed_dials : List (String × ℕ)
failed_dials = ("refused", 7) ∷ ("refused", 8) ∷ []

run_from-reconnects_example :
    let r =
      run_from whole plain 0 (dials failed_dials ++ streamed stream saw_sender 9 slept ∷ []) in
    (r.sent ≡ eligible (records_in stream))
    × (r.sleeps ≡ delays whole plain 0 failed_dials)
    × All (λ d. d ≤ℤ (with_defaults whole plain).max) r.sleeps
run_from-reconnects_example =
    run_from-reconnects whole plain 9 failed_dials stream slept (refl, (refl, (refl, tt)))

abbrev broken : List (Attempt String)
broken =
    open_failed "no" 3 slept
    ∷ streamed (taken (log from_domain) (some "gone") ∷ []) saw_sender 4 slept
    ∷ streamed stream saw_context 5 slept
    ∷ []

run_from-sent_example :
    Eligible (run_from whole plain 0 broken).sent
    × Sublistᴰ (run_from whole plain 0 broken).sent (offered broken)
run_from-sent_example = run_from-sent whole plain 0 broken

keeps_topics :
    (new whole 0 "h" true (with_topics [] ∷ [])).topics ≡ (new whole 0 "h" true []).topics
unfolding new apply_option
keeps_topics = refl

abbrev logger : TeeLogger
logger = record { on = true; kernel_id = "site"; scope = "domain"; component = "http" }
