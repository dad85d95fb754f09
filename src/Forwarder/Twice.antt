-- ===== src/Forwarder/Twice.antt =====
-- A kernel whose tee logger and whose forwarder share a bus, as the parts of a domain do.
use rassberry.Base.{ℕ, String, List, none, [], ◌∷◌, ◌≡◌, ◌⊎◌, ◌==◌, if◌then◌else◌}
use rassberry.Base.Maps.{Map}
use rassberry.Contracts.{AnyValue}
use rassberry.Telemetry.Record.{LogRecordV2}
use rassberry.Telemetry.TeeLogger.{TeeLogger, tee_record}
use rassberry.Admin.Stream.{Message, log}
use rassberry.Forwarder.{pump, Taken, taken}

-- What the goroutines of the subscriptions put into the channel, if they take what is published one
-- by one; a message goes to every subscription to its topic.
abbrev to_each : List String → String → Message → List Message → List Message
to_each [] t m waiting = waiting
to_each (u ∷ us) t m waiting = to_each us t m (if u == t then pump m waiting else waiting)

abbrev pub pumped : List String → List (String × LogRecordV2) → List Message → List Message
pumped us [] waiting = waiting
pumped us ((t, rec) ∷ ms) waiting = pumped us ms (to_each us t (log rec) waiting)

-- The goroutine that sends takes them, and no `Send` fails.
abbrev pub taking : {E : Type 0} → List Message → List (Taken E)
taking [] = []
taking (m ∷ ms) = taken m none ∷ taking ms

-- The logger of a domain or of a function.
abbrev pub IsBelow : TeeLogger → Type 0
IsBelow l = (l.scope ≡ "domain") ⊎ (l.scope ≡ "function")

module _ (l : TeeLogger) (level message : String) (fields : Map AnyValue) (now : ℕ) where
  abbrev rec_of : LogRecordV2
  rec_of = tee_record l level message fields now
