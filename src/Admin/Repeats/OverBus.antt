-- ===== src/Admin/Repeats/OverBus.antt =====
-- The same record through the bus of cmd/rk/event_bus_gen.go, with its channels of a fixed capacity,
-- into the channels of one stream.
use rassberry.Base.{ℕ, String, List, Option, [], ◌∷◌, ◌++◌, ◌≡◌, length, map, All}
use rassberry.Telemetry.Record.{LogRecordV2}
use rassberry.Telemetry.Filter.{LogFilter}
use rassberry.Bus.{InMemoryEventBus, Moment}
use rassberry.Bus.Calls.{Call, publish_call}
use rassberry.Bus.Queue.{IsListed}
use rassberry.Admin.Stream.{Message, log, Wake, arrived, rounds}

-- The calls of `Publish` of the hub.
abbrev pub publish_calls : (ℕ → Moment) → List (String × LogRecordV2) → List (Call Message)
publish_calls when [] = []
publish_calls when ((t, rec) ∷ ms) = publish_call when t (log rec) ∷ publish_calls when ms

-- What waits in the channels of the stream, each with its topic.
abbrev pub waiting : List (String × ℕ) → InMemoryEventBus Message → List Wake
waiting [] b = []
waiting ((t, i) ∷ subs) b = map arrived (b.heap i).ch ++ waiting subs b

-- The stream is subscribed, and has received everything so far.
abbrev pub AreFresh : InMemoryEventBus Message → List (String × ℕ) → Type 0
AreFresh b = All (λ s. IsListed s.0 s.1 b × ((b.heap s.1).ch ≡ []))

module _ (marshal : LogRecordV2 → Option String) (hello : ℕ → String) where
  -- How much the stream writes.
  abbrev size : LogFilter → List Wake → ℕ
  size f ws = length (rounds marshal hello f ws)
