-- ===== src/EndToEnd/OverBus/Examples.antt =====
-- One record of a domain on its way over a new bus.
use mathlib.Core.List
use rassberry.Base.{ℕ, List, false, some, [], ◌∷◌}
use rassberry.Telemetry.Record.{LogRecordV2}
use rassberry.Telemetry.Wire.{blank_record, from_proto}
use rassberry.Telemetry.Gateway.{topic_all, topic_root}
use rassberry.Bus.{new_bus, InMemoryEventBus, Moment}
use rassberry.Bus.Calls.{Call, publish_call, receive_call}
use rassberry.Admin.Stream.{
  filter_of, topics_of, subscribe_all, Message, log, arrived, keep_alive, Wake,
}
use rassberry.Forwarder.{saw_sender, slept, streamed, run_from}
use rassberry.Forwarder.Reconnect.{dials}
use rassberry.Forwarder.Whole.{whole}
use rassberry.EndToEnd.Examples.{plain, stream, query, wire}

abbrev alive : ℕ → Moment
alive i = record { done = false; pick = false }

abbrev message : Message
message = log (from_proto (some (wire (blank_record 2))) 4)

abbrev bus_calls : List (Call Message)
bus_calls =
    publish_call alive topic_all message
    ∷ publish_call alive topic_root message
    ∷ receive_call 0
    ∷ []

abbrev wakes : List Wake
wakes = keep_alive ∷ arrived message ∷ []

abbrev started : InMemoryEventBus Message
started = (subscribe_all (topics_of (filter_of query)) new_bus).0

abbrev sent : List LogRecordV2
sent =
    (run_from whole plain 0
      (List.◌++◌ (dials (("refused", 7) ∷ [])) (streamed stream saw_sender 9 slept ∷ []))).sent
