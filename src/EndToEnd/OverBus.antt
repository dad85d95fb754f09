-- ===== src/EndToEnd/OverBus.antt =====
-- The way of a record through the bus as it is: the log gateway publishes to the bus (Bus) what the
-- forwarder sent, and a stream of the administration receives from its channel there.
mod Examples
use mathlib.Core.List
use rassberry.Base.{
  ℕ, String, Bool, List, Option, false, none, [], ◌∷◌, ◌≡◌, ◌≢◌, ◌==◌, refl, sym, ap, ◌∙◌, arith,
  if◌then◌else◌, eq_refl, append_nil,
}
use rassberry.Telemetry.Record.{LogRecordV2}
use rassberry.Telemetry.Filter.{LogFilter, match_v2}
use rassberry.Telemetry.Wire.{PushRequest}
use rassberry.Telemetry.Gateway.{topic_root, push_logs, stream_of}
use rassberry.Bus.{copies, member}
use rassberry.Bus.Invariant.{subscribe-IsWellFormed, copies-subscribe}
use rassberry.Admin.Stream.{Message, log, other, Wake, keep_alive, arrived}
use rassberry.Supervisor.Backoff.{Float, BackoffPolicy}
use rassberry.Rkctl.Logs.{sent_records}
use rassberry.EndToEnd.{gateway_messages}

-- The messages that a stream takes from the bus.
abbrev pub arrived_of : List Wake → List Message
arrived_of [] = []
arrived_of (keep_alive ∷ ws) = arrived_of ws
arrived_of (arrived m ∷ ws) = m ∷ arrived_of ws

-- What is published under a topic, as messages of the bus.
abbrev pub under : String → List (String × LogRecordV2) → List Message
under topic [] = []
under topic ((t, rec) ∷ ms) = if t == topic then log rec ∷ under topic ms else under topic ms

module _ (marshal : LogRecordV2 → Option String) (hello : ℕ → String)
    (unmarshal : String → Option LogRecordV2) (back : LogRecordV2 → LogRecordV2) where
  sent_records-arrived_of :
      (f : LogFilter) (ws : List Wake)
      → sent_records marshal hello unmarshal back f ws
        ≡ sent_records marshal hello unmarshal back f (List.map arrived (arrived_of ws))
  unfolding sent_records
  sent_records-arrived_of f [] = refl
  sent_records-arrived_of f (keep_alive ∷ ws) = sent_records-arrived_of f ws
  sent_records-arrived_of f (arrived other ∷ ws) = sent_records-arrived_of f ws
  sent_records-arrived_of f (arrived (log rec) ∷ ws) = rw (sent_records-arrived_of f ws) refl

  pub sent_records-same :
      (f : LogFilter) (ws vs : List Wake)
      → arrived_of ws ≡ arrived_of vs
      → sent_records marshal hello unmarshal back f ws
        ≡ sent_records marshal hello unmarshal back f vs
  sent_records-same f ws vs e =
      sent_records-arrived_of f ws
      ∙ ap (λ ms. sent_records marshal hello unmarshal back f (List.map arrived ms)) e
      ∙ sym (sent_records-arrived_of f vs)

module _ (E : Type 0) (fl : Float) (b : BackoffPolicy fl) (to_proto : LogRecordV2 → PushRequest)
    (marshal : LogRecordV2 → Option String) (hello : ℕ → String)
    (unmarshal : String → Option LogRecordV2) (back : LogRecordV2 → LogRecordV2) where
  -- What the gateway gives the bus, if the forwarder sends what `sent` lists.
  abbrev pub gateway_published : ℕ → Bool → List LogRecordV2 → List (String × LogRecordV2)
  gateway_published now due sent =
      (push_logs {E = E} (stream_of (gateway_messages to_proto now due sent) none)).published
