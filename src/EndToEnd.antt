-- ===== src/EndToEnd.antt =====
-- A record's whole way: from the channel of the forwarder in a domain (Forwarder), over the gateway and
-- the log hub of the root (Telemetry.Gateway), through a topic of the bus into a stream of the
-- administration (Admin.Stream), to the client (Rkctl). Each step is that module's function.
pub mod Examples
pub mod Operator
pub mod OverBus
pub mod Report
use rassberry.Base.{
  ℕ, String, Bool, List, Option, true, false, none, some, [], ◌∷◌, ◌++◌, ◌≡◌, ◌≢◌, ◌==◌, refl, sym,
  ap, ◌∙◌, arith, map, All, if◌then◌else◌, ne_of_false, Bool-cases, inl, inr,
}
use rassberry.Telemetry.Record.{LogRecordV2, scope_topic_of}
use rassberry.Telemetry.Filter.{LogFilter}
use rassberry.Telemetry.Wire.{PushRequest, from_proto}
use rassberry.Telemetry.Gateway.{
  topic_all, hub_publish, published_of, push_logs, stream_of, push_logs-stream_of,
}
use rassberry.Admin.Stream.{Query, filter_of, topics_of, Wake, arrived, log, body_text, log_stream}
use rassberry.Admin.Repeats.{arrivals, all_not_scope}
use rassberry.Supervisor.Backoff.{Float, BackoffPolicy}
use rassberry.Forwarder.{Taken, Pause, Run, saw_sender, streamed, run_from}
use rassberry.Forwarder.Once.{records_in}
use rassberry.Forwarder.Reconnect.{dials, Sends, eligible, run_from-reconnects}
use rassberry.Rkctl.{received}
use rassberry.Rkctl.Logs.{Json, sent_records, received-log_stream}

-- One `Recv` of the gateway for each record sent; `to_proto` is the conversion that the sources lack.
abbrev pub gateway_messages :
    (LogRecordV2 → PushRequest) → ℕ → Bool → List LogRecordV2 → List (Option PushRequest × ℕ × Bool)
gateway_messages to_proto now due [] = []
gateway_messages to_proto now due (rec ∷ recs) =
    (some (to_proto rec), now, due) ∷ gateway_messages to_proto now due recs

-- The records of a list, each once.
abbrev pub once_each : (LogRecordV2 → PushRequest) → ℕ → List LogRecordV2 → List Wake
once_each to_proto now [] = []
once_each to_proto now (rec ∷ recs) =
    arrived (log (from_proto (some (to_proto rec)) now)) ∷ once_each to_proto now recs

-- A subscription to the general topic alone gets each record of the hub once.
arrivals_of_hub :
    (rec : LogRecordV2) (ms : List (String × LogRecordV2))
    → arrivals (topic_all ∷ []) (hub_publish true rec ++ ms)
      ≡ arrived (log rec) ∷ arrivals (topic_all ∷ []) ms
unfolding hub_publish
arrivals_of_hub rec ms = elim (Bool-cases (rec.scope == "")) [
  | inl e ↦ rw e refl
  | inr e ↦ rw (e, ne_of_false topic_all (scope_topic_of rec.scope) (all_not_scope rec.scope)) refl
]

arrivals-gateway_messages :
    (to_proto : LogRecordV2 → PushRequest) (now : ℕ) (due : Bool) (recs : List LogRecordV2)
    → arrivals (topic_all ∷ []) (published_of (gateway_messages to_proto now due recs))
      ≡ once_each to_proto now recs
arrivals-gateway_messages to_proto now due [] = refl
arrivals-gateway_messages to_proto now due (rec ∷ recs) =
    arrivals_of_hub (from_proto (some (to_proto rec)) now)
      (published_of (gateway_messages to_proto now due recs))
    ∙ ap (λ ws. arrived (log (from_proto (some (to_proto rec)) now)) ∷ ws)
        (arrivals-gateway_messages to_proto now due recs)

topics-filter_of : (q : Query) → q.scope ≡ "" → topics_of (filter_of q) ≡ topic_all ∷ []
unfolding topics_of filter_of
topics-filter_of q s = ap (λ c. topic_all ∷ (if c == "" then [] else scope_topic_of c ∷ [])) s

module _ (E : Type 0) (fl : Float) (b : BackoffPolicy fl) (to_proto : LogRecordV2 → PushRequest)
    (marshal : LogRecordV2 → Option String) (hello : ℕ → String)
    (unmarshal : String → Option LogRecordV2) (back : LogRecordV2 → LogRecordV2) where
  -- What the client prints, if the forwarder sends what `sent` lists.
  abbrev pub printed : Query → ℕ → Bool → List LogRecordV2 → List LogRecordV2
  printed q now due sent =
      let published =
        (push_logs {E = E} (stream_of (gateway_messages to_proto now due sent) none)).published in
      received unmarshal
        (body_text (log_stream marshal hello q now (arrivals (topics_of (filter_of q)) published)))

  -- If the forwarder reaches the gateway at last, no `Send` fails, and nothing is dropped on the bus,
  -- then a client without a filter on scopes prints, behind the blank record of the greeting, every
  -- record that the forwarder took and that is not of the root, if it passes the filter as the
  -- gateway converts it and has a JSON text: once, in the order in which the forwarder took them.
  pub printed_of_forwarded :
      (blank : LogRecordV2) (q : Query) (now at : ℕ) (due : Bool) (ds : List (E × ℕ))
      (ts : List (Taken E)) (p : Pause)
      → Json marshal hello unmarshal back blank
      → q.scope ≡ ""
      → All Sends ts
      → printed q now due (run_from fl b 0 (dials ds ++ streamed ts saw_sender at p ∷ [])).sent
        ≡ blank
          ∷ sent_records marshal hello unmarshal back
              (filter_of q)
              (once_each to_proto now (eligible (records_in ts)))
  printed_of_forwarded blank q now at due ds ts p json s h =
      let (x, y, z) = run_from-reconnects fl b at ds ts p h in
      rw
        (
          x,
          topics-filter_of q s,
          push_logs-stream_of {E = E} (gateway_messages to_proto now due (eligible (records_in ts)))
              none,
          arrivals-gateway_messages to_proto now due (eligible (records_in ts)),
        )
        (received-log_stream marshal hello unmarshal back blank json q now
          (once_each to_proto now (eligible (records_in ts))))
