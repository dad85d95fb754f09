-- ===== src/Telemetry/Gateway.antt =====
-- Where records enter the bus: cmd/rk/log_hub_gen.go and cmd/rk/log_gateway_server_gen.go. What a component gives the bus is a list of messages, each with
-- its topic; the bus's errors are dropped. A stream is what it hands out.
use Prim.Native.String.{String}
use rassberry.Base.{
  ℕ, Bool, List, Option, true, false, none, some, [], ◌∷◌, ◌++◌, ◌+◌, ◌%◌, ◌^◌, ◌≡◌, refl, sym, ◌∙◌,
  ap, arith, if◌then◌else◌, ◌==◌, length, append_assoc,
}
use rassberry.Telemetry.Record.{LogRecordV2, scope_topic_of}
use rassberry.Telemetry.Wire.{PushRequest, from_proto}

abbrev pub topic_all : String
topic_all = "telemetry.logs"

abbrev pub topic_root : String
topic_root = "telemetry.logs.root"

-- `LogHub.Publish`; `bus` is whether the hub and its bus are set.
unfoldable pub hub_publish : Bool → LogRecordV2 → List (String × LogRecordV2)
hub_publish false rec = []
hub_publish true rec =
    (topic_all, rec)
    ∷ (topic_root, rec)
    ∷ (if rec.scope == "" then [] else (scope_topic_of rec.scope, rec) ∷ [])

-- One `Recv`: a message, with the reading of the clock for a record without a time and whether the
-- interval since the last acknowledgement is over; or the end of the stream, with its error if it
-- is not `io.EOF`.
pub data Recv (E : Type 0) : Type 0 where
  received : Option PushRequest → ℕ → Bool → Recv E
  ended : Option E → Recv E

pub record PushResponse : Type 0 where
  pub status : String
  pub received_count : ℕ

abbrev ack : ℕ → PushResponse
ack count = record { status = "ok"; received_count = count }

-- What a call of `PushLogs` sends back, what it publishes and what it returns. A stream that hands
-- out no more keeps the call waiting.
pub record Pushed (E : Type 0) : Type 0 where
  pub acks : List PushResponse
  pub published : List (String × LogRecordV2)
  pub result : Option (Option E)

-- The specification of a stream: what is published for its messages, in their order.
abbrev pub published_of : List (Option PushRequest × ℕ × Bool) → List (String × LogRecordV2)
published_of [] = []
published_of ((msg, now, due) ∷ ms) = hub_publish true (from_proto msg now) ++ published_of ms

-- The acknowledgements that come due on the way, from a number of messages before.
abbrev pub due_acks : ℕ → List (Option PushRequest × ℕ × Bool) → List PushResponse
due_acks n [] = []
due_acks n ((msg, now, due) ∷ ms) =
    (if due then ack ((n + 1) % 2 ^ 64) ∷ [] else []) ++ due_acks (n + 1) ms

module _ {E : Type 0} where
  abbrev ahead : List PushResponse → List (String × LogRecordV2) → Pushed E → Pushed E
  ahead acks ms p = record p { acks = acks ++ p.acks; published = ms ++ p.published }

  unfoldable pub push_from : ℕ → List (Recv E) → Pushed E
  unfolding hub_publish
  push_from count [] = record { acks = []; published = []; result = none }
  push_from count (ended none ∷ rs) = record {
    acks = ack count ∷ [];
    published = [];
    result = some none;
  }
  push_from count (ended (some e) ∷ rs) = record {
    acks = [];
    published = [];
    result = some (some e);
  }
  push_from count (received msg now due ∷ rs) =
      let next = (count + 1) % 2 ^ 64 in
      ahead (if due then ack next ∷ [] else []) (hub_publish true (from_proto msg now))
        (push_from next rs)

  unfoldable pub push_logs : List (Recv E) → Pushed E
  unfolding push_from
  push_logs rs = push_from 0 rs

  -- The messages that come in before the stream ends.
  abbrev pub stream_of : List (Option PushRequest × ℕ × Bool) → Option E → List (Recv E)
  stream_of [] err = ended err ∷ []
  stream_of ((msg, now, due) ∷ ms) err = received msg now due ∷ stream_of ms err

  -- The acknowledgement behind the last message: at the end of the stream, but not on an error.
  abbrev pub last_ack : ℕ → Option E → List PushResponse
  last_ack n none = ack (n % 2 ^ 64) ∷ []
  last_ack n (some e) = []

  push_from-stream_of :
      (n : ℕ) (ms : List (Option PushRequest × ℕ × Bool)) (err : Option E)
      → push_from (n % 2 ^ 64) (stream_of ms err) ≡ record {
        acks = due_acks n ms ++ last_ack (n + length ms) err;
        published = published_of ms;
        result = some err;
      }
  unfolding push_from
  push_from-stream_of n [] none =
      ap (λ k. record { acks = ack (k % 2 ^ 64) ∷ []; published = []; result = some none })
        (omega arith)
  push_from-stream_of n [] (some e) = refl
  push_from-stream_of n ((msg, now, due) ∷ ms) err =
      let m : (n % 2 ^ 64 + 1) % 2 ^ 64 ≡ (n + 1) % 2 ^ 64 = omega arith in
      let e : n + length ((msg, now, due) ∷ ms) ≡ (n + 1) + length ms = omega arith in
      rw (m, push_from-stream_of (n + 1) ms err, e)
        (ap
          (λ l. record {
            acks = l;
            published = published_of ((msg, now, due) ∷ ms);
            result = some err;
          })
          (sym (
            append_assoc (if due then ack ((n + 1) % 2 ^ 64) ∷ [] else []) (due_acks (n + 1) ms)
              _)))

  -- For every stream that ends, `PushLogs` publishes what belongs to each message, in their order,
  -- returns the error of the stream or nil, and acknowledges the number of messages so far, as a
  -- 64-bit word, whenever the interval is over, and at the end of the stream without an error.
  pub push_logs-stream_of :
      (ms : List (Option PushRequest × ℕ × Bool)) (err : Option E)
      → push_logs (stream_of ms err) ≡ record {
        acks = due_acks 0 ms ++ last_ack (length ms) err;
        published = published_of ms;
        result = some err;
      }
  unfolding push_logs
  push_logs-stream_of ms err =
      push_from-stream_of 0 ms err
      ∙ ap
          (λ n. record {
            acks = due_acks 0 ms ++ last_ack n err;
            published = published_of ms;
            result = some err;
          })
          (omega arith)

-- `StartLogGatewayServer`: `listen` is the error of `net.Listen` at an address, `serve` what `Serve`
-- returns there, until the context is done and the server is stopped.
unfoldable pub start_log_gateway_server :
    {E : Type 0} → (String → Option E) → (String → Option E) → String → Option E
start_log_gateway_server listen serve addr =
    let addr = if addr == "" then ":8079" else addr in
    elim (listen addr) [ some e ↦ some e | none ↦ serve addr ]
