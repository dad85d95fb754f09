-- ===== src/Forwarder.antt =====
-- kernels/infra/log-forwarder/forwarder_gen.go: a kernel's records on their way to the log gateway of
-- the root. What gRPC answers, what the goroutine that sends takes, and the readings of the clock come
-- with each round of `Run`. `ToProto` is not among the sources; a record stands for what it gives.
pub mod Once
pub mod Reconnect
mod Examples
pub mod Whole
pub mod Twice
use rassberry.Base.{
  ℕ, suc, String, Bool, List, Option, true, false, none, some, [], ◌∷◌, ◌++◌, ◌==◌, ◌||◌, ◌*◌, not,
  ltb, length, if◌then◌else◌,
}
use rassberry.Base.Int.{ℤ, pos}
use rassberry.Telemetry.Record.{LogRecordV2}
use rassberry.Telemetry.Gateway.{topic_all}
use rassberry.Admin.Stream.{Message, log, other}
use rassberry.Supervisor.Backoff.{Float, BackoffPolicy, millisecond}
use rassberry.Process.Backoff.{duration}

-- `TopicTelemetryLogsDomain` and `TopicTelemetryLogsFunction`.
abbrev pub topic_domain : String
topic_domain = "telemetry.logs.domain"

abbrev pub topic_function : String
topic_function = "telemetry.logs.function"

-- `make(chan anyMsg, 256)`
abbrev pub in_capacity : ℕ
in_capacity = 256

-- What the goroutine of a subscription does with a message: a full channel drops it.
unfoldable pub pump : Message → List Message → List Message
pump m waiting = if ltb (length waiting) in_capacity then waiting ++ m ∷ [] else waiting

-- Records of the root are not sent back to it.
abbrev pub is_forwarded : LogRecordV2 → Bool
is_forwarded rec = not (rec.scope == "root" || rec.kernel_id == "rk")

-- A round of the goroutine that sends: its context is done, or it takes a message, with the error of
-- `Send` if it comes to one.
pub data Taken (E : Type 0) : Type 0 where
  done : Taken E
  taken : Message → Option E → Taken E

pub data SendEnd (E : Type 0) : Type 0 where
  sending stopped : SendEnd E
  send_failed : E → SendEnd E

-- How a `select` on a sleep and the context ends.
pub data Pause : Type 0 where
  slept cancelled : Pause

-- What the wait for the goroutine sees first.
pub data Seen : Type 0 where
  saw_context saw_sender : Seen

-- A round of the loop of `Run`; the number is the reading of the clock for the delay.
pub data Attempt (E : Type 0) : Type 0 where
  dial_failed open_failed : E → ℕ → Pause → Attempt E
  streamed : List (Taken E) → Seen → ℕ → Pause → Attempt E

-- `running` is a loop that has not returned yet.
pub data Ending : Type 0 where
  running returned_nil returned_cancelled missing : Ending

-- What `Run` has done: the records sent, the delays it asked for, and its warnings.
pub record Run : Type 0 where
  pub sent : List LogRecordV2
  pub sleeps : List ℤ
  pub warnings : List String
  pub ending : Ending

abbrev pub ended : List LogRecordV2 → Ending → Run
ended sent e = record { sent = sent; sleeps = []; warnings = []; ending = e }

-- A warning and a sleep, and what follows unless the sleep is cancelled.
abbrev pub paused : String → ℤ → Pause → Run → Run
paused message d slept rest = record rest {
  sleeps = d ∷ rest.sleeps;
  warnings = message ∷ rest.warnings;
}
paused message d cancelled rest = record {
  sent = [];
  sleeps = d ∷ [];
  warnings = message ∷ [];
  ending = returned_cancelled;
}

abbrev pub after_sending : List LogRecordV2 → Run → Run
after_sending sent r = record r { sent = sent ++ r.sent }

module _ {E : Type 0} where
  abbrev pub kept_on : LogRecordV2 → List LogRecordV2 × SendEnd E → List LogRecordV2 × SendEnd E
  kept_on rec (sent, e) = (rec ∷ sent, e)

  abbrev pub send_one :
      LogRecordV2 → Option E → List LogRecordV2 × SendEnd E → List LogRecordV2 × SendEnd E
  send_one rec none rest = kept_on rec rest
  send_one rec (some e) rest = ([], send_failed e)

  -- The goroutine: the records sent, and how it ended.
  unfoldable pub send_loop : List (Taken E) → List LogRecordV2 × SendEnd E
  send_loop [] = ([], sending)
  send_loop (done ∷ ts) = ([], stopped)
  send_loop (taken other answer ∷ ts) = send_loop ts
  send_loop (taken (log rec) answer ∷ ts) =
      let rest = send_loop ts in if is_forwarded rec then send_one rec answer rest else rest

  -- What follows a stream, by what is seen of it; `next` is the rest of the loop.
  abbrev pub follow : Seen → SendEnd E → (Run → Run) → Run → Run
  follow saw_context e pause next = ended [] returned_cancelled
  follow saw_sender sending pause next = ended [] running
  follow saw_sender stopped pause next = ended [] returned_nil
  follow saw_sender (send_failed e) pause next = pause next

module _ (fl : Float) where
  pub record Forwarder : Type 0 where
    pub addr : String
    pub has_bus : Bool
    pub topics : List String
    pub backoff : BackoffPolicy fl

  pub data ForwarderOption : Type 0 where
    with_topics : List String → ForwarderOption
    with_backoff : BackoffPolicy fl → ForwarderOption

  unfoldable pub apply_option : ForwarderOption → Forwarder → Forwarder
  apply_option (with_topics ts) f = if ltb 0 (length ts) then record f { topics = ts } else f
  apply_option (with_backoff b) f = record f { backoff = b }

  abbrev pub apply_options : List ForwarderOption → Forwarder → Forwarder
  apply_options [] f = f
  apply_options (o ∷ os) f = apply_options os (apply_option o f)

  -- `fifth` is 0.2.
  unfoldable pub new : fl.F → String → Bool → List ForwarderOption → Forwarder
  new fifth addr has_bus opts = apply_options opts (record {
    addr = addr;
    has_bus = has_bus;
    topics = topic_all ∷ topic_domain ∷ topic_function ∷ [];
    backoff = record {
      min = pos (200 * millisecond);
      max = pos (10000 * millisecond);
      factor = fl.two;
      jitter = fifth;
    };
  })

  module _ {E : Type 0} where
    -- The loop, with the value of `attempt` before the round.
    unfoldable pub run_from : BackoffPolicy fl → ℕ → List (Attempt E) → Run
    unfolding send_loop
    run_from b attempt [] = ended [] running
    run_from b attempt (dial_failed e now p ∷ more) =
        paused "log-forwarder dial failed" (duration fl b (suc attempt) now) p
          (run_from b (suc attempt) more)
    run_from b attempt (open_failed e now p ∷ more) =
        paused "log-forwarder stream open failed" (duration fl b 1 now) p (run_from b 0 more)
    run_from b attempt (streamed ts seen now p ∷ more) =
        let (sent, end) = send_loop ts in
        after_sending sent (
          follow seen end (paused "log-forwarder send failed" (duration fl b 1 now) p)
            (run_from b 1 more))

    unfoldable pub run : Forwarder → List (Attempt E) → Run
    unfolding run_from
    run f rounds =
        if not f.has_bus || f.addr == "" then ended [] missing else run_from f.backoff 0 rounds
