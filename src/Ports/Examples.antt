-- ===== src/Ports/Examples.antt =====
-- Two tee loggers on a new bus with one subscriber.
use rassberry.Base.{ℕ, String, List, true, false, [], ◌∷◌, ◌++◌, ◌≡◌, refl, arith, ap, length, map}
use rassberry.Telemetry.Gateway.{topic_all}
use rassberry.Telemetry.TeeLogger.{TeeLogger}
use rassberry.Admin.Stream.{Message, log}
use rassberry.Bus.{Moment}
use rassberry.Ports.InMemory.{
  State, start, subscribe_state, subscribe_state-opens, in_memory, in_memory-log_calls,
}
use rassberry.Ports.Logging.{LogCall, record_of, log_calls}

abbrev alive : ℕ → Moment
alive i = record { done = false; pick = false }

abbrev subscribed : State Message × ℕ
subscribed = subscribe_state topic_all start

abbrev logger : String → TeeLogger
logger scope = record { on = true; kernel_id = "k"; scope = scope; component = "c" }

abbrev log_call : String → LogCall (ℕ → Moment)
log_call scope = record {
  ctx = alive;
  logger = logger scope;
  level = "INFO";
  message = "up";
  fields = [];
  now = 3;
}

abbrev logs : List (LogCall (ℕ → Moment))
logs = log_call "domain" ∷ log_call "root" ∷ []

in_memory-log_calls_example :
    ((log_calls in_memory logs subscribed.0).bus.heap subscribed.1).ch
    ≡ (subscribed.0.bus.heap subscribed.1).ch ++ map (λ c. log (record_of c)) logs
in_memory-log_calls_example =
    in_memory-log_calls logs subscribed.1 subscribed.0 ((refl, λ j. refl), ((refl, λ j. refl), tt))
      (subscribe_state-opens topic_all start).0
      (omega (arith, ap length (subscribe_state-opens topic_all start).1))
