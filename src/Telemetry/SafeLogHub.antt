-- ===== src/Telemetry/SafeLogHub.antt =====
-- platform/telemetry/loghub_safe_gen.go. The counters are machine words that wrap. The publisher is
-- the list of the messages that it was given, the oldest first: its errors are dropped.
pub mod Burst
pub mod Balance
use rassberry.Base.{
  ℕ, String, Bool, List, true, false, [], ◌∷◌, ◌++◌, ◌+◌, ◌%◌, ◌^◌, ◌==◌, ◌&&◌, not, map, length,
  ltb, if◌then◌else◌,
}
use rassberry.Base.Int.{ℤ, pos, pos_part, less, is_positive, add64}
use rassberry.Telemetry.Record.{LogRecordV2, scope_topic_of}

-- Where `loop` stands: at its `select`, or in `forward` with a record and the messages of it that it
-- has not published yet.
pub data LoopAt : Type 0 where
  selecting : LoopAt
  forwarding : LogRecordV2 → List (String × LogRecordV2) → LoopAt

pub record SafeLogHub : Type 0 where
  pub topics : List String
  pub scope_topic : Bool
  pub buf : ℕ
  pub rate_max : ℤ
  pub rate_window : ℤ
  pub rate_now : ℤ
  pub last_reset : ℕ
  pub in_queue : List LogRecordV2
  pub total : ℕ
  pub forwarded : ℕ
  pub dropped_rate : ℕ
  pub dropped_queue : ℕ
  pub stopped : Bool
  pub running : Bool
  pub loop_at : LoopAt
  pub published : List (String × LogRecordV2)

pub record LogHubStats : Type 0 where
  pub total : ℕ
  pub forwarded : ℕ
  pub dropped_rate : ℕ
  pub dropped_queue : ℕ
  pub rate_window : ℤ
  pub rate_max : ℤ
  pub since : ℕ

-- An option is one of four; the numbers are signed.
pub data SafeLogHubOption : Type 0 where
  with_topics : List String → SafeLogHubOption
  with_scope_topic : Bool → SafeLogHubOption
  with_buffer : ℤ → SafeLogHubOption
  with_rate_limit : ℤ → ℤ → SafeLogHubOption

unfoldable pub apply_option : SafeLogHubOption → SafeLogHub → SafeLogHub
apply_option (with_topics topics) h = record h { topics = [] ++ topics }
apply_option (with_scope_topic enable) h = record h { scope_topic = enable }
apply_option (with_buffer size) h = if is_positive size then record h { buf = pos_part size } else h
apply_option (with_rate_limit max_per_interval interval) h = record h {
  rate_max = if is_positive max_per_interval then max_per_interval else pos 1000;
  rate_window = if is_positive interval then interval else pos 1_000_000_000;
}

unfoldable pub apply_options : List SafeLogHubOption → SafeLogHub → SafeLogHub
apply_options [] h = h
apply_options (o ∷ os) h = apply_options os (apply_option o h)

-- The hub before the options.
abbrev pub default_hub : SafeLogHub
default_hub = record {
  topics = "telemetry.logs" ∷ [];
  scope_topic = false;
  buf = 1024;
  rate_max = pos 1000;
  rate_window = pos 1_000_000_000;
  rate_now = pos 0;
  last_reset = 0;
  in_queue = [];
  total = 0;
  forwarded = 0;
  dropped_rate = 0;
  dropped_queue = 0;
  stopped = false;
  running = true;
  loop_at = selecting;
  published = [];
}

unfoldable pub new_safe_log_hub : List SafeLogHubOption → ℕ → SafeLogHub
new_safe_log_hub opts now = record (apply_options opts default_hub) { last_reset = now }

-- `atomic.AddUint64(&x, 1)`
abbrev pub count64 : ℕ → ℕ
count64 n = (n + 1) % 2 ^ 64

-- The first step of `Publish`.
unfoldable pub enter : SafeLogHub → SafeLogHub
enter h = record h { total = count64 h.total }

-- The rate limit; the answer is whether `Publish` goes on.
unfoldable pub limit : SafeLogHub → SafeLogHub × Bool
limit h =
    let now = add64 h.rate_now (pos 1) in
    if is_positive h.rate_max
    then if less h.rate_max now
      then (record h { rate_now = now; dropped_rate = count64 h.dropped_rate }, false)
      else (record h { rate_now = now }, true)
    else (h, true)

-- The write into the queue, if there is room.
unfoldable pub push : LogRecordV2 → SafeLogHub → SafeLogHub × Bool
push rec h =
    if ltb (length h.in_queue) h.buf
    then (record h { in_queue = h.in_queue ++ rec ∷ [] }, true)
    else (record h { dropped_queue = count64 h.dropped_queue }, false)

abbrev pub admit : LogRecordV2 → SafeLogHub × Bool → SafeLogHub × Bool
admit rec (h, true) = push rec h
admit rec (h, false) = (h, false)

-- A `Publish` that nothing interrupts.
unfoldable pub publish : LogRecordV2 → SafeLogHub → SafeLogHub × Bool
unfolding enter limit push
publish rec h = admit rec (limit (enter h))

-- What `forward` gives the publisher.
unfoldable pub messages : SafeLogHub → LogRecordV2 → List (String × LogRecordV2)
messages h rec =
    map (λ t. (t, rec)) h.topics
    ++ (if h.scope_topic && not (rec.scope == "") then (scope_topic_of rec.scope, rec) ∷ [] else [])

-- One access of `forward`: a publish, or the count behind the last one.
unfoldable pub forward : LogRecordV2 → List (String × LogRecordV2) → SafeLogHub → SafeLogHub
forward rec [] h = record h { forwarded = count64 h.forwarded; loop_at = selecting }
forward rec (m ∷ ms) h = record h { published = h.published ++ m ∷ []; loop_at = forwarding rec ms }

unfoldable pub reset : ℕ → SafeLogHub → SafeLogHub
reset now h = record h { rate_now = pos 0; last_reset = now }

abbrev pub take_first : List LogRecordV2 → SafeLogHub → SafeLogHub
take_first [] h = h
take_first (rec ∷ recs) h = record h { in_queue = recs; loop_at = forwarding rec (messages h rec) }

-- The receive from the queue, which starts `forward`.
unfoldable pub serve : SafeLogHub → SafeLogHub
unfolding messages
serve h = take_first h.in_queue h

-- Which case of the `select` in `loop` the runtime takes.
pub data Ready : Type 0 where
  quit : Ready
  ticked : ℕ → Ready
  received : Ready

abbrev pub round_of : Ready → SafeLogHub → SafeLogHub
round_of quit h = if h.stopped then record h { running = false } else h
round_of (ticked now) h = reset now h
round_of received h = serve h

abbrev pub access_of : Ready → LoopAt → SafeLogHub → SafeLogHub
access_of r selecting h = round_of r h
access_of r (forwarding rec ms) h = forward rec ms h

-- One access of `loop`: a case of the `select`, or the next access of `forward`, where no case is
-- looked at; there is none after it has returned.
unfoldable pub loop_step : Ready → SafeLogHub → SafeLogHub
unfolding reset serve forward
loop_step r h = if h.running then access_of r h.loop_at h else h

unfoldable pub stats : SafeLogHub → LogHubStats
stats h = record {
  total = h.total;
  forwarded = h.forwarded;
  dropped_rate = h.dropped_rate;
  dropped_queue = h.dropped_queue;
  rate_window = h.rate_window;
  rate_max = h.rate_max;
  since = h.last_reset;
}

-- `close(h.stop)`, before `Close` waits for the loop; the answer is whether it panics, as a second
-- close of a channel does.
unfoldable pub close : SafeLogHub → SafeLogHub × Bool
close h = (record h { stopped = true }, h.stopped)
