-- ===== src/Admin/Stream.antt =====
-- cmd/rk/http_admin_logs_gen.go: the stream of log events. JSON is the library's `json.Marshal`.
use Prim.Native.String.{◌++◌}
use rassberry.Base.{ℕ, String, Bool, List, Option, none, some, [], ◌∷◌, ◌==◌, ◌||◌, if◌then◌else◌}
use mathlib.Core.List
use rassberry.Telemetry.Record.{Level, LogRecordV2, debug, info, warn, error, scope_topic_of}
use rassberry.Telemetry.Filter.{LogFilter, match_v2}
use rassberry.Telemetry.Gateway.{topic_all}
use rassberry.Bus.{InMemoryEventBus, subscribe}

-- The parameters of the query.
pub record Query : Type 0 where
  pub level : String
  pub kernel : String
  pub scope : String
  pub component : String

-- A level that the query does not name leaves the lowest.
unfoldable pub level_min_of : String → Level
level_min_of lv =
    if lv == ""
    then debug
    else if lv == "DEBUG" || lv == "debug"
    then debug
    else if lv == "WARN" || (lv == "warn" || lv == "warning")
    then warn
    else if lv == "ERROR" || lv == "error"
    then error
    else info

unfoldable pub filter_of : Query → LogFilter
unfolding level_min_of
filter_of q = record {
  level_min = level_min_of q.level;
  kernel_id = q.kernel;
  scope = q.scope;
  component = q.component;
}

-- The topics that the stream subscribes to.
unfoldable pub topics_of : LogFilter → List String
topics_of f = topic_all ∷ (if f.scope == "" then [] else scope_topic_of f.scope ∷ [])

-- The subscribers that the stream makes, one for each of its topics.
unfoldable pub subscribe_all :
    {M : Type 0} → List String → InMemoryEventBus M → InMemoryEventBus M × List ℕ
subscribe_all [] b = (b, [])
subscribe_all (t ∷ ts) b =
    let (c, i) = subscribe t b in let (d, is) = subscribe_all ts c in (d, i ∷ is)

-- What a channel of the bus gives: a record, or a value of another type or of none.
pub data Message : Type 0 where
  log : LogRecordV2 → Message
  other : Message

-- A round of the `select`; both channels are read in the same way.
pub data Wake : Type 0 where
  keep_alive : Wake
  arrived : Message → Wake

-- What is written to the client.
pub data Written : Type 0 where
  comment : Written
  event : String → String → Written

-- Its text, before what follows.
abbrev pub written_before : Written → String → String
written_before comment rest = ": keep-alive" ++ ("\n" ++ ("\n" ++ rest))
written_before (event tag json) rest =
    ("event: " ++ tag) ++ ("\n" ++ (("data: " ++ json) ++ ("\n" ++ ("\n" ++ rest))))

unfoldable pub body_text : List Written → String
body_text [] = ""
body_text (w ∷ ws) = written_before w (body_text ws)

-- What `json.Marshal` gives is dropped with its error.
abbrev pub or_empty : Option String → String
or_empty none = ""
or_empty (some json) = json

module _ (marshal : LogRecordV2 → Option String) (hello : ℕ → String) where
  unfoldable pub on_wake : LogFilter → Wake → List Written
  on_wake f keep_alive = comment ∷ []
  on_wake f (arrived other) = []
  on_wake f (arrived (log rec)) =
      if match_v2 f rec then event "log" (or_empty (marshal rec)) ∷ [] else []

  unfoldable pub rounds : LogFilter → List Wake → List Written
  unfolding on_wake
  rounds f [] = []
  rounds f (w ∷ ws) = List.◌++◌ (on_wake f w) (rounds f ws)

  -- Until the client goes; `now` is the time that the greeting shows.
  unfoldable pub log_stream : Query → ℕ → List Wake → List Written
  unfolding filter_of rounds
  log_stream q now ws = event "hello" (hello now) ∷ rounds (filter_of q) ws

-- The handler's answer; a writer that cannot flush is refused.
pub data Answer : Type 0 where
  refused : ℕ → String → Answer
  streamed : List Written → Answer

unfoldable pub stream_handler :
    (LogRecordV2 → Option String) → (ℕ → String) → Bool → Query → ℕ → List Wake → Answer
unfolding log_stream
stream_handler marshal hello flushes q now ws =
    if flushes
    then streamed (log_stream marshal hello q now ws)
    else refused 500 "streaming unsupported"
