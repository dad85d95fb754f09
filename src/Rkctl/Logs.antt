-- ===== src/Rkctl/Logs.antt =====
-- The log stream from the administration to the client.
use Prim.Native.String.{String, ◌++◌}
use text.Mathlib.TextLemmas.{append_assoc}
use rassberry.Base.{
  ℕ, List, Option, false, none, some, [], ◌∷◌, ◌≡◌, refl, sym, ap, ◌∙◌, if◌then◌else◌, Bool-cases,
  inl, inr,
}
use rassberry.Telemetry.Record.{LogRecordV2}
use rassberry.Telemetry.Filter.{LogFilter, match_v2, has_prefix, has_prefix-append}
use rassberry.Admin.Stream.{
  Query, filter_of, log, other, Wake, keep_alive, arrived, comment, event, written_before,
  body_text, or_empty, on_wake, rounds, log_stream,
}
use rassberry.Rkctl.{decoded, records_of, received}
use rassberry.Text.{
  holds, holds-append, newline, read_lines, read_lines-append, read_lines-newline,
  trim_prefix-append, trim_space, trim_left, trim_right, trim_space-braces, braces,
}

-- A text that JSON gives for an object: braces around it, and no line break.
abbrev pub IsObject : String → Type 0
IsObject j = (body : String) × (j ≡ braces body) × (holds newline j ≡ false)

module _ (marshal : LogRecordV2 → Option String) (hello : ℕ → String)
    (unmarshal : String → Option LogRecordV2) (back : LogRecordV2 → LogRecordV2) where
  -- What is relied on of JSON: records and the greeting are objects, a record comes back as `back`
  -- has it, the greeting as the record `blank`, and an empty text is an error.
  pub record Json (blank : LogRecordV2) : Type 0 where
    pub record_object : (r : LogRecordV2) (j : String) → marshal r ≡ some j → IsObject j
    pub hello_object : (now : ℕ) → IsObject (hello now)
    pub read_record :
        (r : LogRecordV2) (j : String) → marshal r ≡ some j → unmarshal j ≡ some (back r)
    pub read_hello : (now : ℕ) → unmarshal (hello now) ≡ some blank
    pub read_empty : unmarshal "" ≡ none

  abbrev with_json : Option String → LogRecordV2 → List LogRecordV2 → List LogRecordV2
  with_json none r rs = rs
  with_json (some j) r rs = back r ∷ rs

  -- The records that arrive, pass the filter and have a JSON text, as they come back.
  unfoldable pub sent_records : LogFilter → List Wake → List LogRecordV2
  sent_records f [] = []
  sent_records f (keep_alive ∷ ws) = sent_records f ws
  sent_records f (arrived other ∷ ws) = sent_records f ws
  sent_records f (arrived (log rec) ∷ ws) =
      let rest = sent_records f ws in
      if match_v2 f rec then with_json (marshal rec) rec rest else rest

  trimmed : (j : String) → IsObject j → trim_space (j ++ "\n") ≡ j
  trimmed j (body, e, h) = ap (λ x. trim_space (x ++ "\n")) e ∙ trim_space-braces body ∙ sym e

  -- What a line of data and the empty line behind it add.
  data_line :
      (j rest : String)
      → holds newline j ≡ false
      → trim_space (j ++ "\n") ≡ j
      → records_of unmarshal (read_lines (("data: " ++ j) ++ ("\n" ++ ("\n" ++ rest))))
        ≡ decoded unmarshal (unmarshal j) (records_of unmarshal (read_lines rest))
  unfolding records_of read_lines has_prefix
  data_line j rest h e =
      rw
        (
          read_lines-append ("data: " ++ j) ("\n" ++ rest) (holds-append newline "data: " j ∙ h),
          read_lines-newline rest,
          append_assoc "data: " j "\n",
          has_prefix-append "data: " (j ++ "\n"),
          trim_prefix-append "data: " (j ++ "\n"),
          e,
        )
        refl

  event_line :
      (tag j rest : String)
      → holds newline ("event: " ++ tag) ≡ false
      → has_prefix (("event: " ++ tag) ++ "\n") "data: " ≡ false
      → holds newline j ≡ false
      → trim_space (j ++ "\n") ≡ j
      → records_of unmarshal (read_lines (written_before (event tag j) rest))
        ≡ decoded unmarshal (unmarshal j) (records_of unmarshal (read_lines rest))
  unfolding records_of read_lines has_prefix
  event_line tag j rest t d h e =
      rw (read_lines-append ("event: " ++ tag) (("data: " ++ j) ++ ("\n" ++ ("\n" ++ rest))) t, d)
        (data_line j rest h e)

  comment_line :
      (rest : String)
      → records_of unmarshal (read_lines (written_before comment rest))
        ≡ records_of unmarshal (read_lines rest)
  unfolding records_of read_lines has_prefix
  comment_line rest =
      rw (read_lines-append ": keep-alive" ("\n" ++ rest) refl, read_lines-newline rest) refl

  module _ (blank : LogRecordV2) (json : Json blank) where
    logged :
        (f : LogFilter) (rec : LogRecordV2) (ws : List Wake) (o : Option String)
        → marshal rec ≡ o
        → received unmarshal (body_text (rounds marshal hello f ws)) ≡ sent_records f ws
        → received unmarshal (body_text (event "log" (or_empty o) ∷ rounds marshal hello f ws))
          ≡ with_json o rec (sent_records f ws)
    unfolding received body_text has_prefix trim_space trim_left trim_right
    logged f rec ws none e h =
        event_line "log" "" (body_text (rounds marshal hello f ws)) refl refl refl refl
        ∙ rw json.read_empty h
    logged f rec ws (some j) e h =
        let o = json.record_object rec j e in
        event_line "log" j (body_text (rounds marshal hello f ws)) refl refl o.2 (trimmed j o)
        ∙ rw (json.read_record rec j e, h) refl

    rounds_lem :
        (f : LogFilter) (ws : List Wake)
        → received unmarshal (body_text (rounds marshal hello f ws)) ≡ sent_records f ws
    unfolding received rounds on_wake sent_records body_text has_prefix read_lines records_of
    rounds_lem f [] = refl
    rounds_lem f (keep_alive ∷ ws) =
        comment_line (body_text (rounds marshal hello f ws)) ∙ rounds_lem f ws
    rounds_lem f (arrived other ∷ ws) = rounds_lem f ws
    rounds_lem f (arrived (log rec) ∷ ws) = elim (Bool-cases (match_v2 f rec)) [
      | inl e ↦ rw e (logged f rec ws (marshal rec) refl (rounds_lem f ws))
      | inr e ↦ rw e (rounds_lem f ws)
    ]

    -- From a stream of the administration, with the JSON relied on above, the client prints, in this
    -- order, a blank record for the greeting and then exactly the records that arrived at the stream,
    -- passed its filter and have a JSON text, each as it comes back from JSON.
    pub received-log_stream :
        (q : Query) (now : ℕ) (ws : List Wake)
        → received unmarshal (body_text (log_stream marshal hello q now ws))
          ≡ blank ∷ sent_records (filter_of q) ws
    unfolding log_stream received body_text has_prefix
    received-log_stream q now ws =
        let o = json.hello_object now in
        event_line "hello" (hello now) (body_text (rounds marshal hello (filter_of q) ws)) refl refl
          o.2 (trimmed (hello now) o)
        ∙ rw (json.read_hello now) (ap (λ rs. blank ∷ rs) (rounds_lem (filter_of q) ws))
