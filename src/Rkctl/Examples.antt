-- ===== src/Rkctl/Examples.antt =====
-- Commands of the client, and a stream with a greeting, a record and a comment.
use rassberry.Base.{
  String, List, Option, none, some, [], ◌∷◌, ◌≡◌, ◌==◌, refl, arith, ap, sym, subst, differ,
  if◌then◌else◌,
}
use rassberry.Base.Maps.{lookup}
use rassberry.Telemetry.Record.{LogRecordV2}
use rassberry.Telemetry.Wire.{blank_record}
use rassberry.Registry.{new_discovery_registry}
use rassberry.Admin.{AdminServer, new_admin_server, Clock, respond, accepted, drained, put_health}
use rassberry.Admin.Stream.{Query, arrived, log, keep_alive, Wake, body_text, log_stream, filter_of}
use rassberry.Rkctl.{main, kernels_action, url_query_esc, base_url, cmd_kernels_action, received}
use rassberry.Rkctl.Actions.{
  restart, drain, deliver, health_of, cmd_kernels_action-marks, cmd_kernels_action-slash,
}
use rassberry.Rkctl.Logs.{IsObject, sent_records, received-log_stream}
use rassberry.Text.{trim_right}

main_restarts :
    main ("rkctl" ∷ "kernels" ∷ "restart" ∷ "--id" ∷ []) ≡ kernels_action ("--id" ∷ []) "restart"
unfolding main
main_restarts = refl

escapes : url_query_esc "a b#c" ≡ "a%20b%23c"
unfolding url_query_esc
escapes = refl

abbrev server : AdminServer
server = new_admin_server new_discovery_registry

abbrev clock : Clock
clock = record { handler = 5; since = 6; registered = 7; updated = 8 }

abbrev served : String → String
served url =
    if url == "http://h/admin/kernels/site/drain"
    then "/admin/kernels/site/drain"
    else "/admin/kernels/site/drain/restart"

cmd_kernels_action-marks_example :
    let r = deliver served (cmd_kernels_action "http://h/" "site" "drain") clock server in
    (r.1 ≡ some (respond 202 (accepted "drain" "site")))
    × (health_of (lookup "site" r.0.reg.kernels) ≡ some (drained 5))
    × (lookup "rk" r.0.reg.kernels ≡ lookup "rk" server.reg.kernels)
unfolding base_url trim_right
cmd_kernels_action-marks_example =
    cmd_kernels_action-marks drain "http://h/" "site" "rk" served clock server
      (differ "site" "" refl) refl refl (omega arith) (differ "site" "rk" refl)

cmd_kernels_action-slash_example :
    deliver served (cmd_kernels_action "http://h/" "site/drain" "restart") clock server
    ≡ (put_health "site" (drained 5) clock server, some (respond 202 (accepted "drain" "site")))
unfolding base_url trim_right
cmd_kernels_action-slash_example =
    cmd_kernels_action-slash restart drain "http://h/" "site" served clock server refl refl

abbrev rec : LogRecordV2
rec = blank_record 3

abbrev query : Query
query = record { level = "DEBUG"; kernel = ""; scope = ""; component = "" }

abbrev hello_text : String
hello_text = "{hello}"

abbrev unmarshal : String → Option LogRecordV2
unmarshal j =
    if j == "{}"
    then some (blank_record 3)
    else if j == "{hello}"
    then some (blank_record 0)
    else none

abbrev or_text_of : String → Option String → String
or_text_of d none = d
or_text_of d (some s) = s

abbrev wakes : List Wake
wakes = keep_alive ∷ arrived (log rec) ∷ []

received-log_stream_example :
    received unmarshal (body_text (log_stream (λ r. some "{}") (λ now. hello_text) query 1 wakes))
    ≡ blank_record 0
      ∷ sent_records
          (λ r. some "{}")
          (λ now. hello_text)
          unmarshal
          (λ r. blank_record 3)
          (filter_of query)
          wakes
received-log_stream_example =
    received-log_stream (λ r. some "{}") (λ now. hello_text) unmarshal (λ r. blank_record 3)
      (blank_record 0)
      (record {
        record_object = λ r j e. subst IsObject (ap (or_text_of "") e) ("", refl, refl);
        hello_object = λ now. ("hello", refl, refl);
        read_record = λ r j e. ap unmarshal (sym (ap (or_text_of "") e));
        read_hello = λ now. refl;
        read_empty = refl;
      })
      query 1 wakes
