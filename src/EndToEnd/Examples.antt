-- ===== src/EndToEnd/Examples.antt =====
-- A record of a domain, behind one dial that fails.
use rassberry.Base.{
  String, List, Option, none, some, [], ◌∷◌, ◌==◌, refl, ap, sym, subst, if◌then◌else◌,
}
use rassberry.Base.Int.{pos}
use rassberry.Telemetry.Record.{LogRecordV2}
use rassberry.Telemetry.Wire.{PushRequest, blank_record}
use rassberry.Admin.Stream.{Query, log}
use rassberry.Supervisor.Backoff.{BackoffPolicy}
use rassberry.Forwarder.{Taken, taken}
use rassberry.Forwarder.Whole.{whole}
use rassberry.Rkctl.Logs.{IsObject, Json}

abbrev pub plain : BackoffPolicy whole
plain = record { min = pos 200_000_000; max = pos 10_000_000_000; factor = 2; jitter = 0 }

abbrev pub from_domain : LogRecordV2
from_domain = record (blank_record 2) { scope = "domain"; kernel_id = "site" }

abbrev pub stream : List (Taken String)
stream = taken (log from_domain) none ∷ []

abbrev pub query : Query
query = record { level = "DEBUG"; kernel = ""; scope = ""; component = "" }

abbrev pub wire : LogRecordV2 → PushRequest
wire rec = record { record_ = none }

abbrev pub unmarshal : String → Option LogRecordV2
unmarshal j = if j == "{}" then some (blank_record 3) else none

abbrev or_nothing : Option String → String
or_nothing none = ""
or_nothing (some s) = s

-- A codec that writes every record, and the greeting, as the empty object.
abbrev pub coarse :
    Json (λ r. some "{}") (λ now. "{}") unmarshal (λ r. blank_record 3) (blank_record 3)
coarse = record {
  record_object = λ r j e. subst IsObject (ap or_nothing e) ("", refl, refl);
  hello_object = λ now. ("", refl, refl);
  read_record = λ r j e. ap unmarshal (sym (ap or_nothing e));
  read_hello = λ now. refl;
  read_empty = refl;
}
