-- ===== src/StdLogger.antt =====
-- cmd/rk/logger_gen.go: what the standard logger prints. JSON and the formatting of times are the
-- library's: `marshal` is `none` on an error, and `now` is the time as RFC 3339 writes it.
use Prim.Native.String.{◌++◌}
use rassberry.Base.{String, Option, none, some, [], ◌∷◌, ◌==◌, if◌then◌else◌}
use rassberry.Base.Maps.{Map}
use rassberry.Contracts.{AnyValue}
use rassberry.Text.{join, pad}

pub record StdLogger : Type 0 where
  pub prefix : String

abbrev or_blank : Option String → String
or_blank none = ""
or_blank (some s) = s

module _ (marshal : Map AnyValue → Option String) where
  abbrev pub payload : Map AnyValue → String
  payload [] = ""
  payload (f ∷ fields) = or_blank (marshal (f ∷ fields))

  -- `none` is a nil logger.
  unfoldable pub std_log : Option StdLogger → String → String → Map AnyValue → String → String
  std_log none level message fields now = ""
  std_log (some l) level message fields now =
      let p = payload fields in
      join (now ∷ " " ∷ pad 5 level ∷ " " ∷ l.prefix ∷ " " ∷ message ∷ "\n" ∷ [])
      ++ (if p == "" then "" else join ("  " ∷ " " ∷ p ∷ "\n" ∷ []))
