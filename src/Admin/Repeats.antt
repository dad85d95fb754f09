-- ===== src/Admin/Repeats.antt =====
-- One record on its way from the log hub, through the topics of the bus, into a stream of the
-- administration.
pub mod OverBus
use Prim.Native.String.{String, ◌++◌}
use text.Mathlib.TextLemmas.{append_assoc, append-nil, append_cancel_left, append-eq-nil_iff}
use rassberry.Base.{
  ℕ, Bool, List, Option, true, false, [], ◌∷◌, ◌≡◌, ◌≢◌, ◌==◌, refl, sym, ap, ◌∙◌, ◌+◌, ◌≤◌, arith,
  if◌then◌else◌, ne_of_false, differ, eq_refl, eq_iff, Bool-cases, inl, inr, length,
}
use rassberry.Telemetry.Record.{LogRecordV2, scope_topic_of}
use rassberry.Telemetry.Filter.{LogFilter, match_v2, match_v2-Passes}
use rassberry.Telemetry.Gateway.{topic_all, topic_root, hub_publish}
use rassberry.Admin.Stream.{Wake, arrived, log, topics_of, on_wake, rounds}

-- What subscriptions to the topics give of what is published, if none is ever full.
abbrev copies_of : List String → String → LogRecordV2 → List Wake → List Wake
copies_of [] t rec ws = ws
copies_of (u ∷ us) t rec ws =
    if u == t then arrived (log rec) ∷ copies_of us t rec ws else copies_of us t rec ws

abbrev pub arrivals : List String → List (String × LogRecordV2) → List Wake
arrivals us [] = []
arrivals us ((t, rec) ∷ ms) = copies_of us t rec (arrivals us ms)

-- How many of the topics are `t`.
abbrev hits : List String → String → ℕ
hits [] t = 0
hits (u ∷ us) t = if u == t then 1 + hits us t else hits us t

pub all_not_scope : (s : String) → topic_all ≢ scope_topic_of s
all_not_scope s e =
    let p : "" ≡ "." ++ s =
      append_cancel_left "telemetry.logs" "" ("." ++ s)
        (append-nil "telemetry.logs" ∙ e ∙ append_assoc "telemetry.logs" "." s) in
    differ "." "" refl (append-eq-nil_iff.0 (sym p)).0

scope_root : (s : String) → (scope_topic_of s == topic_root) ≡ (s == "root")
scope_root s = ground (
  arith,
  eq_iff (scope_topic_of s) topic_root,
  eq_iff s "root",
  λ (e : scope_topic_of s ≡ topic_root). append_cancel_left "telemetry.logs." s "root" e,
  λ (e : s ≡ "root"). ap scope_topic_of e,
)

pub hub_publish-length : (rec : LogRecordV2) → length (hub_publish true rec) ≤ 3
unfolding hub_publish
hub_publish-length rec = ground arith

no_scope : (b : Bool) → ◌≡◌ {A = ℕ} (1 + 0 + (if b then 0 else 0)) 1
no_scope true = refl
no_scope false = refl

with_scope : (b : Bool) → ◌≡◌ {A = ℕ} (1 + (if b then 1 else 0) + 1) (if b then 3 else 2)
with_scope true = refl
with_scope false = refl

module _ (marshal : LogRecordV2 → Option String) (hello : ℕ → String) where
  -- How often the stream writes a record that the hub publishes once.
  abbrev writes_for : LogFilter → LogRecordV2 → List String → ℕ
  writes_for f rec us = length (rounds marshal hello f (arrivals us (hub_publish true rec)))

  rounds-copies_of :
      (f : LogFilter) (rec : LogRecordV2) (us : List String) (t : String) (ws : List Wake)
      → match_v2 f rec ≡ true
      → length (rounds marshal hello f (copies_of us t rec ws))
        ≡ hits us t + length (rounds marshal hello f ws)
  unfolding rounds on_wake
  rounds-copies_of f rec [] t ws h = omega arith
  rounds-copies_of f rec (u ∷ us) t ws h = elim (Bool-cases (u == t)) [
    | inl e ↦ rw (e, h) (omega (arith, rounds-copies_of f rec us t ws h))
    | inr e ↦ rw e (rounds-copies_of f rec us t ws h)
  ]

  hub_hits :
      (f : LogFilter) (rec : LogRecordV2) (us : List String)
      → match_v2 f rec ≡ true
      → length (rounds marshal hello f (arrivals us (hub_publish true rec)))
        ≡ hits us topic_all
          + hits us topic_root
          + (if rec.scope == "" then 0 else hits us (scope_topic_of rec.scope))
  unfolding rounds hub_publish
  hub_hits f rec us h = elim (Bool-cases (rec.scope == "")) [
    | inl e ↦ rw e (
        omega (
          arith,
          rounds-copies_of f rec us topic_all (copies_of us topic_root rec []) h,
          rounds-copies_of f rec us topic_root [] h,
        ))
    | inr e ↦ rw e (
        omega (
          arith,
          rounds-copies_of f rec us topic_all
              (copies_of us topic_root rec (copies_of us (scope_topic_of rec.scope) rec [])) h,
          rounds-copies_of f rec us topic_root (copies_of us (scope_topic_of rec.scope) rec []) h,
          rounds-copies_of f rec us (scope_topic_of rec.scope) [] h,
        ))
  ]

  -- The topics count one by one.
  pub arrivals_apart :
      (f : LogFilter) (rec : LogRecordV2) (u : String) (us : List String)
      → match_v2 f rec ≡ true
      → writes_for f rec (u ∷ us) ≡ writes_for f rec (u ∷ []) + writes_for f rec us
  arrivals_apart f rec u us h =
      let a = hub_hits f rec (u ∷ us) h in
      let b = hub_hits f rec (u ∷ []) h in let c = hub_hits f rec us h in ground (arith, a, b, c)

  -- How often a record that passes the filter is written if nothing is dropped on the way.
  pub arrivals_repeat :
      (f : LogFilter) (rec : LogRecordV2)
      → match_v2 f rec ≡ true
      → writes_for f rec (topics_of f)
        ≡ (if f.scope == "" then 1 else if f.scope == "root" then 3 else 2)
  unfolding topics_of
  arrivals_repeat f rec h =
      let x = hub_hits f rec (topics_of f) h in
      let a = ne_of_false topic_all (scope_topic_of rec.scope) (all_not_scope rec.scope) in
      let b = ne_of_false (scope_topic_of f.scope) topic_all (λ e. all_not_scope f.scope (sym e)) in
      let r = scope_root f.scope in
      let s = ((match_v2-Passes f rec).0 h).in_scope in
      elim (Bool-cases (f.scope == "")) [
        | inl e ↦ x ∙ rw (e, a) (no_scope (rec.scope == ""))
        | inr e ↦ elim s [
          | inl p ↦ absurd (differ f.scope "" e p)
          | inr p ↦
              x
              ∙ rw
                  (
                    p,
                    e,
                    b,
                    ne_of_false topic_all (scope_topic_of f.scope) (all_not_scope f.scope),
                    r,
                    eq_refl (scope_topic_of f.scope),
                  )
                  (with_scope (f.scope == "root"))
        ]
      ]
