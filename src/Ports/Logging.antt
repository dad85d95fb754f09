-- ===== src/Ports/Logging.antt =====
-- What tee loggers (platform/ports/tee_logger_gen.go) give the subscribers of a bus inside the process.
use rassberry.Base.{
  ℕ, String, List, true, false, [], ◌∷◌, ◌++◌, ◌+◌, ◌≤◌, ◌<◌, ◌≡◌, ◌==◌, refl, sym, ap, ◌∙◌, arith,
  map, length, length-append, ltb, All, append_assoc, append_nil, Bool-cases, inl, inr,
}
use rassberry.Base.Maps.{Map}
use rassberry.Contracts.{AnyValue}
use rassberry.Telemetry.Record.{LogRecordV2}
use rassberry.Telemetry.Gateway.{topic_all}
use rassberry.Telemetry.TeeLogger.{TeeLogger, tee_log, tee_record, tee_topics, spells_low}
use rassberry.Admin.Stream.{Message, log}
use rassberry.Ports.{EventBus, InProcess}

-- A call of `Log` of a tee logger; the clock is read once.
pub record LogCall (C : Type 0) : Type 0 where
  pub ctx : C
  pub logger : TeeLogger
  pub level : String
  pub message : String
  pub fields : Map AnyValue
  pub now : ℕ

abbrev pub record_of : {C : Type 0} → LogCall C → LogRecordV2
record_of c = tee_record c.logger c.level c.message c.fields c.now

-- The topics behind the first one are not the general one.
abbrev Other : String → Type 0
Other t = (t == topic_all) ≡ false

scope_topics :
    (scope : String) → (rest : List String) × (tee_topics scope ≡ topic_all ∷ rest) × All Other rest
unfolding tee_topics
scope_topics scope = elim (Bool-cases (spells_low scope "root")) [
  | inl e ↦ ("telemetry.logs.root" ∷ [], rw e refl, (refl, tt))
  | inr e ↦ elim (Bool-cases (spells_low scope "domain")) [
    | inl f ↦ ("telemetry.logs.domain" ∷ [], rw (e, f) refl, (refl, tt))
    | inr f ↦ elim (Bool-cases (spells_low scope "function")) [
      | inl g ↦ ("telemetry.logs.function" ∷ [], rw (e, f, g) refl, (refl, tt))
      | inr g ↦ ([], rw (e, f, g) refl, tt)
    ]
  ]
]

module _ {C : Type 0} (port : EventBus C Message) where
  open port use {Bus, publish}

  unfoldable pub give : C → List (String × LogRecordV2) → Bus → Bus
  give ctx [] b = b
  give ctx ((t, rec) ∷ ms) b = give ctx ms (publish ctx t (log rec) b).0

  unfoldable pub log_call : LogCall C → Bus → Bus
  log_call c b = give c.ctx (tee_log c.logger c.level c.message c.fields c.now) b

  unfoldable pub log_calls : List (LogCall C) → Bus → Bus
  log_calls [] b = b
  log_calls (c ∷ cs) b = log_calls cs (log_call c b)

  log_call-topics :
      (c : LogCall C) (ts : List String) (b : Bus)
      → c.logger.on ≡ true
      → tee_topics c.logger.scope ≡ ts
      → log_call c b ≡ give c.ctx (map (λ t. (t, record_of c)) ts) b
  unfolding log_call tee_log
  log_call-topics c ts b on e = rw (on, e) refl

  module _ (laws : InProcess port) where
    open laws use {room, pending, IsOpen, IsAlive, publish_keeps, publish_fills}

    give-Other :
        (ctx : C) (rec : LogRecordV2) (ts : List String) (i : ℕ) (b : Bus)
        → IsAlive ctx
        → All Other ts
        → IsOpen topic_all i b
        → IsOpen topic_all i (give ctx (map (λ t. (t, rec)) ts) b)
          × (pending i (give ctx (map (λ t. (t, rec)) ts) b) ≡ pending i b)
    unfolding give
    give-Other ctx rec [] i b a h o = (o, refl)
    give-Other ctx rec (t ∷ ts) i b a h o =
        let (p, e) =
          give-Other ctx rec ts i (publish ctx t (log rec) b).0 a h.1
            (publish_keeps ctx t topic_all i (log rec) b a o) in
        (p, e ∙ publish_fills ctx t topic_all i (log rec) b a o ∙ rw h.0 refl)

    log_call-pending :
        (c : LogCall C) (i : ℕ) (b : Bus)
        → c.logger.on ≡ true
        → IsAlive c.ctx
        → IsOpen topic_all i b
        → length (pending i b) < room
        → IsOpen topic_all i (log_call c b)
          × (pending i (log_call c b) ≡ pending i b ++ log (record_of c) ∷ [])
    unfolding give
    log_call-pending c i b on a o r =
        let (rest, e, h) = scope_topics c.logger.scope in
        let first = (publish c.ctx topic_all (log (record_of c)) b).0 in
        let (p, q) =
          give-Other c.ctx (record_of c) rest i first a h
            (publish_keeps c.ctx topic_all topic_all i (log (record_of c)) b a o) in
        let f = publish_fills c.ctx topic_all topic_all i (log (record_of c)) b a o in
        let room_left : ltb (length (pending i b)) room ≡ true = ground arith in
        rw (log_call-topics c (topic_all ∷ rest) b on e) (p, q ∙ f ∙ rw room_left refl)

    -- A channel of the general topic that has room for them receives the record of every call.
    pub log_calls-pending :
        (cs : List (LogCall C)) (i : ℕ) (b : Bus)
        → All (λ c. (c.logger.on ≡ true) × IsAlive c.ctx) cs
        → IsOpen topic_all i b
        → length (pending i b) + length cs ≤ room
        → pending i (log_calls cs b) ≡ pending i b ++ map (λ c. log (record_of c)) cs
    unfolding log_calls
    log_calls-pending [] i b on o r = sym (append_nil (pending i b))
    log_calls-pending (c ∷ cs) i b on o r =
        let (p, e) = log_call-pending c i b on.0.0 on.0.1 o (omega arith) in
        let n : length (pending i (log_call c b)) ≡ length (pending i b) + 1 =
          ap length e ∙ length-append (pending i b) (log (record_of c) ∷ []) in
        log_calls-pending cs i (log_call c b) on.1 p (omega (arith, n, r))
        ∙ ap (λ q. q ++ map (λ c. log (record_of c)) cs) e
        ∙ append_assoc (pending i b) (log (record_of c) ∷ []) (map (λ c. log (record_of c)) cs)
