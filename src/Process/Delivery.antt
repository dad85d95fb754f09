-- ===== src/Process/Delivery.antt =====
-- What reaches the receiver of `Logs()`: the lines under way, and the balance of a step.
pub mod Lines
use rassberry.Base.{
  String, Bool, List, Option, true, false, none, some, [], ◌∷◌, ◌++◌, ◌≡◌, ◌==◌, ◌∙◌, refl, sym, ap,
  subst, arith, ◌&&◌, not, if◌then◌else◌, if_both, if_split, Bool-cases, inl, inr, ltb, length,
  append_nil, append_assoc,
}
use rassberry.Process.{
  Origin, stdout, stderr, LogLine, ReaderPlace, scanning, holding, handed_over, finished, Exit,
  ProcessRunner, ProcEvent, Command, StartError, empty_path, emit, start_when, spawned, is_stdout,
  log_capacity, close_logs, started, start, read_pipe, read_at, send_line, mark_ready, watch_exit,
  receive_log, reader_at, put_reader, scanned, rest_of, proc_event, proc_exit, exit_code_of,
  exit_error_of,
}
use rassberry.Telemetry.Filter.{has_prefix}
use rassberry.Process.Invariant.{
  Step, start_step, read_step, exit_step, receive_step, step, steps, IsWellFormed,
}

abbrev pub same_origin : Origin → Origin → Bool
same_origin stdout stdout = true
same_origin stderr stderr = true
same_origin _ _ = false

-- The texts of the lines from `o`, in order.
abbrev pub lines_of : Origin → List LogLine → List String
lines_of o [] = []
lines_of o (l ∷ ls) = if same_origin o l.origin then l.line ∷ lines_of o ls else lines_of o ls

abbrev pub held : ReaderPlace → List String
held (holding line) = line ∷ []
held _ = []

abbrev pub first_of : List LogLine → List LogLine
first_of [] = []
first_of (l ∷ ls) = l ∷ []

abbrev pub as_list : Option String → List String
as_list none = []
as_list (some line) = line ∷ []

abbrev pub fed_at : ReaderPlace → Option String → List String
fed_at scanning answer = as_list answer
fed_at _ answer = []

pub lines_of-append :
    (o : Origin) (xs ys : List LogLine) → lines_of o (xs ++ ys) ≡ lines_of o xs ++ lines_of o ys
lines_of-append o [] ys = refl
lines_of-append o (l ∷ xs) ys = elim (Bool-cases (same_origin o l.origin)) [
  | inl e ↦ rw (e, lines_of-append o xs ys) refl
  | inr e ↦ rw (e, lines_of-append o xs ys) refl
]

pub same_origin_refl : (o : Origin) → same_origin o o ≡ true
same_origin_refl stdout = refl
same_origin_refl stderr = refl

pub first-rest :
    (o : Origin) (ls : List LogLine)
    → lines_of o (first_of ls) ++ lines_of o (rest_of ls) ≡ lines_of o ls
first-rest o [] = refl
first-rest o (l ∷ ls) = sym (lines_of-append o (l ∷ []) ls)

pub held-scanned : (answer : Option String) → held (scanned answer) ≡ as_list answer
held-scanned none = refl
held-scanned (some line) = refl

module _ {E : Type 0} where
  -- What a step takes out of the channel.
  abbrev pub taken : Step E → ProcessRunner E → List LogLine
  taken receive_step p = first_of p.logs
  taken _ p = []

  -- What a step reads from the pipe of `o`.
  abbrev pub fed : Origin → Step E → ProcessRunner E → List String
  fed o (read_step r answer) p =
      if same_origin o r && (started p.cmd && not p.crashed)
      then fed_at (reader_at r p) answer
      else []
  fed o _ p = []

  unfoldable pub all_taken : List (Step E) → ProcessRunner E → List LogLine
  unfolding step
  all_taken [] p = []
  all_taken (x ∷ xs) p = taken x p ++ all_taken xs (step x p)

  unfoldable pub all_fed : Origin → List (Step E) → ProcessRunner E → List String
  unfolding step
  all_fed o [] p = []
  all_fed o (x ∷ xs) p = fed o x p ++ all_fed o xs (step x p)

  -- The lines of `o` that are under way.
  abbrev pub pending : Origin → ProcessRunner E → List String
  pending o p = lines_of o p.logs ++ held (reader_at o p)

  -- The balance of one step.
  abbrev pub Balanced :
      Origin → List LogLine → List String → ProcessRunner E → ProcessRunner E → Type 0
  Balanced o out inn p q = lines_of o out ++ pending o q ≡ pending o p ++ inn

  pub idle-Balanced : (o : Origin) (p : ProcessRunner E) → Balanced o [] [] p p
  idle-Balanced o p = sym (append_nil (pending o p))

  -- What a step that leaves the buffer and the readers alone gives.
  abbrev pub Quiet : ProcessRunner E → ProcessRunner E → Type 0
  Quiet p q = (q.logs ≡ p.logs) × (q.out_at ≡ p.out_at) × (q.err_at ≡ p.err_at)

  pub Quiet-Balanced : (o : Origin) (p q : ProcessRunner E) → Quiet p q → Balanced o [] [] p q
  Quiet-Balanced stdout p q (l, a, b) = rw (l, a) (idle-Balanced stdout p)
  Quiet-Balanced stderr p q (l, a, b) = rw (l, b) (idle-Balanced stderr p)

  pub emit-Quiet : (e : ProcEvent E) (p : ProcessRunner E) → Quiet p (emit e p)
  emit-Quiet e p = (refl, refl, refl)

  pub start-Quiet :
      (environ : List String) (answer : Option E) (p : ProcessRunner E)
      → Quiet p (start environ answer p).0
  unfolding start
  start-Quiet environ answer p = by_command p.cmd
    where
      by_answer :
          (answer : Option E)
          → Quiet p (if p.cmd_path == "" then (p, some empty_path) else spawned environ answer p).0
      by_answer (some x) =
          if_both (λ (r : ProcessRunner E × Option (StartError E)). Quiet p r.0) (p.cmd_path == "")
            (refl, refl, refl) (refl, refl, refl)
      by_answer none =
          if_both (λ (r : ProcessRunner E × Option (StartError E)). Quiet p r.0) (p.cmd_path == "")
            (refl, refl, refl) (refl, refl, refl)

      by_command : (c : Option Command) → Quiet p (start_when environ answer c p).0
      by_command none = by_answer answer
      by_command (some c) = (refl, refl, refl)

  pub watch_exit-Quiet : (x : Exit E) (p : ProcessRunner E) → Quiet p (watch_exit x p)
  unfolding watch_exit
  watch_exit-Quiet x p =
      if_both (Quiet p) (p.waiting && not p.crashed) (refl, refl, refl) (refl, refl, refl)

  pub close_logs-Quiet : (p : ProcessRunner E) → Quiet p (close_logs p)
  unfolding close_logs
  close_logs-Quiet p =
      if_both (Quiet p) (p.closing && not p.crashed) (refl, refl, refl) (refl, refl, refl)

  pub pending_logs :
      (o : Origin) (ls : List LogLine) (p : ProcessRunner E)
      → pending o (record p { logs = ls }) ≡ lines_of o ls ++ held (reader_at o p)
  pending_logs stdout ls p = refl
  pending_logs stderr ls p = refl

  pub receive_log-Balanced :
      (o : Origin) (p : ProcessRunner E) → Balanced o (first_of p.logs) [] p (receive_log p)
  unfolding receive_log
  receive_log-Balanced o p = rw (pending_logs o (rest_of p.logs) p) (
      sym (
        append_assoc (lines_of o (first_of p.logs)) (lines_of o (rest_of p.logs))
          (held (reader_at o p)))
      ∙ ap (λ l. l ++ held (reader_at o p)) (first-rest o p.logs)
      ∙ sym (append_nil (pending o p)))

  pub put_own :
      (o : Origin) (at : ReaderPlace) (p : ProcessRunner E)
      → pending o (put_reader o at p) ≡ lines_of o p.logs ++ held at
  put_own stdout at p = refl
  put_own stderr at p = refl

  pub put_other :
      (o r : Origin) (at : ReaderPlace) (p : ProcessRunner E)
      → same_origin o r ≡ false
      → pending o (put_reader r at p) ≡ pending o p
  put_other stdout stderr at p h = refl
  put_other stderr stdout at p h = refl
  put_other stdout stdout at p h = cc
  put_other stderr stderr at p h = cc

  -- A reader moves from a place without a line.
  pub move-Balanced :
      (o : Origin) (at : ReaderPlace) (p q : ProcessRunner E)
      → Quiet p q
      → held (reader_at o p) ≡ []
      → Balanced o [] (held at) p (put_reader o at q)
  move-Balanced o at p q (l, a, b) h =
      rw (put_own o at q, l, h, append_nil (lines_of o p.logs)) refl
