-- ===== src/Process/Address.antt =====
-- The address of a runner's probe, which no step changes.
use rassberry.Base.{
  String, List, Option, none, some, ◌≡◌, ◌==◌, ◌∙◌, refl, ◌&&◌, not, if◌then◌else◌, if_both, ltb,
  length, [], ◌∷◌,
}
use rassberry.Telemetry.Filter.{has_prefix}
use rassberry.Process.{
  Origin, stdout, stderr, ReaderPlace, scanning, holding, handed_over, announcing, finished,
  ProcessRunner, Command, StartError, empty_path, start, start_when, spawned, started, is_stdout,
  log_capacity, scanned, read_pipe, read_at, reader_at, put_reader, watch_exit, close_logs,
  receive_log,
}
use rassberry.Process.Invariant.{
  Step, start_step, read_step, exit_step, close_step, receive_step, step, steps,
}

module _ {E : Type 0} where
  abbrev SameAddress : ProcessRunner E → ProcessRunner E → Type 0
  SameAddress p q = q.health_url ≡ p.health_url

  put_reader-SameAddress :
      (o : Origin) (at : ReaderPlace) (p : ProcessRunner E)
      → (put_reader o at p).health_url ≡ p.health_url
  put_reader-SameAddress stdout at p = refl
  put_reader-SameAddress stderr at p = refl

  start-SameAddress :
      (environ : List String) (answer : Option E) (p : ProcessRunner E)
      → SameAddress p (start environ answer p).0
  unfolding start
  start-SameAddress environ answer p = by_command p.cmd
    where
      by_answer :
          (answer : Option E)
          → SameAddress p
              (if p.cmd_path == "" then (p, some empty_path) else spawned environ answer p).0
      by_answer (some x) =
          if_both (λ (r : ProcessRunner E × Option (StartError E)). SameAddress p r.0)
            (p.cmd_path == "") refl refl
      by_answer none =
          if_both (λ (r : ProcessRunner E × Option (StartError E)). SameAddress p r.0)
            (p.cmd_path == "") refl refl

      by_command : (c : Option Command) → SameAddress p (start_when environ answer c p).0
      by_command none = by_answer answer
      by_command (some c) = refl

  read_at-SameAddress :
      (o : Origin) (answer : Option String) (at : ReaderPlace) (p : ProcessRunner E)
      → SameAddress p (read_at o answer at p)
  read_at-SameAddress o answer scanning p = put_reader-SameAddress o (scanned answer) p
  read_at-SameAddress o answer (holding line) p = if_both (SameAddress p) p.logs_closed refl (
      if_both (SameAddress p) (ltb (length p.logs) log_capacity)
        (put_reader-SameAddress o (handed_over line) _) refl)
  read_at-SameAddress o answer (handed_over line) p =
      if_both (SameAddress p)
        (is_stdout o && (not (p.ready_prefix == "") && has_prefix line p.ready_prefix))
        (put_reader-SameAddress o (announcing line) _) (put_reader-SameAddress o scanning p)
  read_at-SameAddress o answer (announcing line) p = put_reader-SameAddress o scanning _
  read_at-SameAddress o answer finished p = refl

  step-SameAddress : (x : Step E) (p : ProcessRunner E) → SameAddress p (step x p)
  unfolding step read_pipe watch_exit close_logs receive_log
  step-SameAddress (start_step environ answer) p = start-SameAddress environ answer p
  step-SameAddress (read_step o answer) p =
      if_both (SameAddress p) (started p.cmd && not p.crashed)
        (read_at-SameAddress o answer (reader_at o p) p) refl
  step-SameAddress (exit_step x) p = if_both (SameAddress p) (p.waiting && not p.crashed) refl refl
  step-SameAddress close_step p = if_both (SameAddress p) (p.closing && not p.crashed) refl refl
  step-SameAddress receive_step p = refl

  pub steps-address :
      (xs : List (Step E)) (p : ProcessRunner E) → (steps xs p).health_url ≡ p.health_url
  unfolding steps
  steps-address [] p = refl
  steps-address (x ∷ xs) p = steps-address xs (step x p) ∙ step-SameAddress x p
