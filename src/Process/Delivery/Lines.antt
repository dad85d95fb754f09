-- ===== src/Process/Delivery/Lines.antt =====
-- The balance of the readers, and of every sequence of steps.
use rassberry.Base.{
  String, Bool, List, Option, none, true, false, ◌==◌, [], ◌∷◌, ◌++◌, ◌≡◌, ◌∙◌, refl, sym, ap,
  subst, ◌&&◌, not, if◌then◌else◌, if_both, Bool-cases, inl, inr, ltb, length, append_nil,
  append_assoc,
}
use rassberry.Process.{
  Origin, stdout, stderr, ReaderPlace, scanning, holding, handed_over, finished, ProcessRunner,
  log_capacity, started, start, read_pipe, read_at, send_line, watch_exit, reader_at, put_reader,
  scanned, announcing, emit, proc_event, proc_ready, close_logs, is_stdout, ProcEvent,
}
use rassberry.Base.Int.{pos}
use rassberry.Telemetry.Filter.{has_prefix}
use rassberry.Process.Invariant.{
  Step, start_step, read_step, exit_step, close_step, receive_step, step, steps,
}
use rassberry.Process.Delivery.{
  same_origin, lines_of, held, fed_at, lines_of-append, same_origin_refl, held-scanned, taken, fed,
  all_taken, all_fed, pending, Balanced, idle-Balanced, Quiet-Balanced, start-Quiet,
  watch_exit-Quiet, pending_logs, receive_log-Balanced, put_own, put_other, move-Balanced,
  emit-Quiet, close_logs-Quiet,
}

module _ {E : Type 0} where
  send_own :
      (o : Origin) (line : String) (p : ProcessRunner E)
      → reader_at o p ≡ holding line
      → Balanced o [] [] p (send_line o line p)
  send_own o line p e =
      if_both (Balanced o [] [] p) p.logs_closed (Quiet-Balanced o p _ (refl, refl, refl)) (
        if_both (Balanced o [] [] p) (ltb (length p.logs) log_capacity)
          (put_own o (handed_over line)
              (record p { logs = p.logs ++ record { origin = o; line = line } ∷ [] })
            ∙ rw
                (
                  lines_of-append o p.logs (record { origin = o; line = line } ∷ []),
                  same_origin_refl o,
                  ap held e,
                )
                refl)
          (idle-Balanced o p))

  send_other :
      (o r : Origin) (line : String) (p : ProcessRunner E)
      → same_origin o r ≡ false
      → Balanced o [] [] p (send_line r line p)
  send_other o r line p e =
      if_both (Balanced o [] [] p) p.logs_closed (Quiet-Balanced o p _ (refl, refl, refl)) (
        if_both (Balanced o [] [] p) (ltb (length p.logs) log_capacity)
          (put_other o r (handed_over line)
              (record p { logs = p.logs ++ record { origin = r; line = line } ∷ [] }) e
            ∙ pending_logs o (p.logs ++ record { origin = r; line = line } ∷ []) p
            ∙ rw
                (
                  lines_of-append o p.logs (record { origin = r; line = line } ∷ []),
                  e,
                  append_nil (lines_of o p.logs),
                  append_nil (lines_of o p.logs ++ held (reader_at o p)),
                )
                refl)
          (idle-Balanced o p))

  read_own :
      (o : Origin) (answer : Option String) (at : ReaderPlace) (p : ProcessRunner E)
      → reader_at o p ≡ at
      → Balanced o [] (fed_at at answer) p (read_at o answer at p)
  read_own o answer scanning p e =
      subst (λ i. Balanced o [] i p (put_reader o (scanned answer) p)) (held-scanned answer)
        (move-Balanced o (scanned answer) p p (refl, refl, refl) (ap held e))
  read_own o answer (holding line) p e = send_own o line p e
  read_own o answer (handed_over line) p e =
      if_both (Balanced o [] [] p)
        (is_stdout o && (not (p.ready_prefix == "") && has_prefix line p.ready_prefix))
        (move-Balanced o (announcing line) p (record p { ready = true }) (refl, refl, refl)
          (ap held e))
        (move-Balanced o scanning p p (refl, refl, refl) (ap held e))
  read_own o answer (announcing line) p e =
      let ev : ProcEvent E = proc_event proc_ready (pos 0) none line in
      move-Balanced o scanning p (emit ev p) (emit-Quiet ev p) (ap held e)
  read_own o answer finished p e = idle-Balanced o p

  read_other :
      (o r : Origin) (answer : Option String) (at : ReaderPlace) (p : ProcessRunner E)
      → same_origin o r ≡ false
      → Balanced o [] [] p (read_at r answer at p)
  read_other o r answer scanning p e = put_other o r (scanned answer) p e ∙ idle-Balanced o p
  read_other o r answer (holding line) p e = send_other o r line p e
  read_other o r answer (handed_over line) p e =
      if_both (Balanced o [] [] p)
        (is_stdout r && (not (p.ready_prefix == "") && has_prefix line p.ready_prefix))
        (put_other o r (announcing line) (record p { ready = true }) e
          ∙ Quiet-Balanced o p (record p { ready = true }) (refl, refl, refl))
        (put_other o r scanning p e ∙ idle-Balanced o p)
  read_other o r answer (announcing line) p e =
      let ev : ProcEvent E = proc_event proc_ready (pos 0) none line in
      put_other o r scanning (emit ev p) e ∙ Quiet-Balanced o p (emit ev p) (emit-Quiet ev p)
  read_other o r answer finished p e = idle-Balanced o p

  read_pipe-Balanced :
      (o r : Origin) (answer : Option String) (p : ProcessRunner E)
      → Balanced o [] (fed o (read_step r answer) p) p (read_pipe r answer p)
  unfolding read_pipe
  read_pipe-Balanced o r answer p = elim (Bool-cases (started p.cmd && not p.crashed)) [
    | inl e ↦ rw e (by_origin o r)
    | inr e ↦ rw (e, only_if (same_origin o r)) (idle-Balanced o p)
  ]
    where
      only_if : (b : Bool) → (if b && false then fed_at (reader_at r p) answer else []) ≡ []
      only_if true = refl
      only_if false = refl

      by_origin :
          (o r : Origin)
          → Balanced o []
              (if same_origin o r && true then fed_at (reader_at r p) answer else [])
              p
              (read_at r answer (reader_at r p) p)
      by_origin stdout stdout = read_own stdout answer p.out_at p refl
      by_origin stderr stderr = read_own stderr answer p.err_at p refl
      by_origin stdout stderr = read_other stdout stderr answer p.err_at p refl
      by_origin stderr stdout = read_other stderr stdout answer p.out_at p refl

  step-Balanced :
      (o : Origin) (x : Step E) (p : ProcessRunner E)
      → Balanced o (taken x p) (fed o x p) p (step x p)
  unfolding step
  step-Balanced o (start_step environ answer) p =
      Quiet-Balanced o p (start environ answer p).0 (start-Quiet environ answer p)
  step-Balanced o (read_step r answer) p = read_pipe-Balanced o r answer p
  step-Balanced o (exit_step x) p = Quiet-Balanced o p (watch_exit x p) (watch_exit-Quiet x p)
  step-Balanced o close_step p = Quiet-Balanced o p (close_logs p) (close_logs-Quiet p)
  step-Balanced o receive_step p = receive_log-Balanced o p

  -- Of the lines of `o`, however the steps follow each other, those that the receiver has taken,
  -- those in the buffer and the one that the reader holds are, in this order, those that were under
  -- way at the start and those that the reader has read since: no line is lost, changed or moved.
  pub steps-lines :
      (o : Origin) (xs : List (Step E)) (p : ProcessRunner E)
      → lines_of o (all_taken xs p) ++ pending o (steps xs p) ≡ pending o p ++ all_fed o xs p
  unfolding steps all_taken all_fed
  steps-lines o [] p = idle-Balanced o p
  steps-lines o (x ∷ xs) p = rw (lines_of-append o (taken x p) (all_taken xs (step x p))) (
      append_assoc (lines_of o (taken x p)) (lines_of o (all_taken xs (step x p)))
        (pending o (steps xs (step x p)))
      ∙ ap (λ l. lines_of o (taken x p) ++ l) (steps-lines o xs (step x p))
      ∙ sym (append_assoc (lines_of o (taken x p)) (pending o (step x p)) (all_fed o xs (step x p)))
      ∙ ap (λ l. l ++ all_fed o xs (step x p)) (step-Balanced o x p)
      ∙ append_assoc (pending o p) (fed o x p) (all_fed o xs (step x p)))
