-- ===== src/Process/Invariant/Kept.antt =====
-- Each call, and each turn of a goroutine, keeps the invariant.
use rassberry.Base.{
  String, List, Option, none, some, [], ◌∷◌, ◌++◌, ◌≤◌, ◌≡◌, ◌==◌, refl, ap, ◌∙◌, arith, ◌&&◌, not,
  if◌then◌else◌, ltb, length, length-append, if_both, if_split, ◌⊎◌, inl, inr, subst, ◌+◌, true,
}
use rassberry.Base.Int.{pos}
use rassberry.Telemetry.Filter.{has_prefix}
use rassberry.Text.{path_base}
use rassberry.Process.{
  Origin, stdout, stderr, LogLine, proc_start, proc_exit, proc_ready, ProcEvent, ReaderPlace,
  scanning, holding, handed_over, finished, Exit, StartError, ProcessRunner, Command, started,
  start, start_when, spawned, empty_path, proc_event, scanned, is_stdout, rest_of, exit_code_of,
  exit_error_of, read_pipe, read_at, send_line, mark_ready, watch_exit, receive_log, reader_at,
  put_reader, log_capacity, announcing, announce, emit, close_logs,
}
use rassberry.Process.Invariant.{
  is_start, is_exit, is_ready, IsWellFormed, Fits, one_at, tally, tally-emit, Explained-emit,
}

module _ {E : Type 0} where
  spawned-IsWellFormed :
      (environ : List String) (p : ProcessRunner E)
      → p.cmd ≡ none
      → IsWellFormed p
      → IsWellFormed (spawned environ none p).0
  spawned-IsWellFormed environ p e w =
      let ev : ProcEvent E = proc_event proc_start (pos 0) none (path_base p.cmd_path) in
      let n = ap started e in
      let a = tally-emit is_start ev p in
      let b = tally-emit is_exit ev p in
      let c = tally-emit is_ready ev p in
      record {
        bounded = w.bounded;
        start_once = ground (arith, a, n, w.start_once);
        exit_once = b ∙ ground (arith, w.exit_once);
        closed = ground (arith, n, w.used, w.closed);
        used = λ h. refl;
        closes_once = w.closes_once;
        out_fits = w.out_fits;
        err_fits = w.err_fits;
        explained = Explained-emit ev p (λ h. cc) w.explained;
        announced = λ h o. ground (arith, c, w.announced h o);
        safe = w.safe;
      }

  pub start-IsWellFormed :
      (environ : List String) (answer : Option E) (p : ProcessRunner E)
      → IsWellFormed p
      → IsWellFormed (start environ answer p).0
  unfolding start
  start-IsWellFormed environ answer p w = by_command p.cmd refl
    where
      by_answer :
          (answer : Option E)
          → p.cmd ≡ none
          → IsWellFormed
              (if p.cmd_path == "" then (p, some empty_path) else spawned environ answer p).0
      by_answer (some x) e =
          if_both (λ (r : ProcessRunner E × Option (StartError E)). IsWellFormed r.0)
            (p.cmd_path == "") w w
      by_answer none e =
          if_both (λ (r : ProcessRunner E × Option (StartError E)). IsWellFormed r.0)
            (p.cmd_path == "") w (spawned-IsWellFormed environ p e w)

      by_command : (c : Option Command) → p.cmd ≡ c → IsWellFormed (start_when environ answer c p).0
      by_command none e = by_answer answer e
      by_command (some c) e = w

  -- A reader goes on: with a line that has the prefix if it is about to report it, and with the
  -- readiness reported if it was.
  put_reader-IsWellFormed :
      (o : Origin) (at : ReaderPlace) (p : ProcessRunner E)
      → Fits p.ready_prefix at
      → (p.ready ≡ true → p.on ≡ true → 1 ≤ tally is_ready p.events + one_at at)
        ⊎ (one_at (reader_at o p) ≡ 0)
      → IsWellFormed p
      → IsWellFormed (put_reader o at p)
  put_reader-IsWellFormed stdout at p f a w = record {
    bounded = w.bounded;
    start_once = w.start_once;
    exit_once = w.exit_once;
    closed = w.closed;
    used = w.used;
    closes_once = w.closes_once;
    out_fits = f;
    err_fits = w.err_fits;
    explained = w.explained;
    announced =
        λ h x. elim a [ inl g ↦ omega (arith, g h x) | inr z ↦ omega (arith, z, w.announced h x) ];
    safe = w.safe;
  }
  put_reader-IsWellFormed stderr at p f a w = record {
    bounded = w.bounded;
    start_once = w.start_once;
    exit_once = w.exit_once;
    closed = w.closed;
    used = w.used;
    closes_once = w.closes_once;
    out_fits = w.out_fits;
    err_fits = f;
    explained = w.explained;
    announced =
        λ h x. elim a [ inl g ↦ omega (arith, g h x) | inr z ↦ omega (arith, z, w.announced h x) ];
    safe = w.safe;
  }

  put_logs-IsWellFormed :
      (l : List LogLine) (p : ProcessRunner E)
      → length l ≤ log_capacity
      → IsWellFormed p
      → IsWellFormed (record p { logs = l })
  put_logs-IsWellFormed l p h w = record {
    bounded = h;
    start_once = w.start_once;
    exit_once = w.exit_once;
    closed = w.closed;
    used = w.used;
    closes_once = w.closes_once;
    out_fits = w.out_fits;
    err_fits = w.err_fits;
    explained = w.explained;
    announced = w.announced;
    safe = w.safe;
  }

  send_line-IsWellFormed :
      (o : Origin) (line : String) (p : ProcessRunner E)
      → reader_at o p ≡ holding line
      → IsWellFormed p
      → IsWellFormed (send_line o line p)
  send_line-IsWellFormed o line p at w =
      if_split IsWellFormed p.logs_closed
        (λ e. record {
          bounded = w.bounded;
          start_once = w.start_once;
          exit_once = w.exit_once;
          closed = w.closed;
          used = w.used;
          closes_once = w.closes_once;
          out_fits = w.out_fits;
          err_fits = w.err_fits;
          explained = w.explained;
          announced = w.announced;
          safe = λ h. e;
        })
        (λ e.
          if_split IsWellFormed (ltb (length p.logs) log_capacity)
            (λ l.
              put_reader-IsWellFormed o (handed_over line) _ tt
                (inr (still o (p.logs ++ record { origin = o; line = line } ∷ []) at))
                (put_logs-IsWellFormed (p.logs ++ record { origin = o; line = line } ∷ []) p
                  (let n = length-append p.logs (record { origin = o; line = line } ∷ []) in
                    ground arith)
                  w))
            (λ l. w))
    where
      still :
          (o : Origin) (l : List LogLine)
          → reader_at o p ≡ holding line
          → one_at (reader_at o (record p { logs = l })) ≡ 0
      still stdout l e = ap one_at e
      still stderr l e = ap one_at e

  set_ready-IsWellFormed :
      (o : Origin) (line : String) (p : ProcessRunner E)
      → has_prefix line p.ready_prefix ≡ true
      → IsWellFormed p
      → IsWellFormed (put_reader o (announcing line) (record p { ready = true }))
  set_ready-IsWellFormed stdout line p f w = record {
    bounded = w.bounded;
    start_once = w.start_once;
    exit_once = w.exit_once;
    closed = w.closed;
    used = w.used;
    closes_once = w.closes_once;
    out_fits = f;
    err_fits = w.err_fits;
    explained = w.explained;
    announced = λ h x. omega arith;
    safe = w.safe;
  }
  set_ready-IsWellFormed stderr line p f w = record {
    bounded = w.bounded;
    start_once = w.start_once;
    exit_once = w.exit_once;
    closed = w.closed;
    used = w.used;
    closes_once = w.closes_once;
    out_fits = w.out_fits;
    err_fits = f;
    explained = w.explained;
    announced = λ h x. omega arith;
    safe = w.safe;
  }

  mark_ready-IsWellFormed :
      (o : Origin) (line : String) (p : ProcessRunner E)
      → reader_at o p ≡ handed_over line
      → IsWellFormed p
      → IsWellFormed (mark_ready o line p)
  mark_ready-IsWellFormed o line p at w =
      if_split IsWellFormed
        (is_stdout o && (not (p.ready_prefix == "") && has_prefix line p.ready_prefix))
        (λ e. set_ready-IsWellFormed o line p (ground arith) w)
        (λ e. put_reader-IsWellFormed o scanning p tt (inr (ap one_at at)) w)

  fits_at :
      (o : Origin) (line : String) (p : ProcessRunner E)
      → reader_at o p ≡ announcing line
      → IsWellFormed p
      → has_prefix line p.ready_prefix ≡ true
  fits_at stdout line p at w = subst (Fits p.ready_prefix) at w.out_fits
  fits_at stderr line p at w = subst (Fits p.ready_prefix) at w.err_fits

  reported-IsWellFormed :
      (line : String) (p : ProcessRunner E)
      → has_prefix line p.ready_prefix ≡ true
      → IsWellFormed p
      → IsWellFormed (emit (proc_event proc_ready (pos 0) none line) p)
  reported-IsWellFormed line p f w =
      let ev : ProcEvent E = proc_event proc_ready (pos 0) none line in
      let a = tally-emit is_start ev p in
      let b = tally-emit is_exit ev p in
      let c = tally-emit is_ready ev p in
      record {
        bounded = w.bounded;
        start_once = ground (arith, a, w.start_once);
        exit_once = ground (arith, b, w.exit_once);
        closed = w.closed;
        used = w.used;
        closes_once = w.closes_once;
        out_fits = w.out_fits;
        err_fits = w.err_fits;
        explained = Explained-emit ev p (λ h. f) w.explained;
        announced = λ h x. ground (arith, c, x);
        safe = w.safe;
      }

  announce-IsWellFormed :
      (o : Origin) (line : String) (p : ProcessRunner E)
      → reader_at o p ≡ announcing line
      → IsWellFormed p
      → IsWellFormed (announce o line p)
  announce-IsWellFormed o line p at w =
      let ev : ProcEvent E = proc_event proc_ready (pos 0) none line in
      let c = tally-emit is_ready ev p in
      put_reader-IsWellFormed o scanning (emit ev p) tt (inl (λ h x. ground (arith, c, x)))
        (reported-IsWellFormed line p (fits_at o line p at w) w)

  scanned-IsWellFormed :
      (o : Origin) (answer : Option String) (p : ProcessRunner E)
      → reader_at o p ≡ scanning
      → IsWellFormed p
      → IsWellFormed (put_reader o (scanned answer) p)
  scanned-IsWellFormed o none p at w =
      put_reader-IsWellFormed o finished p tt (inr (ap one_at at)) w
  scanned-IsWellFormed o (some line) p at w =
      put_reader-IsWellFormed o (holding line) p tt (inr (ap one_at at)) w

  read_at-IsWellFormed :
      (o : Origin) (answer : Option String) (at : ReaderPlace) (p : ProcessRunner E)
      → reader_at o p ≡ at
      → IsWellFormed p
      → IsWellFormed (read_at o answer at p)
  read_at-IsWellFormed o answer scanning p e w = scanned-IsWellFormed o answer p e w
  read_at-IsWellFormed o answer (holding line) p e w = send_line-IsWellFormed o line p e w
  read_at-IsWellFormed o answer (handed_over line) p e w = mark_ready-IsWellFormed o line p e w
  read_at-IsWellFormed o answer (announcing line) p e w = announce-IsWellFormed o line p e w
  read_at-IsWellFormed o answer finished p e w = w

  pub read_pipe-IsWellFormed :
      (o : Origin) (answer : Option String) (p : ProcessRunner E)
      → IsWellFormed p
      → IsWellFormed (read_pipe o answer p)
  unfolding read_pipe
  read_pipe-IsWellFormed o answer p w =
      if_both IsWellFormed (started p.cmd && not p.crashed)
        (read_at-IsWellFormed o answer (reader_at o p) p refl w) w

  pub watch_exit-IsWellFormed :
      (x : Exit E) (p : ProcessRunner E) → IsWellFormed p → IsWellFormed (watch_exit x p)
  unfolding watch_exit
  watch_exit-IsWellFormed x p w =
      let ev : ProcEvent E = proc_event proc_exit (exit_code_of x) (exit_error_of x) "" in
      let a = tally-emit is_start ev p in
      let b = tally-emit is_exit ev p in
      let c = tally-emit is_ready ev p in
      if_split IsWellFormed (p.waiting && not p.crashed)
        (λ e. record {
          bounded = w.bounded;
          start_once = ground (arith, a, w.start_once);
          exit_once = ground (arith, e, b, w.closed, w.exit_once);
          closed = ground (arith, e, w.closed);
          used = λ h. ground (arith, e, w.closed);
          closes_once = λ h. ground (arith, e, w.closed);
          out_fits = w.out_fits;
          err_fits = w.err_fits;
          explained = Explained-emit ev p (λ h. cc) w.explained;
          announced = λ h o. ground (arith, c, w.announced h o);
          safe = λ h. ground (arith, e, h);
        })
        (λ e. w)

  pub close_logs-IsWellFormed : (p : ProcessRunner E) → IsWellFormed p → IsWellFormed (close_logs p)
  unfolding close_logs
  close_logs-IsWellFormed p w =
      if_split IsWellFormed (p.closing && not p.crashed)
        (λ e. record {
          bounded = w.bounded;
          start_once = w.start_once;
          exit_once = ground (arith, e, w.exit_once);
          closed = ground (arith, e, w.closed);
          used = λ h. ground (arith, e, w.used);
          closes_once = λ h. cc;
          out_fits = w.out_fits;
          err_fits = w.err_fits;
          explained = w.explained;
          announced = w.announced;
          safe = λ h. refl;
        })
        (λ e. w)

  pub receive_log-IsWellFormed :
      (p : ProcessRunner E) → IsWellFormed p → IsWellFormed (receive_log p)
  unfolding receive_log
  receive_log-IsWellFormed p w =
      put_logs-IsWellFormed (rest_of p.logs) p (shorter p.logs w.bounded) w
    where
      shorter : (l : List LogLine) → length l ≤ log_capacity → length (rest_of l) ≤ log_capacity
      shorter [] h = h
      shorter (x ∷ l) h = omega arith
