-- ===== src/Process/Crash.antt =====
-- What the end of the process does to a reader that holds a line.
use rassberry.Base.{String, Bool, Option, true, false, ◌≡◌, refl, arith}
use rassberry.Process.{
  Origin, stdout, stderr, holding, Exit, ProcessRunner, emit, started, read_pipe, watch_exit,
  reader_at, proc_event, proc_exit, close_logs, exit_code_of, exit_error_of,
}
use rassberry.Process.Invariant.{IsWellFormed}

module _ {E : Type 0} where
  -- A reader that would send on the closed channel.
  abbrev Doomed : Origin → String → ProcessRunner E → Type 0
  Doomed o line p =
      (started p.cmd ≡ true)
      × (p.crashed ≡ false)
      × (p.logs_closed ≡ true)
      × (reader_at o p ≡ holding line)

  read_pipe-Doomed :
      (o : Origin) (line : String) (answer : Option String) (p : ProcessRunner E)
      → Doomed o line p
      → (read_pipe o answer p).crashed ≡ true
  unfolding read_pipe
  read_pipe-Doomed o line answer p (s, c, l, h) = simp (s, c, h, l)

  closed-Doomed :
      (o : Origin) (line : String) (x : Exit E) (p : ProcessRunner E)
      → IsWellFormed p
      → p.waiting ≡ true
      → reader_at o p ≡ holding line
      → Doomed o line (close_logs (watch_exit x p))
  unfolding watch_exit close_logs
  closed-Doomed o line x p w v h =
      let a : p.crashed ≡ false = ground (arith, v, w.closed, w.safe) in
      rw (v, a) (ground (arith, v, w.closed), refl, refl, same_place false o h)
    where
      same_place :
          (c : Bool) (o : Origin)
          → reader_at o p ≡ holding line
          → reader_at o
              (record (emit (proc_event proc_exit (exit_code_of x) (exit_error_of x) "") p) {
                logs_closed = true;
                waiting = false;
                closing = false;
                crashed = c;
              })
            ≡ holding line
      same_place c stdout h = h
      same_place c stderr h = h

  -- If the process ends while a reader holds a line, the runner crashes when that reader goes on behind
  -- the `close` of the channel, in every state of a runner that was built and stepped: the send panics.
  pub exit_before_send :
      (o : Origin) (line : String) (x : Exit E) (answer : Option String) (p : ProcessRunner E)
      → IsWellFormed p
      → p.waiting ≡ true
      → reader_at o p ≡ holding line
      → (read_pipe o answer (close_logs (watch_exit x p))).crashed ≡ true
  exit_before_send o line x answer p w v h =
      read_pipe-Doomed o line answer (close_logs (watch_exit x p)) (closed-Doomed o line x p w v h)
