-- ===== src/Process/Invariant.antt =====
-- What every interleaving of the calls, the two readers and the process keeps.
pub mod Kept
pub mod Reached
use rassberry.Base.{
  ℕ, String, Bool, List, Option, true, false, none, some, [], ◌∷◌, ◌++◌, ◌+◌, ◌≤◌, ◌≡◌, ◌==◌, refl,
  ap, ◌∙◌, arith, ◌&&◌, ◌||◌, not, if◌then◌else◌, ltb, length, length-append, All, All-append,
  Bool-cases, inl, inr, if_both, if_split,
}
use rassberry.Base.Int.{pos}
use rassberry.Telemetry.Filter.{has_prefix}
use rassberry.Text.{path_base}
use rassberry.Process.{
  Origin, stdout, stderr, LogLine, ProcEventType, proc_start, proc_exit, proc_ready, ProcEvent,
  ReaderPlace, scanning, holding, handed_over, finished, Exit, StartError, ProcessRunner, Command,
  emit, started, start, start_when, spawned, empty_path, proc_event, scanned, is_stdout, rest_of,
  exit_code_of, exit_error_of, read_pipe, read_at, send_line, mark_ready, watch_exit, receive_log,
  reader_at, put_reader, log_capacity, announcing, close_logs,
}
use rassberry.Process.Options.{
  ProcOption, with_env_map, with_working_dir, with_health_http, with_ready_prefix, with_on_event,
  apply_option, apply_options, plain_runner, new_process_runner,
}

pub data Step (E : Type 0) : Type 0 where
  start_step : List String → Option E → Step E
  read_step : Origin → Option String → Step E
  exit_step : Exit E → Step E
  close_step : Step E
  receive_step : Step E

abbrev pub is_start : ProcEventType → Bool
is_start proc_start = true
is_start _ = false

abbrev pub is_exit : ProcEventType → Bool
is_exit proc_exit = true
is_exit _ = false

abbrev pub is_ready : ProcEventType → Bool
is_ready proc_ready = true
is_ready _ = false

abbrev pub one_if : Bool → ℕ
one_if true = 1
one_if false = 0

-- A reader that has made the runner ready holds a line with the prefix.
abbrev pub Fits : String → ReaderPlace → Type 0
Fits prefix (announcing line) = has_prefix line prefix ≡ true
Fits prefix _ = Unit

abbrev pub one_at : ReaderPlace → ℕ
one_at (announcing line) = 1
one_at _ = 0

module _ {E : Type 0} where
  unfoldable pub step : Step E → ProcessRunner E → ProcessRunner E
  step (start_step environ answer) p = (start environ answer p).0
  step (read_step o answer) p = read_pipe o answer p
  step (exit_step x) p = watch_exit x p
  step close_step p = close_logs p
  step receive_step p = receive_log p

  unfoldable pub steps : List (Step E) → ProcessRunner E → ProcessRunner E
  steps [] p = p
  steps (x ∷ xs) p = steps xs (step x p)

  -- How many events have such a type.
  abbrev pub tally : (ProcEventType → Bool) → List (ProcEvent E) → ℕ
  tally f [] = 0
  tally f (e ∷ es) = one_if (f e.type) + tally f es

  -- Each report of readiness is a line with the prefix.
  abbrev pub Explained : String → List (ProcEvent E) → Type 0
  Explained prefix = All (λ e. is_ready e.type ≡ true → has_prefix e.note prefix ≡ true)

  -- How many readers stand between `p.ready = true` and the report of it.
  abbrev pub announcers : ProcessRunner E → ℕ
  announcers p = one_at p.out_at + one_at p.err_at

  pub record IsWellFormed (p : ProcessRunner E) : Type 0 where
    pub bounded : length p.logs ≤ log_capacity
    pub start_once : tally is_start p.events ≡ one_if (p.on && started p.cmd)
    pub exit_once : tally is_exit p.events ≡ one_if (p.on && (p.closing || p.logs_closed))
    pub closed : p.waiting ≡ (started p.cmd && not (p.closing || p.logs_closed))
    pub used : (p.closing || p.logs_closed) ≡ true → started p.cmd ≡ true
    pub closes_once : p.closing ≡ true → p.logs_closed ≡ false
    pub out_fits : Fits p.ready_prefix p.out_at
    pub err_fits : Fits p.ready_prefix p.err_at
    pub explained : Explained p.ready_prefix p.events
    pub announced : p.ready ≡ true → p.on ≡ true → 1 ≤ tally is_ready p.events + announcers p
    pub safe : p.crashed ≡ true → p.logs_closed ≡ true

  tally-snoc :
      (f : ProcEventType → Bool) (es : List (ProcEvent E)) (e : ProcEvent E)
      → tally f (es ++ e ∷ []) ≡ tally f es + one_if (f e.type)
  tally-snoc f [] e = omega arith
  tally-snoc f (d ∷ es) e = omega (arith, tally-snoc f es e)

  pub tally-emit :
      (f : ProcEventType → Bool) (e : ProcEvent E) (p : ProcessRunner E)
      → tally f (emit e p).events ≡ tally f p.events + one_if (p.on && f e.type)
  tally-emit f e p = elim (Bool-cases p.on) [
    | inl h ↦ rw h (tally-snoc f p.events e)
    | inr h ↦ rw h (omega arith)
  ]

  pub Explained-emit :
      (e : ProcEvent E) (p : ProcessRunner E)
      → (is_ready e.type ≡ true → has_prefix e.note p.ready_prefix ≡ true)
      → Explained p.ready_prefix p.events
      → Explained p.ready_prefix (emit e p).events
  Explained-emit e p h x =
      if_both (Explained p.ready_prefix) p.on (All-append _ p.events (e ∷ []) x (h, tt)) x

  -- An event of another kind.
  pub emit-IsWellFormed :
      (e : ProcEvent E) (p : ProcessRunner E)
      → is_start e.type ≡ false
      → is_exit e.type ≡ false
      → is_ready e.type ≡ false
      → IsWellFormed p
      → IsWellFormed (emit e p)
  emit-IsWellFormed e p i j k w =
      let a = tally-emit is_start e p in
      let b = tally-emit is_exit e p in
      let c = tally-emit is_ready e p in
      record {
        bounded = w.bounded;
        start_once = ground (arith, a, i, w.start_once);
        exit_once = ground (arith, b, j, w.exit_once);
        closed = w.closed;
        used = w.used;
        closes_once = w.closes_once;
        out_fits = w.out_fits;
        err_fits = w.err_fits;
        explained = Explained-emit e p (λ h. cc) w.explained;
        announced = λ h o. ground (arith, c, w.announced h o);
        safe = w.safe;
      }
