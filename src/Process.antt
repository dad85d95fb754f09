-- ===== src/Process.antt =====
-- platform/runtime/process_runner_gen.go. The runner, the two readers of its pipes and the goroutine
-- that waits for the process are one state. What the operating system answers comes with each step;
-- a context is left out, as only the library's `exec.CommandContext` looks at it.
pub mod Options
pub mod Backoff
pub mod Invariant
pub mod Delivery
pub mod Crash
pub mod Address
pub mod Wait
mod Examples
use Prim.Native.Char.{code}
use Prim.Native.String
use Prim.Native.String.{String}
use rassberry.Base.{
  ℕ, Bool, List, Option, true, false, none, some, [], ◌∷◌, ◌++◌, ◌==◌, ◌&&◌, ◌||◌, not,
  if◌then◌else◌, ltb, nat_eq, length,
}
use rassberry.Base.Int.{ℤ, pos, negsuc}
use rassberry.Base.Maps.{Map}
use rassberry.Telemetry.Filter.{has_prefix}
use rassberry.Text.{path_base}

pub data Origin : Type 0 where
  stdout stderr : Origin

-- A line of the process, without its time.
pub record LogLine : Type 0 where
  pub origin : Origin
  pub line : String

pub data ProcEventType : Type 0 where
  proc_start proc_exit proc_ready proc_probe_ok proc_probe_ko : ProcEventType

-- An event, without its time.
pub record ProcEvent (E : Type 0) : Type 0 where
  pub type : ProcEventType
  pub exit_code : ℤ
  pub err : Option E
  pub note : String

-- What is given to `os/exec`: `none` as the environment inherits the parent's.
pub record Command : Type 0 where
  pub path : String
  pub args : List String
  pub dir : String
  pub env : Option (List String)

-- Where a reader stands: before its next line, with a line that it has not sent, behind a line that it
-- has sent, with a line that has made the runner ready and is not reported yet, or returned.
pub data ReaderPlace : Type 0 where
  scanning : ReaderPlace
  holding : String → ReaderPlace
  handed_over : String → ReaderPlace
  announcing : String → ReaderPlace
  finished : ReaderPlace

-- How a process ends: without an error, with an exit code, or with another error of `Wait`.
pub data Exit (E : Type 0) : Type 0 where
  clean : Exit E
  exited : ℤ → E → Exit E
  lost : E → Exit E

pub data StartError (E : Type 0) : Type 0 where
  already_started empty_path : StartError E
  os_error : E → StartError E

-- `make(chan LogLine, 256)`
abbrev pub log_capacity : ℕ
log_capacity = 256

-- `on` is whether a hook is set and `events` are its calls; `logs` is the buffer of the channel.
-- `waiting` and `closing` are where the goroutine that waits for the process stands: in `cmd.Wait`,
-- or between its report and `close`.
-- `crashed` is whether a goroutine has panicked, which ends the program.
pub record ProcessRunner (E : Type 0) : Type 0 where
  pub cmd_path : String
  pub args : List String
  pub env : List String
  pub wd : String
  pub health_url : String
  pub ready_prefix : String
  pub logs : List LogLine
  pub logs_closed : Bool
  pub on : Bool
  pub events : List (ProcEvent E)
  pub cmd : Option Command
  pub ready : Bool
  pub out_at : ReaderPlace
  pub err_at : ReaderPlace
  pub waiting : Bool
  pub closing : Bool
  pub crashed : Bool

abbrev pub is_stdout : Origin → Bool
is_stdout stdout = true
is_stdout stderr = false

-- What `sc.Scan` answers: a line, or the end of the pipe.
abbrev pub scanned : Option String → ReaderPlace
scanned none = finished
scanned (some line) = holding line

abbrev pub started : Option Command → Bool
started none = false
started (some c) = true

abbrev pub rest_of : List LogLine → List LogLine
rest_of [] = []
rest_of (l ∷ ls) = ls

pub data Signal : Type 0 where
  no_signal kill_signal term_signal : Signal

module _ {E : Type 0} where
  abbrev pub emit : ProcEvent E → ProcessRunner E → ProcessRunner E
  emit e p = record p { events = if p.on then p.events ++ e ∷ [] else p.events }

  abbrev pub proc_event : ProcEventType → ℤ → Option E → String → ProcEvent E
  proc_event t code err note = record { type = t; exit_code = code; err = err; note = note }

  abbrev pub command_of : List String → ProcessRunner E → Command
  command_of environ p = record {
    path = p.cmd_path;
    args = p.args;
    dir = p.wd;
    env = if ltb 0 (length p.env) then some (environ ++ p.env) else none;
  }

  -- What follows the answer of the system, `none` if the process runs.
  abbrev pub spawned :
      List String → Option E → ProcessRunner E → ProcessRunner E × Option (StartError E)
  spawned environ (some e) p = (p, some (os_error e))
  spawned environ none p = (
    emit (proc_event proc_start (pos 0) none (path_base p.cmd_path))
        (record p { cmd = some (command_of environ p); waiting = true }),
    none,
  )

  abbrev pub start_when :
      List String
      → Option E
      → Option Command
      → ProcessRunner E
      → ProcessRunner E × Option (StartError E)
  start_when environ answer (some c) p = (p, some already_started)
  start_when environ answer none p =
      if p.cmd_path == "" then (p, some empty_path) else spawned environ answer p

  -- `environ` is the parent's environment.
  unfoldable pub start :
      List String → Option E → ProcessRunner E → ProcessRunner E × Option (StartError E)
  unfolding path_base
  start environ answer p = start_when environ answer p.cmd p

  abbrev pub reader_at : Origin → ProcessRunner E → ReaderPlace
  reader_at stdout p = p.out_at
  reader_at stderr p = p.err_at

  abbrev pub put_reader : Origin → ReaderPlace → ProcessRunner E → ProcessRunner E
  put_reader stdout at p = record p { out_at = at }
  put_reader stderr at p = record p { err_at = at }

  -- `p.logCh <- line`: a send on a closed channel panics, and one on a full channel waits.
  abbrev pub send_line : Origin → String → ProcessRunner E → ProcessRunner E
  send_line o line p =
      if p.logs_closed
      then record p { crashed = true }
      else if ltb (length p.logs) log_capacity
      then put_reader o (handed_over line)
          (record p { logs = p.logs ++ record { origin = o; line = line } ∷ [] })
      else p

  -- Behind the send.
  abbrev pub mark_ready : Origin → String → ProcessRunner E → ProcessRunner E
  mark_ready o line p =
      if is_stdout o && (not (p.ready_prefix == "") && has_prefix line p.ready_prefix)
      then put_reader o (announcing line) (record p { ready = true })
      else put_reader o scanning p

  -- `p.emit` of the readiness.
  abbrev pub announce : Origin → String → ProcessRunner E → ProcessRunner E
  announce o line p = put_reader o scanning (emit (proc_event proc_ready (pos 0) none line) p)

  abbrev pub read_at : Origin → Option String → ReaderPlace → ProcessRunner E → ProcessRunner E
  read_at o answer scanning p = put_reader o (scanned answer) p
  read_at o answer (holding line) p = send_line o line p
  read_at o answer (handed_over line) p = mark_ready o line p
  read_at o answer (announcing line) p = announce o line p
  read_at o answer finished p = p

  -- One step of `readPipe`.
  unfoldable pub read_pipe : Origin → Option String → ProcessRunner E → ProcessRunner E
  read_pipe o answer p =
      if started p.cmd && not p.crashed then read_at o answer (reader_at o p) p else p

  abbrev pub exit_code_of : Exit E → ℤ
  exit_code_of clean = pos 0
  exit_code_of (exited n e) = n
  exit_code_of (lost e) = negsuc 0

  abbrev pub exit_error_of : Exit E → Option E
  exit_error_of clean = none
  exit_error_of (exited n e) = some e
  exit_error_of (lost e) = some e

  -- The goroutine that waits for the process, once `cmd.Wait` has returned, up to its report.
  unfoldable pub watch_exit : Exit E → ProcessRunner E → ProcessRunner E
  watch_exit x p =
      if p.waiting && not p.crashed
      then record (emit (proc_event proc_exit (exit_code_of x) (exit_error_of x) "") p) {
        waiting = false;
        closing = true;
      }
      else p

  -- `close(p.logCh)`
  unfoldable pub close_logs : ProcessRunner E → ProcessRunner E
  close_logs p =
      if p.closing && not p.crashed then record p { logs_closed = true; closing = false } else p

  -- A receive from `Logs()`.
  unfoldable pub receive_log : ProcessRunner E → ProcessRunner E
  receive_log p = record p { logs = rest_of p.logs }

  -- `Stop`: the signal that is sent; the process itself is the system's.
  unfoldable pub stop : Bool → ProcessRunner E → Signal
  stop windows p = if started p.cmd then if windows then kill_signal else term_signal else no_signal
