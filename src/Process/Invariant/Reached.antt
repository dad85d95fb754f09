-- ===== src/Process/Invariant/Reached.antt =====
-- The invariant in every state that a runner reaches.
use rassberry.Base.{String, List, false, [], ◌∷◌, ◌≡◌, ◌==◌, refl, arith, if_both}
use rassberry.Process.{ProcessRunner, started, scanning}
use rassberry.Process.Options.{
  ProcOption, with_env_map, with_working_dir, with_health_http, with_ready_prefix, with_on_event,
  apply_option, apply_options, plain_runner, new_process_runner,
}
use rassberry.Process.Invariant.{
  Step, start_step, read_step, exit_step, close_step, receive_step, step, steps, IsWellFormed,
}
use rassberry.Process.Invariant.Kept.{
  start-IsWellFormed, read_pipe-IsWellFormed, watch_exit-IsWellFormed, receive_log-IsWellFormed,
  close_logs-IsWellFormed,
}

module _ {E : Type 0} where
  step-IsWellFormed : (x : Step E) (p : ProcessRunner E) → IsWellFormed p → IsWellFormed (step x p)
  unfolding step
  step-IsWellFormed (start_step environ answer) p w = start-IsWellFormed environ answer p w
  step-IsWellFormed (read_step o answer) p w = read_pipe-IsWellFormed o answer p w
  step-IsWellFormed (exit_step x) p w = watch_exit-IsWellFormed x p w
  step-IsWellFormed close_step p w = close_logs-IsWellFormed p w
  step-IsWellFormed receive_step p w = receive_log-IsWellFormed p w

  pub steps-IsWellFormed :
      (xs : List (Step E)) (p : ProcessRunner E) → IsWellFormed p → IsWellFormed (steps xs p)
  unfolding steps
  steps-IsWellFormed [] p w = w
  steps-IsWellFormed (x ∷ xs) p w = steps-IsWellFormed xs (step x p) (step-IsWellFormed x p w)

  -- What no option touches.
  abbrev IsFresh : ProcessRunner E → Type 0
  IsFresh p =
      (p.logs ≡ [])
      × (p.events ≡ [])
      × (started p.cmd ≡ false)
      × (p.logs_closed ≡ false)
      × (p.waiting ≡ false)
      × (p.closing ≡ false)
      × (p.out_at ≡ scanning)
      × (p.err_at ≡ scanning)
      × (p.ready ≡ false)
      × (p.crashed ≡ false)

  IsFresh-IsWellFormed : (p : ProcessRunner E) → IsFresh p → IsWellFormed p
  IsFresh-IsWellFormed p (l, es, c, o, v, k, a, b, r, x) = record {
    bounded = rw l (omega arith);
    start_once = rw (es, c) (ground arith);
    exit_once = rw (es, o, k) (ground arith);
    closed = rw (v, c) refl;
    used = λ h. ground arith;
    closes_once = λ h. o;
    out_fits = rw a tt;
    err_fits = rw b tt;
    explained = rw es tt;
    announced = λ h n. ground arith;
    safe = λ h. ground arith;
  }

  apply_option-IsFresh :
      (o : ProcOption) (p : ProcessRunner E) → IsFresh p → IsFresh (apply_option o p)
  unfolding apply_option
  apply_option-IsFresh (with_env_map m) p f = f
  apply_option-IsFresh (with_working_dir dir) p f = f
  apply_option-IsFresh (with_health_http url) p f = f
  apply_option-IsFresh (with_ready_prefix prefix) p f = if_both IsFresh (prefix == "") f f
  apply_option-IsFresh (with_on_event on) p f = f

  apply_options-IsFresh :
      (os : List ProcOption) (p : ProcessRunner E) → IsFresh p → IsFresh (apply_options os p)
  unfolding apply_options
  apply_options-IsFresh [] p f = f
  apply_options-IsFresh (o ∷ os) p f =
      apply_options-IsFresh os (apply_option o p) (apply_option-IsFresh o p f)

  -- However a runner is built, and however whole starts, receives and the turns of the readers and of the
  -- goroutine that waits for the process follow each other: the buffer holds at most 256 lines; where
  -- a hook is set, it has `ProcStart` once if the process was started and else never, `ProcExit` once
  -- if the end of the process was noticed and else never, and a runner that is ready has reported it
  -- or a reader is just about to; each report of readiness is a line with the prefix; the channel is
  -- closed only behind that end, and a runner has crashed only if the channel is closed.
  pub steps-new-IsWellFormed :
      (cmd_path : String) (args : List String) (opts : List ProcOption) (xs : List (Step E))
      → IsWellFormed (steps xs (new_process_runner cmd_path args opts))
  unfolding new_process_runner
  steps-new-IsWellFormed cmd_path args opts xs = steps-IsWellFormed xs _ (
      IsFresh-IsWellFormed _ (
        apply_options-IsFresh opts (plain_runner cmd_path args)
          (refl, refl, refl, refl, refl, refl, refl, refl, refl, refl)))
