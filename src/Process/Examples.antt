-- ===== src/Process/Examples.antt =====
-- A runner whose process says that it is ready, and ends while a reader holds a line.
use rassberry.Base.{String, List, true, none, some, [], ◌∷◌, ◌++◌, ◌≡◌, ◌≢◌, refl}
use rassberry.Telemetry.Filter.{has_prefix}
use rassberry.Text.{path_base}
use rassberry.Process.{
  stdout, stderr, ProcessRunner, clean, read_pipe, watch_exit, close_logs, start, receive_log,
}
use rassberry.Process.Options.{
  with_on_event, with_health_http, new_process_runner, apply_option, apply_options,
}
use rassberry.Process.Invariant.{
  Step, start_step, read_step, receive_step, step, steps, IsWellFormed,
}
use rassberry.Process.Delivery.{lines_of, all_taken, all_fed, pending}
use rassberry.Process.Delivery.Lines.{steps-lines}
use rassberry.Process.Crash.{exit_before_send}
use rassberry.Process.Invariant.Reached.{steps-new-IsWellFormed}
use rassberry.Process.Wait.{
  Wake, done, tick, answered, still_waiting, Answer, wait_ready, wait_ready_sound,
}

abbrev fresh : ProcessRunner String
fresh =
    new_process_runner "/bin/dk" [] (with_on_event true ∷ with_health_http "http://localhost" ∷ [])

-- The process starts, prints a line that makes it ready, and holds another one.
abbrev ready_steps : List (Step String)
ready_steps =
    start_step [] none
    ∷ read_step stdout (some "READY 1")
    ∷ read_step stdout none
    ∷ read_step stdout none
    ∷ read_step stderr (some "warning")
    ∷ read_step stdout none
    ∷ read_step stdout (some "late")
    ∷ receive_step
    ∷ []

steps-new-IsWellFormed_example : IsWellFormed (steps ready_steps fresh)
steps-new-IsWellFormed_example =
    steps-new-IsWellFormed "/bin/dk" []
      (with_on_event true ∷ with_health_http "http://localhost" ∷ []) ready_steps

steps-lines_example :
    lines_of stdout (all_taken ready_steps fresh) ++ pending stdout (steps ready_steps fresh)
    ≡ pending stdout fresh ++ all_fed stdout ready_steps fresh
steps-lines_example = steps-lines stdout ready_steps fresh

exit_before_send_example :
    (read_pipe stdout none (close_logs (watch_exit clean (steps ready_steps fresh)))).crashed ≡ true
unfolding steps step start path_base read_pipe receive_log new_process_runner apply_options
    apply_option has_prefix
exit_before_send_example =
    exit_before_send stdout "late" clean none (steps ready_steps fresh)
      (steps-new-IsWellFormed "/bin/dk" []
        (with_on_event true ∷ with_health_http "http://localhost" ∷ []) ready_steps)
      refl refl

abbrev probes : List (List (Step String) × Wake String)
probes = (ready_steps, tick (receive_step ∷ []) (answered 503)) ∷ []

wait_ready_sound_example :
    ((wait_ready (probes ++ ([], done) ∷ []) fresh).1 ≢ still_waiting)
    × Answer (probes ++ ([], done) ∷ []) (wait_ready (probes ++ ([], done) ∷ []) fresh)
unfolding new_process_runner steps
wait_ready_sound_example = wait_ready_sound probes [] [] fresh (
    steps-new-IsWellFormed "/bin/dk" []
      (with_on_event true ∷ with_health_http "http://localhost" ∷ []) [])
