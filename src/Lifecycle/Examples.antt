-- ===== src/Lifecycle/Examples.antt =====
-- A kernel whose start can fail.
use rassberry.Base.{ℕ, String, true, none, some, ◌+◌, ◌≡◌, if◌then◌else◌, nat_eq}
use rassberry.Lifecycle.{KernelModule, kernel_module_base, new_fsm, run}
use rassberry.Lifecycle.Boot.{boot, report, run-boot}

-- The kernel counts its starts, and fails from the second one on.
abbrev counter : KernelModule ℕ Unit Unit String
counter = record (kernel_module_base {S = ℕ} {H = Unit} {C = Unit} {E = String} 0) {
  on_start = λ n. (n + 1, if nat_eq n 0 then none else some "again");
}

run-boot_example : run counter tt tt (new_fsm 0 true) ≡ report (boot counter tt tt 0)
run-boot_example = run-boot counter tt tt 0
