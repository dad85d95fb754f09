-- ===== src/Lib.antt =====
-- rassberry: a small microkernel. A root kernel (cmd/rk) runs domains, keeps a registry of them with
-- their health and exports, and passes events and logs between them; platform/ holds what kernels
-- share.
--
-- Files, and the code that each is about:
--   Contracts      platform/contracts: the models that kernels exchange.
--   Registry       cmd/rk/discovery_registry_gen.go, discovery_registry_exports_gen.go. The state is
--                  the map `kernels`; `RegisterKernel`, `Register`, `Unregister`, `UpdateHealth`,
--                  `SetExports`, `Kernels`, `KernelHealth` and `List` are functions of the same names.
--     Aggregate    `AggregateHealth`, and cmd/rk/health_aggregator_gen.go.
--       Severity, Seen
--                  which status and reason it gives, and one kernel in it.
--     Store        sequences of the methods that write.
--     Listing      the order of what `List` gives.
--     Interleaving calls about different kernels in another order.
--   Degradation    cmd/rk/degradation_policy_gen.go: a tick reads `List` and the kept exports, and
--                  writes back through `SetExports`.
--     Cells, Tick  one kernel at a time, and a whole tick.
--     Restore      two ticks with a change of health before each.
--     Stale        a kernel that is replaced under its id.
--   Lifecycle      platform/runtime/fsm_gen.go: `FSM.Run`, `Drain`, `Stop` around a kernel's hooks.
--     Boot, Trail  a run against the plain sequence of the hooks, and sequences of calls.
--   Bus            cmd/rk/event_bus_gen.go: `Publish` in its two halves, `Subscribe` and its cancel.
--     Invariant, Calls, Delivery, Race
--     Queue, Fifo  what one subscriber sees of the bus.
--   Supervisor     platform/runtime/supervisor_gen.go: the methods, and each goroutine as steps.
--     Backoff      `BackoffPolicy` over a parameter for floating-point numbers.
--     Acts, Invariant, Policies, Permanent
--     Live, Waiting, Ending
--                  which workers are alive, what `Wait` counts, and how all of them end.
--   Telemetry      platform/telemetry, and what gives records to the bus.
--     Record, Filter, Wire
--                  log.go, log_v2_gen.go, log_filter_gen.go and from_proto_gen.go.
--     Show         how a record prints itself.
--     Gateway      cmd/rk/log_hub_gen.go and log_gateway_server_gen.go.
--     TeeLogger    platform/ports/tee_logger_gen.go.
--     SafeLogHub   loghub_safe_gen.go: `Publish` in three steps, and the accesses of the loop.
--       Burst, Balance
--   Domains        cmd/rk/domain_manager_gen.go and domain_launcher_gen.go: `launchInproc`, `stop` and
--                  `Reload`, which run automata of Lifecycle and write to Registry.
--     Renew, Reload
--                  what one visit of the new list does, and what runs behind a `Reload`.
--     Retire       what becomes of the automata of the domains that ran.
--     Factory      cmd/rk/domain_factory_gen.go: `RegisterDomainFactory`, `LaunchDomainWithFactory`.
--   Process        platform/runtime/process_runner_gen.go: the runner, the two goroutines that read its
--                  pipes and the one that waits for the process are one state, and each method or
--                  turn of a goroutine is a function on it.
--     Options      `NewProcessRunner` and its options.
--     Backoff      the `BackoffPolicy` of that file.
--     Invariant    sequences of steps and what they keep; Kept has the single steps, Reached the
--                  states that a runner reaches.
--     Delivery     the lines that sequences of steps deliver; Lines has the balance.
--     Crash        a reader that holds a line when the process ends.
--     Address      the address of the probe, which no step changes.
--     Wait         `WaitReady`, with the steps of the other goroutines between its rounds and during
--                  its probes.
--   Admin          cmd/rk/http_admin_server_gen.go, http_admin_control_gen.go and
--                  http_admin_telemetry_gen.go: each handler, with the registry and the level as state.
--     Stream       cmd/rk/http_admin_logs_gen.go, down to the text that is written.
--     Repeats      one record through log hub, bus topics and a stream; OverBus has the channels of
--                  Bus between them.
--   Rkctl          cmd/rkctl/main_run_gen.go: the client's commands, from their parsed flags.
--     Actions      an action on its way through Admin to Registry.
--     Print        how a record is printed.
--     Logs         the text of Admin's stream as the client reads it.
--   Forwarder      kernels/infra/log-forwarder/forwarder_gen.go: `Run` over what gRPC answers, round by
--                  round, with the turns of the goroutine that sends.
--     Once, Reconnect
--                  what is sent at all, and what is sent behind dials that fail.
--     Twice        the forwarder on the bus of a tee logger.
--     Whole        natural numbers as a stand-in for floating-point numbers, for examples.
--   Config         cmd/rk/config_gen.go: types, defaults, `LoadConfig` and `Validate`.
--   RootKernel     cmd/rk/root_kernel_gen.go: the launches at the start, and SIGHUP, on the state of
--                  Domains.
--     Launch, Again
--                  what the manager runs then, and a reload of the same list.
--     Serving      from the launches to the return, as a list of events, with each visit of a `Reload`
--                  an event, and `main` of cmd/rk/main_run_gen.go around it.
--       InForce, NoneLost, Signal
--                  which domains run meanwhile, what becomes of those that ran, and how a signal
--                  ends the process.
--   Site           kernels/examples/site/site_domain_gen.go: hooks of Lifecycle over a Supervisor.
--     Life         the domain from its launch to its end.
--   Ports          platform/ports/ports.go: the port of a bus, and laws of a bus inside the process.
--     InMemory     Bus behind the port, with these laws.
--     Logging      sequences of logs over a bus with these laws.
--   EntryPoints    cmd/rk/main.go and cmd/rkctl/main.go.
--   Host           platform/runtime/host_gen.go: `NewHost` and its options.
--   StdLogger      cmd/rk/logger_gen.go: the text of a line.
--   EndToEnd       a record on its way through Forwarder, Gateway, Admin.Stream and Rkctl.Logs.
--     OverBus      the same way, with Bus between Gateway and Admin.Stream.
--     Report       a command on its way to what the administration reports of all kernels.
--     Operator     a command on its way through Rkctl, Admin and Registry to Degradation.
--   Text           helpers: functions of Go's `strings` and `filepath`.
--   Base           helpers: tests on numbers and texts, maps as association lists, signed integers.
--   Examples       in each folder: small inputs on which the theorems are applied.
--
-- Conventions. A method that holds its lock throughout is one function on the state. What the source
-- takes from outside comes as an argument: a reading of the clock, the order in which `range` visits
-- a map, what a hook or a worker's function answers, a random number, the choice of a `select`. A
-- `time.Time` is a number of nanoseconds since Go's zero time, with 0 for the zero value. A slice is
-- a list, a map an association list; a pointer that two parts share is a number into a heap. All
-- loops run over lists, so no fuel is needed; the endless loops of `Run` methods and goroutines are
-- given by the step they repeat.
--
-- Not modelled: contexts, beyond whether they are done; which lines the parts log; the libraries for
-- HTTP, JSON, flags, gRPC, YAML and processes, of which an answer comes as an argument or a parameter;
-- the ports that nothing implements; wire formats and third-party stand-ins.
pub mod Base
pub mod Contracts
pub mod Registry
pub mod Degradation
pub mod Lifecycle
pub mod Bus
pub mod Supervisor
pub mod Telemetry
pub mod Domains
pub mod Admin
pub mod Config
pub mod EndToEnd
pub mod EntryPoints
pub mod Forwarder
pub mod Host
pub mod Ports
pub mod Process
pub mod Rkctl
pub mod RootKernel
pub mod Site
pub mod StdLogger
pub mod Text
