-- ===== src/Supervisor.antt =====
-- platform/runtime/supervisor_gen.go. The supervisor and the goroutines of its workers are one state;
-- what a worker's function returns, the random numbers and the choices of a `select` come with each
-- step of a goroutine. The callback's calls are the list of events, the oldest first, without times.
pub mod Backoff
pub mod Acts
pub mod Examples
pub mod Invariant
pub mod Policies
pub mod Permanent
pub mod Live
pub mod Waiting
pub mod Ending
use rassberry.Base.{
  ℕ, suc, String, Bool, List, Option, true, false, none, some, [], ◌∷◌, ◌++◌, ◌+◌, ◌-◌, ◌==◌, ◌&&◌,
  ◌||◌, not, if◌then◌else◌, nat_eq,
}
use rassberry.Base.Int.{ℤ, pos}
use rassberry.Base.Maps.{Map, lookup, insert, erase}
use Backoff.{Float, BackoffPolicy, with_defaults, duration}

-- The type is an `int` in the source: three constants, and every other number.
pub data RestartPolicy : Type 0 where
  permanent transient temporary : RestartPolicy
  other_policy : ℤ → RestartPolicy

unfoldable pub string : RestartPolicy → String
string permanent = "permanent"
string transient = "transient"
string temporary = "temporary"
string (other_policy n) = "unknown"

pub data EventType : Type 0 where
  event_start event_exit event_restart event_panic event_stop : EventType

-- Where the goroutine of a worker stands: at the top of its loop, in the worker's function, in the
-- wait before a restart, or returned.
pub data Place : Type 0 where
  checking running sleeping gone : Place

-- What a call of the worker's function does; a panic is turned into an error.
pub data RunResult (E : Type 0) : Type 0 where
  returned : Option E → RunResult E
  panicked : E → RunResult E

pub data StartError : Type 0 where
  invalid_spec already_exists : StartError

abbrev pub update {ℓ} : {A : Type ℓ} → (ℕ → A) → ℕ → A → ℕ → A
update f i a j = if nat_eq i j then a else f j

module _ {E : Type 0} where
  abbrev pub error_of : RunResult E → Option E
  error_of (returned err) = err
  error_of (panicked e) = some e

  abbrev pub restarts : RestartPolicy → Option E → Bool
  restarts permanent err = true
  restarts transient none = false
  restarts transient (some e) = true
  restarts temporary err = false
  restarts (other_policy n) err = false

module _ (fl : Float) (E : Type 0) where
  -- `has_fn` is whether `Fn` is set.
  pub record WorkerSpec : Type 0 where
    pub name : String
    pub policy : RestartPolicy
    pub backoff : BackoffPolicy fl
    pub has_fn : Bool

  pub record Event : Type 0 where
    pub worker : String
    pub type : EventType
    pub attempt : ℕ
    pub err : Option E
    pub next_after : ℤ

  -- `cancelled` is whether the worker's own `cancel` was called; its context is also done when the
  -- supervisor's is.
  pub record Worker : Type 0 where
    pub spec : WorkerSpec
    pub cancelled : Bool
    pub attempts : ℕ
    pub stopped : Bool
    pub place : Place

  -- The map holds pointers: numbers into the heap, on which a worker stays after it left the map.
  pub record Supervisor : Type 0 where
    pub cancelled : Bool
    pub wg : ℕ
    pub workers : Map ℕ
    pub heap : ℕ → Worker
    pub next : ℕ
    pub events : List Event

  -- What the environment decides in one step of a goroutine.
  pub record Choice : Type 0 where
    pub result : RunResult E
    pub rnd : fl.F
    pub timer : Bool

-- A fresh supervisor; `blank` fills the heap, where no number is in use yet.
abbrev pub new_supervisor : {fl : Float} {E : Type 0} → Worker fl E → Supervisor fl E
new_supervisor blank = record {
  cancelled = false;
  wg = 0;
  workers = [];
  heap = λ i. blank;
  next = 0;
  events = [];
}

module _ {fl : Float} {E : Type 0} where
  abbrev pub note : Event fl E → Supervisor fl E → Supervisor fl E
  note e s = record s { events = s.events ++ e ∷ [] }

  abbrev pub move : ℕ → Place → Supervisor fl E → Supervisor fl E
  move i p s = record s { heap = update s.heap i (record (s.heap i) { place = p }) }

  abbrev pub event : Worker fl E → EventType → ℕ → Option E → ℤ → Event fl E
  event w t attempt err after = record {
    worker = w.spec.name;
    type = t;
    attempt = attempt;
    err = err;
    next_after = after;
  }

  -- The goroutine returns: `defer s.wg.Done()`.
  abbrev pub return : ℕ → Supervisor fl E → Supervisor fl E
  return i s = record (move i gone s) { wg = s.wg - 1 }

  abbrev pub new_worker : WorkerSpec fl E → Worker fl E
  new_worker spec = record {
    spec = spec;
    cancelled = false;
    attempts = 0;
    stopped = false;
    place = checking;
  }

  abbrev pub enter :
      WorkerSpec fl E → Option ℕ → Supervisor fl E → Supervisor fl E × Option StartError
  enter spec (some _) s = (s, some already_exists)
  enter spec none s = (
    record s {
      workers = insert spec.name s.next s.workers;
      heap = update s.heap s.next (new_worker spec);
      next = suc s.next;
      wg = s.wg + 1;
    },
    none,
  )

  unfoldable pub start : WorkerSpec fl E → Supervisor fl E → Supervisor fl E × Option StartError
  start spec s =
      if not spec.has_fn || spec.name == ""
      then (s, some invalid_spec)
      else enter spec (lookup spec.name s.workers) s

  -- `if !w.stopped { w.stopped = true; w.cancel() }`
  abbrev pub halt : ℕ → Supervisor fl E → Supervisor fl E
  halt i s =
      let w = s.heap i in
      if w.stopped
      then s
      else record s { heap = update s.heap i (record w { stopped = true; cancelled = true }) }

  abbrev pub halt_found : Option ℕ → Supervisor fl E → Supervisor fl E
  halt_found none s = s
  halt_found (some i) s = halt i s

  unfoldable pub stop : String → Supervisor fl E → Supervisor fl E
  stop name s = halt_found (lookup name s.workers) s

  unfoldable pub halt_all : Map ℕ → Supervisor fl E → Supervisor fl E
  halt_all [] s = s
  halt_all ((name, i) ∷ m) s = halt_all m (halt i s)

  -- `order` is the order in which `range` visits the map.
  unfoldable pub stop_all : Map ℕ → Supervisor fl E → Supervisor fl E
  stop_all order s = halt_all order (record s { cancelled = true })

  abbrev pub panic_noted : ℕ → RunResult E → Supervisor fl E → Supervisor fl E
  panic_noted i (returned err) s = s
  panic_noted i (panicked e) s =
      let w = s.heap i in note (event w event_panic (w.attempts + 1) (some e) (pos 0)) s

  -- The event and the wait before a restart.
  abbrev pub await : ℕ → Option E → fl.F → Supervisor fl E → Supervisor fl E
  await i err rnd s =
      let w = s.heap i in
      let sleep = duration fl (with_defaults fl w.spec.backoff) w.attempts rnd in
      move i sleeping (note (event w event_restart w.attempts err sleep) s)

  -- What follows the call of the worker's function; the return of the goroutine goes with the delete.
  unfoldable pub decide : ℕ → Option E → fl.F → Supervisor fl E → Supervisor fl E
  decide i err rnd s =
      if restarts (s.heap i).spec.policy err
      then await i err rnd s
      else return i (record s { workers = erase (s.heap i).spec.name s.workers })

  unfoldable pub finish : ℕ → Choice fl E → Supervisor fl E → Supervisor fl E
  unfolding decide
  finish i c s =
      let err = error_of c.result in
      let t = panic_noted i c.result s in
      let w = record (t.heap i) { attempts = (t.heap i).attempts + 1 } in
      let u =
        note (event w event_exit w.attempts err (pos 0)) (record t { heap = update t.heap i w }) in
      decide i err c.rnd u

  unfoldable pub go_at : Place → ℕ → Choice fl E → Supervisor fl E → Supervisor fl E
  unfolding finish
  go_at checking i c s =
      let w = s.heap i in
      if s.cancelled
      then return i (note (event w event_stop 0 none (pos 0)) s)
      else move i running (note (event w event_start (w.attempts + 1) none (pos 0)) s)
  go_at running i c s = finish i c s
  go_at sleeping i c s = if s.cancelled && not c.timer then return i s else move i checking s
  go_at gone i c s = s

  -- One step of the goroutine of worker `i`.
  unfoldable pub go : ℕ → Choice fl E → Supervisor fl E → Supervisor fl E
  unfolding go_at
  go i c s = go_at (s.heap i).place i c s
