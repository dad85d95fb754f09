-- ===== src/Ports/InMemory.antt =====
-- The bus of cmd/rk/event_bus_gen.go behind the port: its states are the well-formed ones, and a
-- context is what the `select`s of a `Publish` meet of it.
use rassberry.Base.{
  ℕ, String, List, Option, none, some, [], ◌∷◌, ◌++◌, ◌+◌, ◌≤◌, true, false, ◌≡◌, ◌==◌, length, ltb,
  map, All, if◌then◌else◌,
}
use rassberry.Telemetry.Gateway.{topic_all}
use rassberry.Admin.Stream.{Message, log}
use rassberry.Ports.Logging.{LogCall, record_of, log_calls, log_calls-pending}
use rassberry.Bus.{
  InMemoryEventBus, Moment, Outcome, sent, cancel, capacity, update, copies, new_bus, publish,
  subscribe,
}
use rassberry.Bus.Invariant.{
  IsWellFormed, cancel-IsWellFormed, subscribe-IsWellFormed, send_all-IsWellFormed,
}
use rassberry.Bus.Calls.{calls, made_for, calls-new-IsWellFormed}
use rassberry.Bus.Queue.{IsListed, queue_call, publish-queue}
use rassberry.Bus.Fifo.{subscribe-IsListed}
use rassberry.Ports.{EventBus, InProcess}

pub record State (M : Type 0) : Type 0 where
  pub own : ℕ → String
  pub bus : InMemoryEventBus M
  pub kept : IsWellFormed own bus

-- What `Publish` answers; a well-formed bus does not panic in a call that nothing interrupts.
abbrev publish_error : Outcome → Option Outcome
publish_error sent = none
publish_error o = some o

module _ {M : Type 0} where
  unfoldable pub start : State M
  start = record {
    own = made_for {M = M} [] 0 (λ i. "");
    bus = calls [] new_bus;
    kept = calls-new-IsWellFormed {M = M} [];
  }

  pub publish-IsWellFormed :
      (own : ℕ → String) (when : ℕ → Moment) (topic : String) (msg : M) (b : InMemoryEventBus M)
      → IsWellFormed own b
      → IsWellFormed own (publish when topic msg b).0
  unfolding publish
  publish-IsWellFormed own when topic msg b w =
      send_all-IsWellFormed own msg when (copies topic b) b w

  unfoldable pub subscribe_state : String → State M → State M × ℕ
  subscribe_state topic s = (
    record {
      own = update s.own s.bus.next topic;
      bus = (subscribe topic s.bus).0;
      kept = subscribe-IsWellFormed s.own topic s.bus s.kept;
    },
    (subscribe topic s.bus).1,
  )

  unfoldable pub cancel_state : ℕ → State M → State M
  cancel_state i s = record {
    own = s.own;
    bus = cancel (s.own i) i s.bus;
    kept = cancel-IsWellFormed s.own (s.own i) i s.bus s.kept;
  }

  pub subscribe_state-opens :
      (topic : String) (s : State M)
      → let (c, i) = subscribe_state topic s in IsListed topic i c.bus × ((c.bus.heap i).ch ≡ [])
  unfolding subscribe_state
  subscribe_state-opens topic s = subscribe-IsListed topic s.bus

  unfoldable pub publish_state : (ℕ → Moment) → String → M → State M → State M × Option Outcome
  publish_state when topic msg s = (
    record {
      own = s.own;
      bus = (publish when topic msg s.bus).0;
      kept = publish-IsWellFormed s.own when topic msg s.bus s.kept;
    },
    publish_error (publish when topic msg s.bus).1,
  )

  pub publish_state-fills :
      (when : ℕ → Moment) (topic t : String) (i : ℕ) (msg : M) (s : State M)
      → ((j : ℕ) → (when j).done ≡ false)
      → IsListed t i s.bus
      → IsListed t i (publish_state when topic msg s).0.bus
        × (((publish_state when topic msg s).0.bus.heap i).ch ≡ (
            let q = (s.bus.heap i).ch in
            if topic == t then if ltb (length q) capacity then q ++ msg ∷ [] else q else q))
  unfolding publish_state queue_call
  publish_state-fills when topic t i msg s alive l =
      publish-queue s.own t i s.bus when topic msg s.kept l alive

  abbrev pub in_memory : EventBus (ℕ → Moment) M
  in_memory = record {
    Bus = State M;
    Error = Outcome;
    publish = publish_state;
    subscribe = λ ctx topic s. let (c, i) = subscribe_state topic s in (c, i, none);
    cancel = cancel_state;
  }

  abbrev pub in_memory_laws : InProcess in_memory
  in_memory_laws = record {
    room = capacity;
    pending = λ i s. (s.bus.heap i).ch;
    IsOpen = λ t i s. IsListed t i s.bus;
    IsAlive = λ ctx. (j : ℕ) → (ctx j).done ≡ false;
    subscribe_opens = λ ctx topic s. subscribe_state-opens topic s;
    publish_keeps = λ ctx topic t i msg s a l. (publish_state-fills ctx topic t i msg s a l).0;
    publish_fills = λ ctx topic t i msg s a l. (publish_state-fills ctx topic t i msg s a l).1;
  }

-- Over the bus of event_bus_gen.go, in every well-formed state, a channel of the general topic that
-- has room for them receives the record of every call of tee loggers that have a bus, of whatever
-- scopes, behind what it holds, each once and in the order of the calls, if the contexts of the
-- calls stay alive and nothing else is called meanwhile.
pub in_memory-log_calls :
    (cs : List (LogCall (ℕ → Moment))) (i : ℕ) (s : State Message)
    → All (λ c. (c.logger.on ≡ true) × ((j : ℕ) → (c.ctx j).done ≡ false)) cs
    → IsListed topic_all i s.bus
    → length (s.bus.heap i).ch + length cs ≤ capacity
    → ((log_calls in_memory cs s).bus.heap i).ch
      ≡ (s.bus.heap i).ch ++ map (λ c. log (record_of c)) cs
in_memory-log_calls cs i s on o r = log_calls-pending in_memory in_memory_laws cs i s on o r
