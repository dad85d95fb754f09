-- ===== src/Ports.antt =====
-- platform/ports/ports.go: the port of the bus, and what the parts that log and publish rely on of
-- a bus that implements it, apart from how cmd/rk/event_bus_gen.go does.
pub mod Logging
pub mod InMemory
mod Examples
use rassberry.Base.{ℕ, String, List, Option, [], ◌∷◌, ◌++◌, ◌≡◌, ◌==◌, length, ltb, if◌then◌else◌}

-- `EventBus`: its two methods, the state of the bus passed on, for contexts `C` and messages `M`. A
-- number stands for the channel that `Subscribe` answers and for the function that cancels it.
pub record EventBus (C M : Type 0) : Type 1 where
  pub Bus : Type 0
  pub Error : Type 0
  pub publish : C → String → M → Bus → Bus × Option Error
  pub subscribe : C → String → Bus → Bus × ℕ × Option Error
  pub cancel : ℕ → Bus → Bus

-- The laws of a bus inside the process, which the port does not state: while the context of a
-- `Publish` is alive, each channel of the topic takes the message if it has room. `pending` is what
-- waits in a channel, and `IsOpen` says that the number was given for the topic and is not cancelled.
pub record InProcess {C M : Type 0} (port : EventBus C M) : Type 1 where
  pub room : ℕ
  pub pending : ℕ → port.Bus → List M
  pub IsOpen : String → ℕ → port.Bus → Type 0
  pub IsAlive : C → Type 0
  pub subscribe_opens :
      (ctx : C) (topic : String) (b : port.Bus)
      → let (c, i, e) = port.subscribe ctx topic b in IsOpen topic i c × (pending i c ≡ [])
  pub publish_keeps :
      (ctx : C) (topic t : String) (i : ℕ) (msg : M) (b : port.Bus)
      → IsAlive ctx
      → IsOpen t i b
      → IsOpen t i (port.publish ctx topic msg b).0
  pub publish_fills :
      (ctx : C) (topic t : String) (i : ℕ) (msg : M) (b : port.Bus)
      → IsAlive ctx
      → IsOpen t i b
      → pending i (port.publish ctx topic msg b).0 ≡ (
          if topic == t
          then if ltb (length (pending i b)) room then pending i b ++ msg ∷ [] else pending i b
          else pending i b)
