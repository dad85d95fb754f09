-- ===== src/Bus.antt =====
-- cmd/rk/event_bus_gen.go: the in-memory bus. A subscriber is a pointer in the source: the map of a
-- topic and the copy that `Publish` takes outside the lock name the same one, so subscribers live on
-- a heap, under the number that `Subscribe` gave them. The part of a method that holds the lock is
-- one step. `M` is the type of messages; a channel is its buffer, the oldest message first.
pub mod Invariant
pub mod Examples
pub mod Calls
pub mod Delivery
pub mod Race
pub mod Queue
pub mod Fifo
use rassberry.Base.{
  ℕ, String, Bool, List, Option, true, false, none, some, [], ◌∷◌, ◌++◌, ◌+◌, ◌&&◌, ◌||◌, not,
  if◌then◌else◌, ltb, nat_eq, length, suc,
}
use rassberry.Base.Maps.{Map, lookup, insert, erase}

pub record Subscriber (M : Type 0) : Type 0 where
  pub ch : List M
  pub ch_closed : Bool  -- whether `close(ch)` was called
  pub closed : Bool

pub record InMemoryEventBus (M : Type 0) : Type 0 where
  pub subs : Map (List ℕ)
  pub heap : ℕ → Subscriber M
  pub next : ℕ

-- `make(chan any, 16)`
abbrev pub capacity : ℕ
capacity = 16

-- How a call of `Publish` ends: `nil`, the context's error, or a send on a closed channel.
pub data Outcome : Type 0 where
  sent cancelled panicked : Outcome

-- What a `select` meets: whether the context is done, and whether the runtime takes the send where
-- both cases are ready.
pub record Moment : Type 0 where
  pub done : Bool
  pub pick : Bool

abbrev pub update {ℓ} : {A : Type ℓ} → (ℕ → A) → ℕ → A → ℕ → A
update f i a j = if nat_eq i j then a else f j

abbrev pub remove : ℕ → List ℕ → List ℕ
remove i [] = []
remove i (j ∷ js) = if nat_eq i j then remove i js else j ∷ remove i js

abbrev pub member : ℕ → List ℕ → Bool
member i [] = false
member i (j ∷ js) = nat_eq i j || member i js

abbrev pub ids_of : Option (List ℕ) → List ℕ
ids_of none = []
ids_of (some ids) = ids

-- What one `select` does: the loop goes on with the subscriber, or `Publish` ends.
pub data Sending (M : Type 0) : Type 0 where
  goes_on : Subscriber M → Sending M
  ends : Outcome → Sending M

-- `if len(subs) == 0 { delete(b.subs, topic) }`
abbrev pub store : String → List ℕ → Map (List ℕ) → Map (List ℕ)
store topic [] subs = erase topic subs
store topic (i ∷ is) subs = insert topic (i ∷ is) subs

module _ {M : Type 0} where
  abbrev pub empty_subscriber : Subscriber M
  empty_subscriber = record { ch = []; ch_closed = false; closed = false }

  unfoldable pub new_bus : InMemoryEventBus M
  new_bus = record { subs = []; heap = λ i. empty_subscriber; next = 0 }

  -- The copies that `Publish` takes under the lock: here the newest first, where `range` gives any order.
  unfoldable pub copies : String → InMemoryEventBus M → List ℕ
  copies topic b = ids_of (lookup topic b.subs)

  unfoldable pub send : M → Moment → Subscriber M → Sending M
  send msg w s =
      if (s.ch_closed || ltb (length s.ch) capacity) && (not w.done || w.pick)
      then if s.ch_closed then ends panicked else goes_on (record s { ch = s.ch ++ msg ∷ [] })
      else if w.done
      then ends cancelled
      else goes_on s

  -- The loop over the copies; `when i` is the moment at which subscriber `i` is served.
  unfoldable pub send_all :
      M → (ℕ → Moment) → List ℕ → InMemoryEventBus M → InMemoryEventBus M × Outcome
  send_all msg when [] b = (b, sent)
  send_all msg when (i ∷ is) b = elim (send msg (when i) (b.heap i)) [
    | ends o ↦ (b, o)
    | goes_on s ↦ send_all msg when is (record b { heap = update b.heap i s })
  ]

  -- A `Publish` that nothing interrupts.
  unfoldable pub publish :
      (ℕ → Moment) → String → M → InMemoryEventBus M → InMemoryEventBus M × Outcome
  publish when topic msg b = send_all msg when (copies topic b) b

  -- The number of the new subscriber stands for its channel and its cancel function.
  unfoldable pub subscribe : String → InMemoryEventBus M → InMemoryEventBus M × ℕ
  subscribe topic b = (
    record {
      subs = insert topic (b.next ∷ ids_of (lookup topic b.subs)) b.subs;
      heap = update b.heap b.next empty_subscriber;
      next = suc b.next;
    },
    b.next,
  )

  abbrev pub shut : Subscriber M → Subscriber M
  shut s = record s { ch_closed = true; closed = true }

  abbrev pub cancel_in : String → ℕ → Option (List ℕ) → InMemoryEventBus M → InMemoryEventBus M
  cancel_in topic i none b = b
  cancel_in topic i (some ids) b =
      if member i ids && not (b.heap i).closed
      then record b {
        subs = store topic (remove i ids) b.subs;
        heap = update b.heap i (shut (b.heap i));
      }
      else record b { subs = store topic ids b.subs }

  -- The cancel function of subscriber `i` of a topic.
  unfoldable pub cancel : String → ℕ → InMemoryEventBus M → InMemoryEventBus M
  cancel topic i b = cancel_in topic i (lookup topic b.subs) b

  abbrev pub rest_of : List M → List M
  rest_of [] = []
  rest_of (m ∷ ms) = ms

  -- A receive from the channel of subscriber `i`.
  unfoldable pub receive : ℕ → InMemoryEventBus M → InMemoryEventBus M
  receive i b =
      let s = b.heap i in record b { heap = update b.heap i (record s { ch = rest_of s.ch }) }
