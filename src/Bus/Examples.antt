-- ===== src/Bus/Examples.antt =====
-- A bus with two subscribers.
use rassberry.Base.{ℕ, String, List, arith, false, [], ◌∷◌, ◌≡◌, refl}
use rassberry.Base.Maps.{lookup, insert}
use rassberry.Bus.{Moment, panicked, new_bus, copies, subscribe, cancel, send_all}
use rassberry.Bus.Invariant.{IsWellFormed}
use rassberry.Bus.Calls.{
  Call, publish_call, subscribe_call, cancel_call, receive_call, call, calls,
  calls-new-IsWellFormed, made_for,
}
use rassberry.Bus.Queue.{queue_call, queue_calls, calls-queue}
use rassberry.Bus.Race.{publish_races_cancel}

abbrev always : ℕ → Moment
always i = record { done = false; pick = false }

abbrev some_calls : List (Call String)
some_calls =
    subscribe_call "logs"
    ∷ subscribe_call "logs"
    ∷ publish_call always "logs" "hello"
    ∷ cancel_call "logs" 0
    ∷ receive_call 1
    ∷ []

abbrev two : List (Call String)
two = subscribe_call "logs" ∷ subscribe_call "logs" ∷ []

calls-new-IsWellFormed_example :
    IsWellFormed (made_for some_calls 0 (λ i. "")) (calls some_calls new_bus)
calls-new-IsWellFormed_example = calls-new-IsWellFormed some_calls

abbrev own : ℕ → String
own = made_for two 0 (λ i. "")

publish_races_cancel_example :
    (send_all "hello" always
      (copies "logs" (calls two new_bus))
      (cancel "logs" 0 (calls two new_bus))).1
    ≡ panicked
unfolding calls call subscribe new_bus copies lookup insert
publish_races_cancel_example =
    publish_races_cancel own always "logs" "hello" 0 (calls two new_bus)
      (calls-new-IsWellFormed two) (λ i. refl) refl

abbrev later : List (Call String)
later =
    publish_call always "logs" "hello"
    ∷ cancel_call "logs" 1
    ∷ publish_call always "logs" "again"
    ∷ receive_call 0
    ∷ publish_call always "events" "other"
    ∷ []

calls-queue_example :
    ((calls later (calls two new_bus)).heap 0).ch
    ≡ queue_calls "logs" 0 later ((calls two new_bus).heap 0).ch
unfolding calls call subscribe new_bus copies lookup insert
calls-queue_example =
    calls-queue later own "logs" 0 (calls two new_bus) (calls-new-IsWellFormed two) refl
      ((λ j. refl), ((λ p. omega arith), ((λ j. refl), (tt, ((λ j. refl), tt)))))

queue_keeps_again : queue_calls "logs" 0 later [] ≡ "again" ∷ []
unfolding queue_calls queue_call
queue_keeps_again = refl
