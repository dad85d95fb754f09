-- ===== src/Forwarder/Once.antt =====
-- What `Run` sends, against what its goroutines take.
use mathlib.Core.List.{Sublistᴰ}
use rassberry.Base.{
  ◌≢◌, differ, arith, ℕ, suc, String, List, true, none, some, [], ◌∷◌, ◌++◌, ◌≡◌, refl, All,
  All-append, if_split, if_both,
}
use rassberry.Telemetry.Record.{LogRecordV2}
use rassberry.Admin.Stream.{log, other}
use rassberry.Supervisor.Backoff.{Float, BackoffPolicy}
use rassberry.Process.Backoff.{duration}
use rassberry.Base.Int.{ℤ}
use rassberry.Forwarder.{
  is_forwarded, Taken, done, taken, SendEnd, sending, stopped, send_failed, Pause, slept, cancelled,
  Seen, saw_context, saw_sender, Attempt, dial_failed, open_failed, streamed, Run, paused, follow,
  send_loop, run_from,
}

abbrev pub Eligible : List LogRecordV2 → Type 0
Eligible = All (λ rec. (rec.scope ≢ "root") × (rec.kernel_id ≢ "rk"))

-- In order, none twice, and none of the root.
abbrev Chosen : List LogRecordV2 → List LogRecordV2 → Type 0
Chosen sent all = Eligible sent × Sublistᴰ sent all

not_of_root :
    (rec : LogRecordV2) → is_forwarded rec ≡ true → (rec.scope ≢ "root") × (rec.kernel_id ≢ "rk")
not_of_root rec e =
    (differ rec.scope "root" (ground arith), differ rec.kernel_id "rk" (ground arith))

none_of : (l : List LogRecordV2) → Sublistᴰ [] l
none_of [] = Sublistᴰ.slnil
none_of (x ∷ l) = Sublistᴰ.cons (none_of l)

Sublistᴰ-append :
    (a b c d : List LogRecordV2) → Sublistᴰ a b → Sublistᴰ c d → Sublistᴰ (a ++ c) (b ++ d)
Sublistᴰ-append a b c d Sublistᴰ.slnil k = k
Sublistᴰ-append a (x ∷ b) c d (Sublistᴰ.cons h) k = Sublistᴰ.cons (Sublistᴰ-append a b c d h k)
Sublistᴰ-append (y ∷ a) (x ∷ b) c d (Sublistᴰ.cons-cons e h) k =
    Sublistᴰ.cons-cons e (Sublistᴰ-append a b c d h k)

both-Chosen : (a b c d : List LogRecordV2) → Chosen a b → Chosen c d → Chosen (a ++ c) (b ++ d)
both-Chosen a b c d h k = (All-append _ a c h.0 k.0, Sublistᴰ-append a b c d h.1 k.1)

module _ {E : Type 0} where
  -- The records that a goroutine may take, in order.
  abbrev pub records_in : List (Taken E) → List LogRecordV2
  records_in [] = []
  records_in (done ∷ ts) = records_in ts
  records_in (taken other answer ∷ ts) = records_in ts
  records_in (taken (log rec) answer ∷ ts) = rec ∷ records_in ts

  abbrev pub offered : List (Attempt E) → List LogRecordV2
  offered [] = []
  offered (streamed ts seen now p ∷ more) = records_in ts ++ offered more
  offered (_ ∷ more) = offered more

  send_loop-Chosen : (ts : List (Taken E)) → Chosen (send_loop ts).0 (records_in ts)
  unfolding send_loop
  send_loop-Chosen [] = (tt, Sublistᴰ.slnil)
  send_loop-Chosen (done ∷ ts) = (tt, none_of (records_in ts))
  send_loop-Chosen (taken other answer ∷ ts) = send_loop-Chosen ts
  send_loop-Chosen (taken (log rec) none ∷ ts) =
      let (c, s) = send_loop-Chosen ts in
      if_split (λ (r : List LogRecordV2 × SendEnd E). Chosen r.0 (rec ∷ records_in ts))
        (is_forwarded rec) (λ e. ((not_of_root rec e, c), Sublistᴰ.cons-cons refl s))
        (λ e. (c, Sublistᴰ.cons s))
  send_loop-Chosen (taken (log rec) (some x) ∷ ts) =
      let (c, s) = send_loop-Chosen ts in
      if_both (λ (r : List LogRecordV2 × SendEnd E). Chosen r.0 (rec ∷ records_in ts))
        (is_forwarded rec) (tt, none_of (rec ∷ records_in ts)) (c, Sublistᴰ.cons s)

  follow-Chosen :
      (seen : Seen) (end : SendEnd E) (message : String) (d : ℤ) (p : Pause) (next : Run)
      (all : List LogRecordV2)
      → Chosen next.sent all
      → Chosen (follow seen end (paused message d p) next).sent all
  follow-Chosen saw_context end message d p next all h = (tt, none_of all)
  follow-Chosen saw_sender sending message d p next all h = (tt, none_of all)
  follow-Chosen saw_sender stopped message d p next all h = (tt, none_of all)
  follow-Chosen saw_sender (send_failed e) message d slept next all h = h
  follow-Chosen saw_sender (send_failed e) message d cancelled next all h = (tt, none_of all)

  -- Whatever the gateway answers, the records that `Run` sends are records that its goroutines took,
  -- in the same order and none more often than it was taken, and none of them is of the root.
  pub run_from-sent :
      (fl : Float) (b : BackoffPolicy fl) (attempt : ℕ) (rounds : List (Attempt E))
      → Eligible (run_from fl b attempt rounds).sent
        × Sublistᴰ (run_from fl b attempt rounds).sent (offered rounds)
  unfolding run_from
  run_from-sent fl b attempt [] = (tt, Sublistᴰ.slnil)
  run_from-sent fl b attempt (dial_failed e now slept ∷ more) =
      run_from-sent fl b (suc attempt) more
  run_from-sent fl b attempt (dial_failed e now cancelled ∷ more) = (tt, none_of (offered more))
  run_from-sent fl b attempt (open_failed e now slept ∷ more) = run_from-sent fl b 0 more
  run_from-sent fl b attempt (open_failed e now cancelled ∷ more) = (tt, none_of (offered more))
  run_from-sent fl b attempt (streamed ts seen now p ∷ more) =
      both-Chosen (send_loop ts).0 (records_in ts) _ (offered more) (send_loop-Chosen ts) (
        follow-Chosen seen (send_loop ts).1 "log-forwarder send failed" (duration fl b 1 now) p
          (run_from fl b 1 more) (offered more) (run_from-sent fl b 1 more))
