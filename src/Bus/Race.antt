-- ===== src/Bus/Race.antt =====
-- A cancel between the two halves of a `Publish`: the copies are taken under the lock, the sends are
-- made outside it.
use rassberry.Base.{
  ℕ, String, List, true, false, [], ◌∷◌, ◌≡◌, ◌≢◌, refl, arith, ◌∙◌, sym, ap, Option-cases, inl,
  inr,
}
use rassberry.Base.Maps.{lookup}
use rassberry.Bus.{
  Subscriber, InMemoryEventBus, Outcome, panicked, Moment, update, member, copies, Sending, goes_on,
  ends, send, send_all, cancel,
}
use rassberry.Bus.Invariant.{IsWellFormed}

module _ {M : Type 0} where
  send_ends :
      (msg : M) (x : Moment) (s : Subscriber M) (o : Outcome)
      → x.done ≡ false
      → send msg x s ≡ ends o
      → o ≡ panicked
  unfolding send
  send_ends msg x s o h e = ground arith

  send_closed :
      (msg : M) (x : Moment) (s : Subscriber M)
      → x.done ≡ false
      → s.ch_closed ≡ true
      → send msg x s ≡ ends panicked
  unfolding send
  send_closed msg x s h k = ground arith

  send_goes_on :
      (msg : M) (x : Moment) (s s' : Subscriber M)
      → send msg x s ≡ goes_on s'
      → s'.ch_closed ≡ s.ch_closed
  unfolding send
  send_goes_on msg x s s' e = ground arith

  send_all-closed :
      (msg : M) (when : ℕ → Moment) (i : ℕ) (is : List ℕ) (b : InMemoryEventBus M)
      → ((j : ℕ) → (when j).done ≡ false)
      → member i is ≡ true
      → (b.heap i).ch_closed ≡ true
      → (send_all msg when is b).1 ≡ panicked
  unfolding send_all
  send_all-closed msg when i [] b l m h = cc
  send_all-closed msg when i (k ∷ is) b l m h =
      by_send (send msg (when k) (b.heap k)) refl
        λ s. send_all-closed msg when i is (record b { heap = update b.heap k s }) l
    where
      by_send :
          (r : Sending M)
          → send msg (when k) (b.heap k) ≡ r
          → ((s : Subscriber M)
              → member i is ≡ true
              → (update b.heap k s i).ch_closed ≡ true
              → (send_all msg when is (record b { heap = update b.heap k s })).1 ≡ panicked)
          → (send_all msg when (k ∷ is) b).1 ≡ panicked
      by_send (ends o) e rest = rw (e, send_all) (send_ends msg (when k) (b.heap k) o (l k) e)
      by_send (goes_on s) e rest =
          let n : i ≢ k = λ p. cc (
            send_closed msg (when k) (b.heap k) (l k) (ap (λ j. (b.heap j).ch_closed) (sym p) ∙ h),
            e,
          ) in
          rw (e, send_all) (rest s (ground arith) (ground arith))

  cancel-closes :
      (own : ℕ → String) (topic : String) (i : ℕ) (b : InMemoryEventBus M)
      → IsWellFormed own b
      → member i (copies topic b) ≡ true
      → ((cancel topic i b).heap i).ch_closed ≡ true
  unfolding cancel copies
  cancel-closes own topic i b w m = elim (Option-cases (lookup topic b.subs)) [
    | inl e ↦ ground arith
    | inr (ids, e) ↦ ground (arith, w.live topic i)
  ]

  -- A subscriber of a topic on a well-formed bus is cancelled after a `Publish` to that topic has
  -- taken its copies and before it sends: if the context stays alive, the `Publish` sends on a
  -- closed channel, which panics.
  pub publish_races_cancel :
      (own : ℕ → String) (when : ℕ → Moment) (topic : String) (msg : M) (i : ℕ)
      (b : InMemoryEventBus M)
      → IsWellFormed own b
      → ((j : ℕ) → (when j).done ≡ false)
      → member i (copies topic b) ≡ true
      → (send_all msg when (copies topic b) (cancel topic i b)).1 ≡ panicked
  publish_races_cancel own when topic msg i b w l m =
      send_all-closed msg when i (copies topic b) (cancel topic i b) l m
        (cancel-closes own topic i b w m)
