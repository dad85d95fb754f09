-- ===== src/Bus/Delivery.antt =====
-- What a `Publish` that nothing interrupts does.
use native.Mathlib.Decide.{ℕ_discrete}
use rassberry.Base.{
  subst, ℕ, String, List, true, false, [], ◌∷◌, ◌++◌, ◌≡◌, ◌≢◌, refl, arith, length, if◌then◌else◌,
  ltb, ◌∙◌, ap,
}
use rassberry.Bus.{
  Subscriber, InMemoryEventBus, capacity, sent, panicked, Moment, update, member, copies, Sending,
  goes_on, ends, send, send_all, publish,
}
use rassberry.Bus.Invariant.{Nodup, IsWellFormed}

module _ {M : Type 0} where
  -- The specification of one subscriber: it gets the message behind the others, or there is no room.
  unfoldable pub offer : M → Subscriber M → Subscriber M
  offer msg s = if ltb (length s.ch) capacity then record s { ch = s.ch ++ msg ∷ [] } else s

  send_live :
      (msg : M) (x : Moment) (s : Subscriber M)
      → x.done ≡ false
      → s.ch_closed ≡ false
      → send msg x s ≡ goes_on (offer msg s)
  unfolding send offer
  send_live msg x s h k = ground arith

  send_open :
      (msg : M) (x : Moment) (s : Subscriber M) → s.ch_closed ≡ false → send msg x s ≢ ends panicked
  unfolding send
  send_open msg x s h = ground arith

  goes_on_open :
      (msg : M) (x : Moment) (s s' : Subscriber M)
      → s.ch_closed ≡ false
      → send msg x s ≡ goes_on s'
      → s'.ch_closed ≡ false
  unfolding send
  goes_on_open msg x s s' h e = ground arith

  -- Every subscriber of the list is open.
  abbrev Open : InMemoryEventBus M → List ℕ → Type 0
  Open b is = (j : ℕ) → member j is ≡ true → (b.heap j).ch_closed ≡ false

  offer_keeps : (msg : M) (s : Subscriber M) → (offer msg s).ch_closed ≡ s.ch_closed
  unfolding offer
  offer_keeps msg s = ground arith

  -- Serving the first and then the others is serving all, if the first does not come again.
  served :
      (msg : M) (i j : ℕ) (is : List ℕ) (heap : ℕ → Subscriber M)
      → member i is ≡ false
      → (if member j is
          then offer msg (update heap i (offer msg (heap i)) j)
          else update heap i (offer msg (heap i)) j)
        ≡ (if member j (i ∷ is) then offer msg (heap j) else heap j)
  served msg i j is heap n = elim (ℕ_discrete i j) [
    | yes p ↦ subst (λ (k : ℕ). Served k) p (ground arith)
    | no p ↦ ground arith
  ]
    where
      Served : ℕ → Type 0
      Served k =
          (if member k is
            then offer msg (update heap i (offer msg (heap i)) k)
            else update heap i (offer msg (heap i)) k)
          ≡ (if member k (i ∷ is) then offer msg (heap k) else heap k)

  send_all-live :
      (msg : M) (when : ℕ → Moment) (is : List ℕ) (b : InMemoryEventBus M)
      → ((i : ℕ) → (when i).done ≡ false)
      → Nodup is
      → Open b is
      → let (q, o) = send_all msg when is b in
        (o ≡ sent)
        × ((j : ℕ) → q.heap j ≡ (if member j is then offer msg (b.heap j) else b.heap j))
        × (q.subs ≡ b.subs)
        × (q.next ≡ b.next)
  unfolding send_all
  send_all-live msg when [] b l n h = (refl, (λ j. refl), refl, refl)
  send_all-live msg when (i ∷ is) b l n h =
      let c : InMemoryEventBus M = record b { heap = update b.heap i (offer msg (b.heap i)) } in
      let (o, f, g, k) =
        send_all-live msg when is c l n.1
          (λ j m. ground (arith, h j, h i, offer_keeps msg (b.heap i))) in
      let e : send msg (when i) (b.heap i) ≡ goes_on (offer msg (b.heap i)) =
        send_live msg (when i) (b.heap i) (l i) (ground (arith, h i)) in
      rw (e, send_all) ((o, (λ j. f j ∙ served msg i j is (b.heap) n.0), g, k))

  -- On a well-formed bus, a `Publish` whose context stays alive and that nothing interrupts returns
  -- no error; each subscriber of the topic whose channel has room has the message behind the
  -- others, and every other subscriber, and the map of the topics, is as before.
  pub publish_delivers :
      (own : ℕ → String) (when : ℕ → Moment) (topic : String) (msg : M) (b : InMemoryEventBus M)
      → IsWellFormed own b
      → ((i : ℕ) → (when i).done ≡ false)
      → let (q, o) = publish when topic msg b in
        (o ≡ sent)
        × ((j : ℕ)
            → q.heap j ≡ (if member j (copies topic b) then offer msg (b.heap j) else b.heap j))
        × (q.subs ≡ b.subs)
        × (q.next ≡ b.next)
  unfolding publish
  publish_delivers own when topic msg b w l =
      send_all-live msg when (copies topic b) b l (w.nodup topic) (λ j m. (w.live topic j m).3)

  send_all-Open :
      (msg : M) (when : ℕ → Moment) (is : List ℕ) (b : InMemoryEventBus M)
      → Open b is
      → (send_all msg when is b).1 ≢ panicked
  unfolding send_all
  send_all-Open msg when [] b h = λ e. cc
  send_all-Open msg when (i ∷ is) b h =
      by_send (send msg (when i) (b.heap i)) refl
        λ s. send_all-Open msg when is (record b { heap = update b.heap i s })
    where
      by_send :
          (r : Sending M)
          → send msg (when i) (b.heap i) ≡ r
          → ((s : Subscriber M)
              → Open (record b { heap = update b.heap i s }) is
              → (send_all msg when is (record b { heap = update b.heap i s })).1 ≢ panicked)
          → (send_all msg when (i ∷ is) b).1 ≢ panicked
      by_send (ends o) e rest =
          rw (e, send_all)
            λ p. send_open msg (when i) (b.heap i) (ground (arith, h i)) (e ∙ ap ends p)
      by_send (goes_on s) e rest =
          rw (e, send_all)
            (rest s λ j m.
              ground
                (arith, h j, h i, goes_on_open msg (when i) (b.heap i) s (ground (arith, h i)) e))

  -- On a well-formed bus, a `Publish` that nothing interrupts never sends on a closed channel,
  -- whatever its context does meanwhile.
  pub publish-ne-panicked :
      (own : ℕ → String) (when : ℕ → Moment) (topic : String) (msg : M) (b : InMemoryEventBus M)
      → IsWellFormed own b
      → (publish when topic msg b).1 ≢ panicked
  unfolding publish
  publish-ne-panicked own when topic msg b w =
      send_all-Open msg when (copies topic b) b (λ j m. (w.live topic j m).3)
