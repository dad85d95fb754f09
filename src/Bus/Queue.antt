-- ===== src/Bus/Queue.antt =====
-- What one subscriber sees of the bus: a queue of its own, whatever the others do.
use rassberry.Base.{
  ℕ, String, List, true, false, [], ◌∷◌, ◌++◌, ◌≡◌, ◌≢◌, ◌==◌, refl, ap, ◌∙◌, arith, length, inl,
  inr, Bool-cases, Option-cases, if◌then◌else◌, ltb, eq_iff, nat_eq, not, ◌&&◌, All,
}
use rassberry.Base.Maps.{lookup}
use rassberry.Bus.{
  Subscriber, InMemoryEventBus, capacity, Moment, remove, member, ids_of, copies, publish,
  subscribe, cancel_in, cancel, rest_of, receive,
}
use rassberry.Bus.Invariant.{IsWellFormed, copies-subscribe, lookup-store}
use rassberry.Bus.Calls.{
  Call, publish_call, subscribe_call, cancel_call, receive_call, call, calls, call-IsWellFormed,
}
use rassberry.Bus.Delivery.{offer, publish_delivers}

member-remove_other :
    (i j : ℕ) (is : List ℕ) → i ≢ j → member i is ≡ true → member i (remove j is) ≡ true
member-remove_other i j [] n h = cc
member-remove_other i j (k ∷ is) n h = ground (arith, member-remove_other i j is n)

module _ {M : Type 0} where
  -- The specification: a queue that takes a message of its topic if it has room for it.
  unfoldable pub queue_call : String → ℕ → Call M → List M → List M
  queue_call topic i (publish_call when t msg) q =
      if t == topic then if ltb (length q) capacity then q ++ msg ∷ [] else q else q
  queue_call topic i (receive_call j) q = if nat_eq i j then rest_of q else q
  queue_call topic i (subscribe_call t) q = q
  queue_call topic i (cancel_call t j) q = q

  unfoldable pub queue_calls : String → ℕ → List (Call M) → List M → List M
  queue_calls topic i [] q = q
  queue_calls topic i (c ∷ cs) q = queue_calls topic i cs (queue_call topic i c q)

  -- The contexts of the publishers stay alive, and the subscriber does not cancel.
  abbrev pub Stays : String → ℕ → Call M → Type 0
  Stays topic i (publish_call when t msg) = (j : ℕ) → (when j).done ≡ false
  Stays topic i (cancel_call t j) = (t ≡ topic) → (i ≢ j)
  Stays topic i _ = Unit

  abbrev pub IsListed : String → ℕ → InMemoryEventBus M → Type 0
  IsListed topic i b = member i (copies topic b) ≡ true

  pub publish-queue :
      (own : ℕ → String) (topic : String) (i : ℕ) (b : InMemoryEventBus M) (when : ℕ → Moment)
      (t : String) (msg : M)
      → IsWellFormed own b
      → IsListed topic i b
      → ((j : ℕ) → (when j).done ≡ false)
      → IsListed topic i (publish when t msg b).0
        × (((publish when t msg b).0.heap i).ch
            ≡ queue_call topic i (publish_call when t msg) (b.heap i).ch)
  unfolding copies queue_call offer
  publish-queue own topic i b when t msg w l a =
      let (o, f, s, n) = publish_delivers own when t msg b w a in
      (
        ap (λ m. member i (ids_of (lookup topic m))) s ∙ l,
        ap (λ (x : Subscriber M). x.ch) (f i) ∙ elim (Bool-cases (t == topic)) [
          | inl e ↦ rw (e) (ground (arith, l, eq_iff t topic))
          | inr e ↦ rw (e) (ground (arith, w.live topic i l, w.live t i, eq_iff t topic))
        ],
      )

  cancel-queue :
      (topic : String) (i : ℕ) (b : InMemoryEventBus M) (t : String) (j : ℕ)
      → IsListed topic i b
      → ((t ≡ topic) → (i ≢ j))
      → IsListed topic i (cancel t j b) × (((cancel t j b).heap i).ch ≡ (b.heap i).ch)
  unfolding cancel copies
  cancel-queue topic i b t j l n = elim (Option-cases (lookup t b.subs)) [
    | inl e ↦ rw (e, cancel_in) (l, refl)
    | inr (ids, e) ↦ elim (Bool-cases (member j ids && not (b.heap j).closed)) [
      | inl c ↦
          rw (e, cancel_in, c)
            (
              ground (
                arith,
                l,
                n,
                lookup-store t topic (remove j ids) b.subs,
                eq_iff t topic,
                member-remove_other i j ids,
                ap ids_of e,
                λ (p : t ≡ topic). ap (λ x. ids_of (lookup x b.subs)) p,
              ),
              ground (arith),
            )
      | inr c ↦
          rw (e, cancel_in, c)
            (
              ground (
                arith,
                l,
                lookup-store t topic ids b.subs,
                eq_iff t topic,
                ap ids_of e,
                λ (p : t ≡ topic). ap (λ x. ids_of (lookup x b.subs)) p,
              ),
              refl,
            )
    ]
  ]

  pub call-queue :
      (c : Call M) (own : ℕ → String) (topic : String) (i : ℕ) (b : InMemoryEventBus M)
      → IsWellFormed own b
      → IsListed topic i b
      → Stays topic i c
      → IsListed topic i (call c b) × (((call c b).heap i).ch ≡ queue_call topic i c (b.heap i).ch)
  unfolding call queue_call
  call-queue (publish_call when t msg) own topic i b w l s =
      publish-queue own topic i b when t msg w l s
  call-queue (subscribe_call t) own topic i b w l s =
      unfold subscribe in
      (
        ground (arith, copies-subscribe t topic b, l, eq_iff t topic),
        ground (arith, w.live topic i l),
      )
  call-queue (cancel_call t j) own topic i b w l s = cancel-queue topic i b t j l s
  call-queue (receive_call j) own topic i b w l s =
      unfold receive in (unfold copies in l, ground (arith))

  -- On a well-formed bus, the channel of a subscriber of a topic is, behind every sequence of calls in
  -- which the contexts of the publishers stay alive and that subscriber is not cancelled, what a
  -- queue of its own would be: it takes the messages of its topic while it has room for 16, in
  -- their order, and gives the oldest to each of its receives.
  pub calls-queue :
      (cs : List (Call M)) (own : ℕ → String) (topic : String) (i : ℕ) (b : InMemoryEventBus M)
      → IsWellFormed own b
      → IsListed topic i b
      → All (Stays topic i) cs
      → ((calls cs b).heap i).ch ≡ queue_calls topic i cs (b.heap i).ch
  unfolding calls queue_calls
  calls-queue [] own topic i b w l s = refl
  calls-queue (c ∷ cs) own topic i b w l s =
      let (m, e) = call-queue c own topic i b w l s.0 in
      let (own', w') = call-IsWellFormed c own b w in
      calls-queue cs own' topic i (call c b) w' m s.1 ∙ ap (queue_calls topic i cs) e
