-- ===== src/Bus/Calls.antt =====
-- The bus under any sequence of calls.
use rassberry.Base.{
  ℕ, String, List, [], ◌∷◌, ◌≡◌, ◌&&◌, not, refl, suc, arith, ◌∙◌, ap, if_both, Option-cases, inl,
  inr,
}
use rassberry.Base.Maps.{lookup}
use rassberry.Bus.{
  InMemoryEventBus, Subscriber, Moment, update, new_bus, copies, publish, subscribe, cancel,
  receive, send, send_all, Sending, goes_on, ends, cancel_in, member,
}
use rassberry.Bus.Invariant.{
  IsWellFormed, subscribe-IsWellFormed, cancel-IsWellFormed, receive-IsWellFormed,
  send_all-IsWellFormed,
}

pub data Call (M : Type 0) : Type 0 where
  publish_call : (ℕ → Moment) → String → M → Call M
  subscribe_call : String → Call M
  cancel_call : String → ℕ → Call M
  receive_call : ℕ → Call M

module _ {M : Type 0} where
  unfoldable pub call : Call M → InMemoryEventBus M → InMemoryEventBus M
  call (publish_call when topic msg) b = (publish when topic msg b).0
  call (subscribe_call topic) b = (subscribe topic b).0
  call (cancel_call topic i) b = cancel topic i b
  call (receive_call i) b = receive i b

  unfoldable pub calls : List (Call M) → InMemoryEventBus M → InMemoryEventBus M
  calls [] b = b
  calls (c ∷ cs) b = calls cs (call c b)

  pub call-IsWellFormed :
      (c : Call M) (own : ℕ → String) (b : InMemoryEventBus M)
      → IsWellFormed own b
      → (own' : ℕ → String) × IsWellFormed own' (call c b)
  unfolding call publish
  call-IsWellFormed (publish_call when topic msg) own b w =
      (own, send_all-IsWellFormed own msg when (copies topic b) b w)
  call-IsWellFormed (subscribe_call topic) own b w =
      (update own b.next topic, subscribe-IsWellFormed own topic b w)
  call-IsWellFormed (cancel_call topic i) own b w = (own, cancel-IsWellFormed own topic i b w)
  call-IsWellFormed (receive_call i) own b w = (own, receive-IsWellFormed own i b w)

  -- The topic of each subscriber, read off the calls: the subscriber that `Subscribe` makes has the
  -- next index, and is for the topic that the call names.
  unfoldable pub made_for : List (Call M) → ℕ → (ℕ → String) → ℕ → String
  made_for [] n own = own
  made_for (subscribe_call topic ∷ cs) n own = made_for cs (suc n) (update own n topic)
  made_for (publish_call when topic msg ∷ cs) n own = made_for cs n own
  made_for (cancel_call topic i ∷ cs) n own = made_for cs n own
  made_for (receive_call i ∷ cs) n own = made_for cs n own

  send_all-next :
      (msg : M) (when : ℕ → Moment) (is : List ℕ) (b : InMemoryEventBus M)
      → (send_all msg when is b).0.next ≡ b.next
  unfolding send_all
  send_all-next msg when [] b = refl
  send_all-next msg when (i ∷ is) b =
      by_send (send msg (when i) (b.heap i)) refl
        (λ s. send_all-next msg when is (record b { heap = update b.heap i s }))
    where
      by_send :
          (r : Sending M)
          → send msg (when i) (b.heap i) ≡ r
          → ((s : Subscriber M)
              → (send_all msg when is (record b { heap = update b.heap i s })).0.next ≡ b.next)
          → (send_all msg when (i ∷ is) b).0.next ≡ b.next
      by_send (ends o) e rest = rw (e, send_all) refl
      by_send (goes_on s) e rest = rw (e, send_all) (rest s)

  cancel-next : (topic : String) (i : ℕ) (b : InMemoryEventBus M) → (cancel topic i b).next ≡ b.next
  unfolding cancel
  cancel-next topic i b = elim (Option-cases (lookup topic b.subs)) [
    | inl e ↦ rw (e, cancel_in) refl
    | inr (ids, e) ↦
        rw (e, cancel_in)
          (if_both (λ (c : InMemoryEventBus M). c.next ≡ b.next)
            (member i ids && not (b.heap i).closed) refl refl)
  ]

  pub calls-IsWellFormed :
      (cs : List (Call M)) (n : ℕ) (own : ℕ → String) (b : InMemoryEventBus M)
      → b.next ≡ n
      → IsWellFormed own b
      → IsWellFormed (made_for cs n own) (calls cs b)
  unfolding calls made_for call publish subscribe receive
  calls-IsWellFormed [] n own b e w = w
  calls-IsWellFormed (publish_call when topic msg ∷ cs) n own b e w =
      calls-IsWellFormed cs n own _ (send_all-next msg when (copies topic b) b ∙ e)
        (send_all-IsWellFormed own msg when (copies topic b) b w)
  calls-IsWellFormed (subscribe_call topic ∷ cs) n own b e w =
      calls-IsWellFormed cs (suc n) (update own n topic) (subscribe topic b).0 (ap suc e)
        (rw (← e) (subscribe-IsWellFormed own topic b w))
  calls-IsWellFormed (cancel_call topic i ∷ cs) n own b e w =
      calls-IsWellFormed cs n own (cancel topic i b) (cancel-next topic i b ∙ e)
        (cancel-IsWellFormed own topic i b w)
  calls-IsWellFormed (receive_call i ∷ cs) n own b e w =
      calls-IsWellFormed cs n own (receive i b) e (receive-IsWellFormed own i b w)

  -- After any sequence of calls on a new bus, each subscriber that a topic lists was made by a
  -- `Subscribe` for that topic (the k-th `Subscribe` among the calls makes subscriber k) and is open, no topic lists one twice or is kept with an empty list, no buffer is longer
  -- than its channel, and a channel is closed exactly when its subscriber is marked as closed.
  pub calls-new-IsWellFormed :
      (cs : List (Call M)) → IsWellFormed (made_for cs 0 (λ i. "")) (calls cs new_bus)
  unfolding new_bus
  calls-new-IsWellFormed cs = calls-IsWellFormed cs 0 (λ i. "") new_bus refl new-IsWellFormed
    where
      new-IsWellFormed : IsWellFormed {M = M} (λ i. "") new_bus
      new-IsWellFormed = record {
        live = λ t i h. unfold new_bus copies lookup in cc;
        nodup = λ t. unfold new_bus copies lookup in tt;
        bounded = λ i. unfold new_bus in omega arith;
        twins = λ i. unfold new_bus in refl;
        listed = λ t e. unfold new_bus lookup in cc;
      }
