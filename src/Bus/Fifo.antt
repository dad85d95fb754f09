-- ===== src/Bus/Fifo.antt =====
-- What a subscriber receives, against what is published to its topic.
use rassberry.Base.{
  ℕ, String, List, [], ◌∷◌, ◌++◌, ◌<◌, ◌≡◌, ◌==◌, refl, sym, ap, ◌∙◌, arith, length, if◌then◌else◌,
  eq_iff, nat_eq, All, append_assoc, append_nil, eq_refl,
}
use rassberry.Bus.{InMemoryEventBus, capacity, rest_of, subscribe}
use rassberry.Bus.Invariant.{IsWellFormed, subscribe-IsWellFormed, copies-subscribe}
use rassberry.Bus.Calls.{
  Call, publish_call, subscribe_call, cancel_call, receive_call, call, calls, call-IsWellFormed,
}
use rassberry.Bus.Queue.{Stays, IsListed, queue_call, call-queue}

module _ {M : Type 0} where
  abbrev first_of : List M → List M
  first_of [] = []
  first_of (m ∷ ms) = m ∷ []

  -- What a call gives subscriber `i`.
  abbrev given : ℕ → Call M → InMemoryEventBus M → List M
  given i (receive_call j) b = if nat_eq i j then first_of (b.heap i).ch else []
  given i _ b = []

  -- What a call publishes to the topic.
  abbrev put : String → Call M → List M
  put topic (publish_call when t msg) = if t == topic then msg ∷ [] else []
  put topic _ = []

  unfoldable pub taken : ℕ → List (Call M) → InMemoryEventBus M → List M
  taken i [] b = []
  taken i (c ∷ cs) b = given i c b ++ taken i cs (call c b)

  unfoldable pub published_to : String → List (Call M) → List M
  published_to topic [] = []
  published_to topic (c ∷ cs) = put topic c ++ published_to topic cs

  abbrev RoomFor : String → ℕ → Call M → InMemoryEventBus M → Type 0
  RoomFor topic i (publish_call when t msg) b = (t ≡ topic) → length (b.heap i).ch < capacity
  RoomFor topic i _ b = Unit

  -- Whenever something is published to the topic, the channel of subscriber `i` has room.
  unfoldable pub HasRoom : String → ℕ → List (Call M) → InMemoryEventBus M → Type 0
  HasRoom topic i [] b = Unit
  HasRoom topic i (c ∷ cs) b = RoomFor topic i c b × HasRoom topic i cs (call c b)

  first-rest : (q : List M) → first_of q ++ rest_of q ≡ q
  first-rest [] = refl
  first-rest (m ∷ ms) = refl

  given-put :
      (c : Call M) (topic : String) (i : ℕ) (b : InMemoryEventBus M)
      → RoomFor topic i c b
      → given i c b ++ queue_call topic i c (b.heap i).ch ≡ (b.heap i).ch ++ put topic c
  unfolding queue_call
  given-put (publish_call when t msg) topic i b r =
      ground (arith, r, eq_iff t topic, append_nil (b.heap i).ch)
  given-put (receive_call j) topic i b r =
      ground (arith, first-rest (b.heap i).ch, append_nil (b.heap i).ch)
  given-put (subscribe_call t) topic i b r = sym (append_nil (b.heap i).ch)
  given-put (cancel_call t j) topic i b r = sym (append_nil (b.heap i).ch)

  -- On a well-formed bus, whose publishers' contexts stay alive, a subscriber of a topic that is not
  -- cancelled and whose channel has room whenever something is published to the topic receives
  -- what its channel held before and then what is published to the topic, each once and in that
  -- order; what it has not received yet is in its channel.
  pub calls-fifo :
      (cs : List (Call M)) (own : ℕ → String) (topic : String) (i : ℕ) (b : InMemoryEventBus M)
      → IsWellFormed own b
      → IsListed topic i b
      → All (Stays topic i) cs
      → HasRoom topic i cs b
      → taken i cs b ++ ((calls cs b).heap i).ch ≡ (b.heap i).ch ++ published_to topic cs
  unfolding calls taken published_to HasRoom
  calls-fifo [] own topic i b w l s r = sym (append_nil (b.heap i).ch)
  calls-fifo (c ∷ cs) own topic i b w l s r =
      let (m, e) = call-queue c own topic i b w l s.0 in
      let (own', w') = call-IsWellFormed c own b w in
      append_assoc (given i c b) (taken i cs (call c b)) _
      ∙ ap (λ q. given i c b ++ q) (calls-fifo cs own' topic i (call c b) w' m s.1 r.1)
      ∙ sym (append_assoc (given i c b) ((call c b).heap i).ch (published_to topic cs))
      ∙ ap (λ q. (given i c b ++ q) ++ published_to topic cs) e
      ∙ ap (λ q. q ++ published_to topic cs) (given-put c topic i b r.0)
      ∙ append_assoc (b.heap i).ch (put topic c) (published_to topic cs)

  pub subscribe-IsListed :
      (topic : String) (b : InMemoryEventBus M)
      → let (c, i) = subscribe topic b in IsListed topic i c × ((c.heap i).ch ≡ [])
  unfolding subscribe
  subscribe-IsListed topic b =
      (ground (arith, copies-subscribe topic topic b, eq_refl topic), ground arith)

  -- A new subscriber of a topic that stays receives, once its channel is empty again, what is
  -- published to the topic from then on.
  pub subscribed-taken :
      (own : ℕ → String) (topic : String) (b : InMemoryEventBus M) (cs : List (Call M))
      → IsWellFormed own b
      → let (c, i) = subscribe topic b in
        All (Stays topic i) cs
        → HasRoom topic i cs c
        → ((calls cs c).heap i).ch ≡ []
        → taken i cs c ≡ published_to topic cs
  subscribed-taken own topic b cs w s r d =
      let (c, i) = subscribe topic b in
      let (l, e) = subscribe-IsListed topic b in
      sym (append_nil (taken i cs c))
      ∙ ap (λ q. taken i cs c ++ q) (sym d)
      ∙ calls-fifo cs _ topic i c (subscribe-IsWellFormed own topic b w) l s r
      ∙ ap (λ q. q ++ published_to topic cs) e
