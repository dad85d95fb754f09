-- ===== src/Bus/Invariant.antt =====
-- What every sequence of calls on the bus keeps.
use rassberry.Base.{
  ℕ, String, List, true, false, some, [], ◌∷◌, ◌≤◌, ◌<◌, ◌≡◌, ◌≢◌, ◌==◌, refl, sym, ap, arith,
  length, length-append, inl, inr, Bool-cases, if◌then◌else◌, eq_iff, ◌&&◌, not, Option-cases,
}
use rassberry.Base.Maps.{Map, lookup, lookup-insert, lookup-erase}
use rassberry.Bus.{
  Subscriber, InMemoryEventBus, capacity, Moment, update, remove, member, ids_of, copies, Sending,
  goes_on, ends, send, send_all, subscribe, store, shut, cancel_in, cancel, rest_of, receive,
}

-- No number occurs twice.
abbrev pub Nodup : List ℕ → Type 0
Nodup [] = Unit
Nodup (i ∷ is) = (member i is ≡ false) × Nodup is

module _ {M : Type 0} where
  -- The numbers that a topic lists: those of its own subscribers, made already and not closed.
  abbrev pub IsLive : (ℕ → String) → InMemoryEventBus M → String → ℕ → Type 0
  IsLive own b topic i =
      (own i ≡ topic) × (i < b.next) × ((b.heap i).closed ≡ false) × ((b.heap i).ch_closed ≡ false)

  -- `own` says to which topic a number was given.
  pub record IsWellFormed (own : ℕ → String) (b : InMemoryEventBus M) : Type 0 where
    pub live : (topic : String) (i : ℕ) → member i (copies topic b) ≡ true → IsLive own b topic i
    pub nodup : (topic : String) → Nodup (copies topic b)
    pub bounded : (i : ℕ) → length (b.heap i).ch ≤ capacity
    pub twins : (i : ℕ) → (b.heap i).closed ≡ (b.heap i).ch_closed
    pub listed : (topic : String) → lookup topic b.subs ≢ some []

member-remove :
    (i j : ℕ) (is : List ℕ) → member j (remove i is) ≡ true → (member j is ≡ true) × (i ≢ j)
member-remove i j [] h = cc
member-remove i j (k ∷ is) h = ground (arith, member-remove i j is)

Nodup-remove : (i : ℕ) (is : List ℕ) → Nodup is → Nodup (remove i is)
Nodup-remove i [] h = tt
Nodup-remove i (k ∷ is) h = ground (arith, member-remove i k is, Nodup-remove i is)

pub lookup-store :
    (topic t : String) (is : List ℕ) (m : Map (List ℕ))
    → ids_of (lookup t (store topic is m)) ≡ (if topic == t then is else ids_of (lookup t m))
lookup-store topic t [] m = ground (arith, lookup-erase topic t m)
lookup-store topic t (i ∷ is) m = ground (arith, lookup-insert topic t (i ∷ is) m)

stored :
    (topic t : String) (is : List ℕ) (m : Map (List ℕ))
    → lookup t m ≢ some []
    → lookup t (store topic is m) ≢ some []
stored topic t [] m h = ground (arith, lookup-erase topic t m)
stored topic t (i ∷ is) m h = ground (arith, lookup-insert topic t (i ∷ is) m)

length-rest_of : {M : Type 0} (ms : List M) → length (rest_of ms) ≤ length ms
length-rest_of [] = omega arith
length-rest_of (m ∷ ms) = omega arith

module _ {M : Type 0} where
  pub copies-subscribe :
      (topic t : String) (b : InMemoryEventBus M)
      → copies t (subscribe topic b).0
        ≡ (if topic == t then b.next ∷ copies topic b else copies t b)
  unfolding copies subscribe
  copies-subscribe topic t b =
      ground (arith, lookup-insert topic t (b.next ∷ ids_of (lookup topic b.subs)) b.subs)

  pub subscribe-IsWellFormed :
      (own : ℕ → String) (topic : String) (b : InMemoryEventBus M)
      → IsWellFormed own b
      → IsWellFormed (update own b.next topic) (subscribe topic b).0
  subscribe-IsWellFormed own topic b w = record {
    live = λ t i.
        unfold subscribe in
        ground (arith, copies-subscribe topic t b, w.live t i, w.live topic i, eq_iff topic t);
    nodup = λ t.
        unfold subscribe in
        ground (arith, copies-subscribe topic t b, w.nodup t, w.nodup topic, w.live topic b.next);
    bounded = λ i. unfold subscribe in ground (arith, w.bounded i);
    twins = λ i. unfold subscribe in ground (arith, w.twins i);
    listed = λ t.
        unfold subscribe in
        ground
          (arith, lookup-insert topic t (b.next ∷ ids_of (lookup topic b.subs)) b.subs, w.listed t);
  }

  -- The two ways of a cancel: it closes a subscriber that the topic lists, or closes nothing.
  closing-IsWellFormed :
      (own : ℕ → String) (topic : String) (i : ℕ) (b : InMemoryEventBus M)
      → member i (copies topic b) ≡ true
      → IsWellFormed own b
      → IsWellFormed own (record b {
        subs = store topic (remove i (copies topic b)) b.subs;
        heap = update b.heap i (shut (b.heap i));
      })
  closing-IsWellFormed own topic i b mem w = record {
    live = λ t j.
        unfold copies in
        ground (
          arith,
          lookup-store topic t (remove i (copies topic b)) b.subs,
          member-remove i j (copies topic b),
          w.live t j,
          w.live topic j,
          w.live topic i,
          eq_iff topic t,
        );
    nodup = λ t.
        unfold copies in
        ground (
          arith,
          lookup-store topic t (remove i (copies topic b)) b.subs,
          w.nodup t,
          Nodup-remove i (copies topic b),
          w.nodup topic,
        );
    bounded = λ j. ground (arith, w.bounded j, w.bounded i);
    twins = λ j. ground (arith, w.twins j);
    listed = λ t. stored topic t (remove i (copies topic b)) b.subs (w.listed t);
  }

  still-IsWellFormed :
      (own : ℕ → String) (topic : String) (b : InMemoryEventBus M)
      → IsWellFormed own b
      → IsWellFormed own (record b { subs = store topic (copies topic b) b.subs })
  still-IsWellFormed own topic b w = record {
    live = λ t j.
        unfold copies in
        ground (
          arith,
          lookup-store topic t (copies topic b) b.subs,
          w.live t j,
          w.live topic j,
          eq_iff topic t,
        );
    nodup = λ t.
        unfold copies in
        ground (arith, lookup-store topic t (copies topic b) b.subs, w.nodup t, w.nodup topic);
    bounded = w.bounded;
    twins = w.twins;
    listed = λ t. stored topic t (copies topic b) b.subs (w.listed t);
  }

  pub cancel-IsWellFormed :
      (own : ℕ → String) (topic : String) (i : ℕ) (b : InMemoryEventBus M)
      → IsWellFormed own b
      → IsWellFormed own (cancel topic i b)
  unfolding cancel
  cancel-IsWellFormed own topic i b w = elim (Option-cases (lookup topic b.subs)) [
    | inl e ↦ rw (e, cancel_in) w
    | inr (ids, e) ↦
        let same : ids ≡ copies topic b = unfold copies in sym (ap ids_of e) in
        elim (Bool-cases (member i ids && not (b.heap i).closed)) [
          | inl c ↦
              rw (e, cancel_in, c, same)
                (closing-IsWellFormed own topic i b (ground (arith, ap (member i) same)) w)
          | inr c ↦ rw (e, cancel_in, c, same) (still-IsWellFormed own topic b w)
        ]
  ]

  pub receive-IsWellFormed :
      (own : ℕ → String) (i : ℕ) (b : InMemoryEventBus M)
      → IsWellFormed own b
      → IsWellFormed own (receive i b)
  unfolding receive copies
  receive-IsWellFormed own i b w = record {
    live = λ t j h. unfold copies in ground (arith, w.live t j);
    nodup = w.nodup;
    bounded = λ j. ground (arith, w.bounded j, w.bounded i, length-rest_of (b.heap i).ch);
    twins = λ j. ground (arith, w.twins j, w.twins i);
    listed = w.listed;
  }

  -- A send that goes on changes nothing of the subscriber but its buffer, and not beyond its end.
  send_keeps :
      (msg : M) (x : Moment) (s s' : Subscriber M)
      → send msg x s ≡ goes_on s'
      → length s.ch ≤ capacity
      → (s'.closed ≡ s.closed) × (s'.ch_closed ≡ s.ch_closed) × (length s'.ch ≤ capacity)
  unfolding send
  send_keeps msg x s s' e h = ground (arith, length-append s.ch (msg ∷ []))

  served-IsWellFormed :
      (own : ℕ → String) (i : ℕ) (s : Subscriber M) (b : InMemoryEventBus M)
      → s.closed ≡ (b.heap i).closed
      → s.ch_closed ≡ (b.heap i).ch_closed
      → length s.ch ≤ capacity
      → IsWellFormed own b
      → IsWellFormed own (record b { heap = update b.heap i s })
  unfolding copies
  served-IsWellFormed own i s b p q h w = record {
    live = λ t j m. ground (arith, w.live t j m);
    nodup = w.nodup;
    bounded = λ j. ground (arith, w.bounded j);
    twins = λ j. ground (arith, w.twins j, w.twins i);
    listed = w.listed;
  }

  pub send_all-IsWellFormed :
      (own : ℕ → String) (msg : M) (when : ℕ → Moment) (is : List ℕ) (b : InMemoryEventBus M)
      → IsWellFormed own b
      → IsWellFormed own (send_all msg when is b).0
  unfolding send_all
  send_all-IsWellFormed own msg when [] b w = w
  send_all-IsWellFormed own msg when (i ∷ is) b w =
      by_send (send msg (when i) (b.heap i)) refl
        λ s. send_all-IsWellFormed own msg when is (record b { heap = update b.heap i s })
    where
      by_send :
          (r : Sending M)
          → send msg (when i) (b.heap i) ≡ r
          → ((s : Subscriber M)
              → IsWellFormed own (record b { heap = update b.heap i s })
              → IsWellFormed own (send_all msg when is (record b { heap = update b.heap i s })).0)
          → IsWellFormed own (send_all msg when (i ∷ is) b).0
      by_send (ends o) e rest = rw (e, send_all) w
      by_send (goes_on s) e rest =
          let (p, q, h) = send_keeps msg (when i) (b.heap i) s e (w.bounded i) in
          rw (e, send_all) (rest s (served-IsWellFormed own i s b p q h w))
