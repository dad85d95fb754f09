-- ===== src/Telemetry/SafeLogHub/Burst.antt =====
-- A burst of calls of `Publish` within one window, none of which the loop serves meanwhile.
use rassberry.Base.{
  ℕ, zero, suc, List, [], ◌∷◌, ◌++◌, ◌+◌, ◌-◌, ◌<◌, ◌≤◌, ◌^◌, ◌≡◌, refl, ap, ◌∙◌, sym, arith,
  length, length-append, take, min, Bool-cases, inl, inr, if◌then◌else◌, ltb, ◌&&◌,
}
use rassberry.Base.Int.{pos, add64}
use rassberry.Telemetry.Record.{LogRecordV2}
use rassberry.Telemetry.SafeLogHub.{SafeLogHub, enter, limit, push, publish}

unfoldable pub publish_all : List LogRecordV2 → SafeLogHub → SafeLogHub
publish_all [] h = h
publish_all (rec ∷ recs) h = publish_all recs (publish rec h).0

next_count : (k : ℕ) → k + 1 < 2 ^ 63 → add64 (pos k) (pos 1) ≡ pos (k + 1)
unfolding add64
next_count k h = ground arith

-- One call, with `k` calls before it in the window.
publish-queue :
    (rec : LogRecordV2) (h : SafeLogHub) (m k : ℕ)
    → h.rate_max ≡ pos m
    → 0 < m
    → h.rate_now ≡ pos k
    → k + 1 < 2 ^ 63
    → ((publish rec h).0.in_queue ≡ (
        if ltb k m
        then (if ltb (length h.in_queue) h.buf then h.in_queue ++ rec ∷ [] else h.in_queue)
        else h.in_queue))
      × ((publish rec h).0.rate_now ≡ pos (k + 1))
      × ((publish rec h).0.rate_max ≡ pos m)
      × ((publish rec h).0.buf ≡ h.buf)
unfolding publish limit push enter
publish-queue rec h m k e p f b = rw (e, f, next_count k b) (ground arith)

append-nil {ℓ} : {A : Type ℓ} (l : List A) → l ++ [] ≡ l
append-nil [] = refl
append-nil (a ∷ l) = ap (λ m. a ∷ m) (append-nil l)

append-snoc {ℓ} : {A : Type ℓ} (l : List A) (a : A) (m : List A) → (l ++ a ∷ []) ++ m ≡ l ++ a ∷ m
append-snoc [] a m = refl
append-snoc (b ∷ l) a m = ap (λ n. b ∷ n) (append-snoc l a m)

take-nil {ℓ} : {A : Type ℓ} (n : ℕ) → take {A = A} n [] ≡ []
take-nil zero = refl
take-nil (suc n) = refl

-- What is queued by one call and by the calls behind it is what is queued by all of them.
room_left :
    {A : Type 0} (q q' : List A) (a : A) (l : List A) (m k buf : ℕ)
    → q' ≡ (if ltb k m then (if ltb (length q) buf then q ++ a ∷ [] else q) else q)
    → length q ≤ buf
    → (length q' ≤ buf)
      × (q' ++ take (min (m - (k + 1)) (buf - length q')) l
          ≡ q ++ take (min (m - k) (buf - length q)) (a ∷ l))
room_left q q' a l m k buf e h = elim (Bool-cases (ltb k m && ltb (length q) buf)) [
  | inl b ↦
      let x : q' ≡ q ++ a ∷ [] = ground arith in
      let n : length q' ≡ length q + 1 = ap (λ z. length z) x ∙ length-append q (a ∷ []) in
      let y : min (m - k) (buf - length q) ≡ suc (min (m - (k + 1)) (buf - length q')) =
        ground arith in
      (
        ground arith,
        ap (λ z. z ++ take (min (m - (k + 1)) (buf - length q')) l) x
            ∙ append-snoc q a _
            ∙ sym (ap (λ z. q ++ take z (a ∷ l)) y),
      )
  | inr b ↦
      let x : q' ≡ q = ground arith in
      let n : length q' ≡ length q = ap (λ z. length z) x in
      let y : min (m - k) (buf - length q) ≡ 0 = ground arith in
      let z : min (m - (k + 1)) (buf - length q') ≡ 0 = ground arith in
      (
        ground arith,
        ap (λ i. q' ++ take i l) z ∙ ap (λ i. i ++ []) x ∙ sym (ap (λ i. q ++ take i (a ∷ l)) y),
      )
]

-- Of a burst, the first records are queued, as many as the window's limit and the free room allow,
-- in their order; the others are dropped. Here `k` calls were made in the window before, and a
-- window has fewer than 2^63 calls.
pub publish_all-queue :
    (recs : List LogRecordV2) (h : SafeLogHub) (m k : ℕ)
    → h.rate_max ≡ pos m
    → 0 < m
    → h.rate_now ≡ pos k
    → k + length recs < 2 ^ 63
    → length h.in_queue ≤ h.buf
    → (publish_all recs h).in_queue
      ≡ h.in_queue ++ take (min (m - k) (h.buf - length h.in_queue)) recs
unfolding publish_all
publish_all-queue [] h m k e p f b l =
    sym (append-nil h.in_queue) ∙ sym (ap (λ z. h.in_queue ++ z) (take-nil _))
publish_all-queue (rec ∷ recs) h m k e p f b l =
    let (q, r, s, t) = publish-queue rec h m k e p f (omega arith) in
    let (n, x) = room_left h.in_queue (publish rec h).0.in_queue rec recs m k h.buf q l in
    publish_all-queue recs (publish rec h).0 m (k + 1) s p r (omega arith) (omega (arith, n, t))
    ∙ ap
        (λ z.
          (publish rec h).0.in_queue
          ++ take (min (m - (k + 1)) (z - length (publish rec h).0.in_queue)) recs)
        t
    ∙ x
