-- ===== src/Supervisor/Live.antt =====
-- How many of a supervisor's goroutines have not returned.
use native.Mathlib.Decide.{ℕ_discrete}
use rassberry.Base.{ℕ, zero, suc, ◌+◌, ◌<◌, ◌≤◌, ◌≡◌, refl, ap, ◌∙◌, arith, subst}
use rassberry.Supervisor.Backoff.{Float}
use rassberry.Supervisor.{Place, checking, gone, Worker, update}

abbrev pub alive : Place → ℕ
alive gone = 0
alive _ = 1

module _ {fl : Float} {E : Type 0} where
  -- How many of the first workers have not returned.
  abbrev pub live : (ℕ → Worker fl E) → ℕ → ℕ
  live f zero = 0
  live f (suc n) = live f n + alive (f n).place

  pub live-update_ge :
      (f : ℕ → Worker fl E) (i n : ℕ) (v : Worker fl E) → n ≤ i → live (update f i v) n ≡ live f n
  live-update_ge f i zero v h = refl
  live-update_ge f i (suc n) v h = ground (arith, live-update_ge f i n v)

  pub live-update :
      (f : ℕ → Worker fl E) (i n : ℕ) (v : Worker fl E)
      → i < n
      → live (update f i v) n + alive (f i).place ≡ live f n + alive v.place
  live-update f i zero v h = absurd (omega arith)
  live-update f i (suc n) v h = elim (ℕ_discrete i n) [
    | yes p ↦
        subst
          (λ (m : ℕ).
            live (update f i v) m + alive (update f i v m).place + alive (f i).place
            ≡ live f m + alive (f m).place + alive v.place)
          p
          (let u : update f i v i ≡ v = ground arith in
            omega (arith, ap (λ (w : Worker fl E). alive w.place) u, live-update_ge f i i v))
    | no p ↦
        let u : update f i v n ≡ f n = ground arith in
        omega (arith, ap (λ (w : Worker fl E). alive w.place) u, live-update f i n v)
  ]

  pub live-grow :
      (f : ℕ → Worker fl E) (n : ℕ) (v : Worker fl E)
      → v.place ≡ checking
      → live (update f n v) (suc n) ≡ live f n + 1
  live-grow f n v e =
      let u : update f n v n ≡ v = ground arith in
      omega (arith, live-update_ge f n n v, ap (λ (w : Worker fl E). alive w.place) u ∙ ap alive e)

  pub alive-le-live : (f : ℕ → Worker fl E) (i n : ℕ) → i < n → alive (f i).place ≤ live f n
  alive-le-live f i zero h = absurd (omega arith)
  alive-le-live f i (suc n) h = elim (ℕ_discrete i n) [
    | yes p ↦ let e = ap (λ (k : ℕ). alive (f k).place) p in omega arith
    | no p ↦ omega (arith, alive-le-live f i n)
  ]
