-- ===== src/Registry/Aggregate/Severity.antt =====
-- What the summary of the kernels' health says: the worst status reported, and the reason of the
-- first kernel visited that is not ready.
use Prim.Native.Nat.{max}
use Prim.Native.String.{◌++◌}
use mathlib.Core.List
use mathlib.Core.List.{Permᴰ}
use text.Mathlib.TextLemmas.{append-eq-nil_iff}
use rassberry.Base.{
  ℕ, zero, suc, String, List, false, [], ◌∷◌, ◌==◌, ◌≡◌, ◌≢◌, refl, ◌≤◌, arith, ◌∙◌, sym, ap, ◌⊎◌,
  inl, inr, ne_of_false,
}
use rassberry.Contracts.{
  Health, HealthStatus, health_ready, health_degraded, health_failed, health_draining,
  health_stopped, health_unset, health_other,
}
use rassberry.Registry.{KernelRecord}
use rassberry.Registry.Aggregate.{
  absorb_reported, absorb, absorb_all, started_at, aggregate_health, or_ready, earlier,
}

-- The severity of a status; what is not one of the five constants counts as ready.
abbrev pub rank : HealthStatus → ℕ
rank health_failed = 4
rank health_degraded = 3
rank health_draining = 2
rank health_stopped = 1
rank _ = 0

abbrev pub status_of_rank : ℕ → HealthStatus
status_of_rank zero = health_ready
status_of_rank (suc zero) = health_stopped
status_of_rank (suc (suc zero)) = health_draining
status_of_rank (suc (suc (suc zero))) = health_degraded
status_of_rank _ = health_failed

-- The worst severity among the records.
unfoldable pub worst : List KernelRecord → ℕ
worst [] = 0
worst (rec ∷ order) = max (rank rec.health.status) (worst order)

-- The status of a summary is never one of the two texts outside the constants.
abbrev IsNamed : HealthStatus → Type 0
IsNamed health_unset = ⊥
IsNamed (health_other _) = ⊥
IsNamed _ = Unit

absorb-rank :
    (rec : KernelRecord) (s : Health)
    → IsNamed s.status
    → (rank (absorb rec s).status ≡ max (rank rec.health.status) (rank s.status))
      × IsNamed (absorb rec s).status
unfolding absorb
absorb-rank rec s h = ground arith

absorb_all-rank :
    (order : List KernelRecord) (s : Health)
    → IsNamed s.status
    → (rank (absorb_all order s).status ≡ max (worst order) (rank s.status))
      × IsNamed (absorb_all order s).status
unfolding absorb_all worst
absorb_all-rank [] s h = (omega arith, h)
absorb_all-rank (rec ∷ order) s h =
    let (e, n) = absorb-rank rec s h in
    let (f, m) = absorb_all-rank order (absorb rec s) n in (omega arith, m)

named_status : (h : HealthStatus) (k : ℕ) → IsNamed h → rank h ≡ k → or_ready h ≡ status_of_rank k
named_status h k n e = rw (← e) (named h n)
  where
    named : (h : HealthStatus) → IsNamed h → or_ready h ≡ status_of_rank (rank h)
    named h n = ground arith

-- For every order in which the records are visited, the status of the summary is the worst one
-- reported: failed before degraded, draining, stopped and ready.
pub aggregate_health-worst :
    (now late : ℕ) (order : List KernelRecord)
    → (aggregate_health now late order).status ≡ status_of_rank (worst order)
unfolding aggregate_health
aggregate_health-worst now late [] = unfold worst in refl
aggregate_health-worst now late (rec ∷ order) =
    let (e, n) = absorb_all-rank (rec ∷ order) (started_at now) tt in
    named_status _ _ n (omega (arith, e))

pub worst-perm : {o₁ o₂ : List KernelRecord} → Permᴰ o₁ o₂ → worst o₁ ≡ worst o₂
unfolding worst
worst-perm Permᴰ.nil = refl
worst-perm (Permᴰ.cons {a} {b} e p) =
    omega (arith, worst-perm p, ap (λ (r : KernelRecord). rank r.health.status) e)
worst-perm (Permᴰ.swap {a} {b} {a'} {b'} e f) = omega (
  arith,
  ap (λ (r : KernelRecord). rank r.health.status) e,
  ap (λ (r : KernelRecord). rank r.health.status) f,
)
worst-perm (Permᴰ.trans p q) = worst-perm p ∙ worst-perm q

-- The status of the summary does not depend on the order in which the runtime visits the map.
pub aggregate_health-perm :
    (now late : ℕ) {o₁ o₂ : List KernelRecord}
    → Permᴰ o₁ o₂
    → (aggregate_health now late o₁).status ≡ (aggregate_health now late o₂).status
aggregate_health-perm now late {o₁} {o₂} p =
    rw (aggregate_health-worst now late o₁, aggregate_health-worst now late o₂, worst-perm p)

-- The text that a kernel of that status would be blamed with, or `rest`.
abbrev pub blame : HealthStatus → String → String → String
blame health_failed id rest = "kernel failed: " ++ id
blame health_degraded id rest = "kernel degraded: " ++ id
blame health_draining id rest = "kernel draining: " ++ id
blame health_stopped id rest = "kernel stopped: " ++ id
blame _ id rest = rest

unfoldable pub first_blame : List KernelRecord → String
first_blame [] = ""
first_blame (rec ∷ order) = blame rec.health.status rec.manifest.kernel_id (first_blame order)

-- Either no kernel was blamed yet, or one was.
abbrev Blamed : Health → Type 0
Blamed s = (s.status ≢ health_ready) × ((s.reason == "") ≡ false) × IsNamed s.status

absorb-Blamed :
    (rec : KernelRecord) (s : Health)
    → Blamed s
    → Blamed (absorb rec s) × ((absorb rec s).reason ≡ s.reason)
unfolding absorb
absorb-Blamed rec s h = ground arith

absorb_all-Blamed :
    (order : List KernelRecord) (s : Health) → Blamed s → (absorb_all order s).reason ≡ s.reason
unfolding absorb_all
absorb_all-Blamed [] s h = refl
absorb_all-Blamed (rec ∷ order) s h =
    let (b, e) = absorb-Blamed rec s h in absorb_all-Blamed order (absorb rec s) b ∙ e

text_ne_empty : (p id : String) → p ≢ "" → ((p ++ id) == "") ≡ false
text_ne_empty p id n = ne_of_false _ _ (λ e. n (append-eq-nil_iff.0 e).0)

-- One round from a summary that blames nobody.
absorb_reported-started :
    (h : HealthStatus) (rec : KernelRecord) (since : ℕ) (rest : String)
    → ((later : ℕ) × (absorb_reported h rec (started_at since) ≡ started_at later)
        × (blame h rec.manifest.kernel_id rest ≡ rest))
      ⊎ (Blamed (absorb_reported h rec (started_at since))
          × ((absorb_reported h rec (started_at since)).reason
              ≡ blame h rec.manifest.kernel_id rest))
unfolding absorb_reported
absorb_reported-started health_ready rec t rest = inl (earlier rec.health.since t, refl, refl)
absorb_reported-started health_unset rec t rest = inl (t, refl, refl)
absorb_reported-started (health_other _) rec t rest = inl (earlier rec.health.since t, refl, refl)
absorb_reported-started health_failed rec t rest =
    inr ((λ e. cc, text_ne_empty "kernel failed: " _ (λ e. cc), tt), refl)
absorb_reported-started health_degraded rec t rest =
    inr ((λ e. cc, text_ne_empty "kernel degraded: " _ (λ e. cc), tt), refl)
absorb_reported-started health_draining rec t rest =
    inr ((λ e. cc, text_ne_empty "kernel draining: " _ (λ e. cc), tt), refl)
absorb_reported-started health_stopped rec t rest =
    inr ((λ e. cc, text_ne_empty "kernel stopped: " _ (λ e. cc), tt), refl)

absorb_all-started :
    (order : List KernelRecord) (since : ℕ)
    → (absorb_all order (started_at since)).reason ≡ first_blame order
unfolding absorb_all absorb first_blame
absorb_all-started [] since = refl
absorb_all-started (rec ∷ order) since =
    elim (absorb_reported-started rec.health.status rec since (first_blame order)) [
      | inl (later, e, f) ↦
          ap (λ (s : Health). (absorb_all order s).reason) e
          ∙ absorb_all-started order later
          ∙ sym f
      | inr (b, e) ↦ absorb_all-Blamed order _ b ∙ e
    ]

-- For every order of visits, the reason of the summary is that of the first kernel visited that
-- is stopped, draining, degraded or failed, and empty if there is none: it need not be the kernel
-- that decides the status.
pub aggregate_health-reason :
    (now late : ℕ) (order : List KernelRecord)
    → (aggregate_health now late order).reason ≡ first_blame order
unfolding aggregate_health
aggregate_health-reason now late [] = unfold first_blame in refl
aggregate_health-reason now late (rec ∷ order) = absorb_all-started (rec ∷ order) now

failed_of_rank : (k : ℕ) → 4 ≤ k → status_of_rank k ≡ health_failed
failed_of_rank (suc (suc (suc (suc k)))) h = refl
failed_of_rank k h = ground arith

-- The severity of a list is at least that of each record in it.
worst-append-ge :
    (front : List KernelRecord) (b : KernelRecord) (rest : List KernelRecord)
    → rank b.health.status ≤ worst (List.◌++◌ front (b ∷ rest))
unfolding worst
worst-append-ge [] b rest = omega arith
worst-append-ge (r ∷ front) b rest = omega (arith, worst-append-ge front b rest)

-- A kernel whose status counts as ready is never blamed.
blame_none : (h : HealthStatus) (id rest : String) → rank h ≡ 0 → blame h id rest ≡ rest
blame_none h id rest e = ground arith

-- The records in front that count as ready leave the blame to those behind them.
first_blame-append :
    (front order : List KernelRecord)
    → worst front ≡ 0
    → first_blame (List.◌++◌ front order) ≡ first_blame order
unfolding worst first_blame
first_blame-append [] order e = refl
first_blame-append (r ∷ front) order e =
    blame_none r.health.status _ _ (omega (arith, e))
    ∙ first_blame-append front order (omega (arith, e))

-- The visits in their order, with `a` somewhere in front of `b`.
abbrev pub visits :
    List KernelRecord
    → KernelRecord
    → List KernelRecord
    → KernelRecord
    → List KernelRecord
    → List KernelRecord
visits front a mid b rest = List.◌++◌ front (a ∷ List.◌++◌ mid (b ∷ rest))

failed_behind :
    (front mid rest : List KernelRecord) (a b : KernelRecord)
    → b.health.status ≡ health_failed
    → 4 ≤ worst (visits front a mid b rest)
unfolding worst
failed_behind [] mid rest a b q = omega (arith, ap rank q, worst-append-ge mid b rest)
failed_behind (r ∷ front) mid rest a b q = omega (arith, failed_behind front mid rest a b q)

-- Whenever a degraded kernel is visited somewhere before a failed one, and no kernel visited before
-- the degraded one is stopped, draining, degraded or failed, the summary is `failed` and its reason
-- names the degraded kernel.
pub aggregate_health-misblames :
    (now late : ℕ) (front mid rest : List KernelRecord) (a b : KernelRecord)
    → worst front ≡ 0
    → a.health.status ≡ health_degraded
    → b.health.status ≡ health_failed
    → ((aggregate_health now late (visits front a mid b rest)).status ≡ health_failed)
      × ((aggregate_health now late (visits front a mid b rest)).reason
          ≡ "kernel degraded: " ++ a.manifest.kernel_id)
aggregate_health-misblames now late front mid rest a b e p q = (
  aggregate_health-worst now late (visits front a mid b rest)
      ∙ failed_of_rank _ (failed_behind front mid rest a b q),
  aggregate_health-reason now late (visits front a mid b rest)
      ∙ first_blame-append front (a ∷ List.◌++◌ mid (b ∷ rest)) e
      ∙ (unfold first_blame in rw p),
)
