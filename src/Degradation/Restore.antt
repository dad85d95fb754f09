-- ===== src/Degradation/Restore.antt =====
-- Two ticks: exports that were hidden come back, also where they should not.
use mathlib.Core.List.{Permᴰ}
use mathlib.Core.Option
use mathlib.Core.Path.{ap₂}
use rassberry.Base.{
  ℕ, String, List, Option, none, some, [], ◌∷◌, ◌≡◌, refl, ap, ◌∙◌, arith, inl, inr, eq_refl,
  Option-cases,
}
use rassberry.Base.Maps.{Map, lookup, lookup-insert, Distinct, Distinct-insert}
use rassberry.Contracts.{
  Health, HealthStatus, health_ready, health_degraded, health_failed, health_draining,
  health_stopped, health_unset, health_other, Exports,
}
use rassberry.Registry.{
  KernelRecord, DiscoveryRegistry, DiscoveryRecord, set_exports, update_health, list, mark_health,
}
use rassberry.Degradation.{DegradationPolicy, restore, hide, dispatch, visit, visit_all, tick}
use rassberry.Degradation.Cells.{shown, saved}
use rassberry.Degradation.Tick.{tick-Follows}

set_exports-Distinct :
    (id : String) (ex : Option Exports) (r : DiscoveryRegistry)
    → Distinct r.kernels
    → Distinct (set_exports id ex r).kernels
unfolding set_exports
set_exports-Distinct id ex r d = elim (Option-cases (lookup id r.kernels)) [
  | inl e ↦ rw (e, set_exports) d
  | inr (rec, e) ↦ rw (e, set_exports) (Distinct-insert id _ r.kernels d)
]

restore-Distinct :
    (id : String) (o : Option (Option Exports)) (p : DegradationPolicy)
    → Distinct p.reg.kernels
    → Distinct (restore id o p).reg.kernels
unfolding restore
restore-Distinct id none p d = d
restore-Distinct id (some ex) p d = set_exports-Distinct id ex p.reg d

hide-Distinct :
    (id : String) (o : Option Exports) (p : DegradationPolicy)
    → Distinct p.reg.kernels
    → Distinct (hide id o p).reg.kernels
unfolding hide
hide-Distinct id none p d = d
hide-Distinct id (some ex) p d = set_exports-Distinct id none p.reg d

dispatch-Distinct :
    (h : HealthStatus) (rec : DiscoveryRecord) (p : DegradationPolicy)
    → Distinct p.reg.kernels
    → Distinct (dispatch h rec p).reg.kernels
unfolding dispatch
dispatch-Distinct health_ready rec p d = restore-Distinct rec.id _ p d
dispatch-Distinct health_unset rec p d = d
dispatch-Distinct (health_other s) rec p d = d
dispatch-Distinct _ rec p d = hide-Distinct rec.id rec.exports p d

visit_all-Distinct :
    (ds : List DiscoveryRecord) (p : DegradationPolicy)
    → Distinct p.reg.kernels
    → Distinct (visit_all ds p).reg.kernels
unfolding visit_all visit
visit_all-Distinct [] p d = d
visit_all-Distinct (rec ∷ ds) p d =
    visit_all-Distinct ds (visit rec p) (dispatch-Distinct rec.health.status rec p d)

-- Another part of the program calls the registry between two ticks.
abbrev pub on_registry :
    (DiscoveryRegistry → DiscoveryRegistry) → DegradationPolicy → DegradationPolicy
on_registry f p = record p { reg = f p.reg }

-- The exports under an id: `none` if the id is unknown.
abbrev pub exports_of : String → DegradationPolicy → Option (Option Exports)
exports_of id p = Option.map (λ rec. rec.exports) (lookup id p.reg.kernels)

abbrev pub Hides : HealthStatus → Type 0
Hides health_degraded = Unit
Hides health_failed = Unit
Hides health_draining = Unit
Hides health_stopped = Unit
Hides _ = ⊥

shown-Hides :
    (h : HealthStatus) (ex : Option Exports) (kept : Option (Option Exports))
    → Hides h
    → shown h ex kept ≡ none
unfolding shown
shown-Hides h ex kept n = ground arith

-- What is kept of a kernel of which nothing was kept, and what a ready kernel then shows.
shown-saved :
    (h : HealthStatus) (ex : Option Exports)
    → Hides h
    → shown health_ready none (saved h ex none) ≡ ex
unfolding shown saved
shown-saved h none n = ground arith
shown-saved h (some ex) n = ground arith

saved-ready :
    (ex : Option Exports) (kept : Option (Option Exports)) → saved health_ready ex kept ≡ none
unfolding saved
saved-ready ex kept = refl

ap₃ :
    {A B C D : Type 0} (f : A → B → C → D) {a a' : A} {b b' : B} {c c' : C}
    → a ≡ a'
    → b ≡ b'
    → c ≡ c'
    → f a b c ≡ f a' b' c'
ap₃ f p q r = λ i. f (p i) (q i) (r i)

-- The record that `UpdateHealth` leaves under a known id.
healthy_record :
    (id : String) (h : Health) (t u v : ℕ) (r : DiscoveryRegistry) (rec : KernelRecord)
    → lookup id r.kernels ≡ some rec
    → (new : KernelRecord) × (lookup id (update_health id h t u v r).kernels ≡ some new)
      × (new.health.status ≡ h.status)
      × (new.exports ≡ rec.exports)
unfolding update_health
healthy_record id h t u v r rec e =
    (mark_health h t u v rec, lookup-insert id id _ r.kernels ∙ rw (eq_refl, e), refl, refl)

update_health-Distinct :
    (id : String) (h : Health) (t u v : ℕ) (r : DiscoveryRegistry)
    → Distinct r.kernels
    → Distinct (update_health id h t u v r).kernels
unfolding update_health
update_health-Distinct id h t u v r d = Distinct-insert id _ r.kernels d

-- One update of a kernel's health, and the tick behind it.
unfoldable pub settle :
    String → Health → ℕ → ℕ → ℕ → Map KernelRecord → DegradationPolicy → DegradationPolicy
settle id h t u v order p = tick order (on_registry (update_health id h t u v) p)

settle-Follows :
    (id : String) (h : Health) (t u v : ℕ) (order : Map KernelRecord) (p : DegradationPolicy)
    (rec : KernelRecord)
    → Distinct p.reg.kernels
    → Permᴰ (update_health id h t u v p.reg).kernels order
    → lookup id p.reg.kernels ≡ some rec
    → (new : KernelRecord) × (lookup id (settle id h t u v order p).reg.kernels ≡ some new)
      × (new.exports ≡ shown h.status rec.exports (lookup id p.snapshot))
      × (lookup id (settle id h t u v order p).snapshot
          ≡ saved h.status rec.exports (lookup id p.snapshot))
unfolding settle
settle-Follows id h t u v order p rec d perm e =
    let (new, found, status, same) = healthy_record id h t u v p.reg rec e in
    let q : DegradationPolicy = on_registry (update_health id h t u v) p in
    let (a, b) =
      tick-Follows order q id new (update_health-Distinct id h t u v p.reg d) perm found in
    (
      record new { exports = shown new.health.status new.exports (lookup id p.snapshot) },
      a,
      ap₂ (λ s ex. shown s ex (lookup id p.snapshot)) status same,
      b ∙ ap₂ (λ s ex. saved s ex (lookup id p.snapshot)) status same,
    )

settle-Distinct :
    (id : String) (h : Health) (t u v : ℕ) (order : Map KernelRecord) (p : DegradationPolicy)
    → Distinct p.reg.kernels
    → Distinct (settle id h t u v order p).reg.kernels
unfolding settle tick
settle-Distinct id h t u v order p d =
    visit_all-Distinct (list order) _ (update_health-Distinct id h t u v p.reg d)

-- A known kernel of which nothing is kept turns degraded, failed, draining or stopped, and a tick
-- later it shows no exports; it turns ready, and a tick later it shows the exports that it had,
-- and nothing of it is kept. The orders in which the ticks visit the map do not matter.
pub settle_round_trip :
    (id : String) (bad good : Health) (t u v w x y : ℕ) (o₁ o₂ : Map KernelRecord)
    (p : DegradationPolicy) (rec : KernelRecord)
    → Hides bad.status
    → good.status ≡ health_ready
    → Distinct p.reg.kernels
    → lookup id p.reg.kernels ≡ some rec
    → lookup id p.snapshot ≡ none
    → let q = settle id bad t u v o₁ p in
      Permᴰ (update_health id bad t u v p.reg).kernels o₁
      → Permᴰ (update_health id good w x y q.reg).kernels o₂
      → (exports_of id q ≡ some none)
        × (exports_of id (settle id good w x y o₂ q) ≡ some rec.exports)
        × (lookup id (settle id good w x y o₂ q).snapshot ≡ none)
settle_round_trip id bad good t u v w x y o₁ o₂ p rec hides ready d known fresh p₁ p₂ =
    let q = settle id bad t u v o₁ p in
    let (r₁, e₁, f₁, g₁) = settle-Follows id bad t u v o₁ p rec d p₁ known in
    let (r₂, e₂, f₂, g₂) =
      settle-Follows id good w x y o₂ q r₁ (settle-Distinct id bad t u v o₁ p d) p₂ e₁ in
    let h₁ : r₁.exports ≡ none = f₁ ∙ shown-Hides bad.status rec.exports _ hides in
    let k₁ : lookup id q.snapshot ≡ saved bad.status rec.exports none =
      g₁ ∙ ap (saved bad.status rec.exports) fresh in
    (
      ap (Option.map (λ r. r.exports)) e₁ ∙ ap some h₁,
      ap (Option.map (λ r. r.exports)) e₂
          ∙ ap some (f₂ ∙ ap₃ shown ready h₁ k₁ ∙ shown-saved bad.status rec.exports hides),
      g₂ ∙ ap₃ saved ready h₁ k₁ ∙ saved-ready none _,
    )
