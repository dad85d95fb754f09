-- ===== src/Degradation/Stale.antt =====
-- What the policy keeps under an id survives the kernel: a new kernel of that id gets it.
use mathlib.Core.List.{Permᴰ}
use mathlib.Core.Option
use rassberry.Base.{
  ℕ, String, Option, some, ◌≡◌, ◌≢◌, refl, sym, ap, ◌∙◌, arith, eq_refl, ne_of_false,
}
use rassberry.Base.Maps.{Map, lookup, lookup-insert, Distinct, Distinct-insert, Distinct-erase}
use rassberry.Contracts.{HealthStatus, health_ready, Exports}
use rassberry.Registry.{KernelRecord, register, unregister, complete}
use rassberry.Degradation.{DegradationPolicy, tick}
use rassberry.Degradation.Cells.{shown}
use rassberry.Degradation.Tick.{tick-Follows}
use rassberry.Degradation.Restore.{on_registry, exports_of}

-- The kernel under an id is unregistered and another one registered in its place, as a reload of
-- a changed domain does.
unfoldable pub replace : String → KernelRecord → ℕ → ℕ → DegradationPolicy → DegradationPolicy
replace id new t u p = on_registry (λ r. register new t u (unregister id r)) p

complete_id : (new : KernelRecord) (t u : ℕ) → new.id ≢ "" → (complete new t u).id ≡ new.id
unfolding complete
complete_id new t u n = rw (ne_of_false _ _ n)

complete_keeps :
    (new : KernelRecord) (t u : ℕ)
    → ((complete new t u).exports ≡ new.exports)
      × ((complete new t u).health.status ≡ new.health.status)
unfolding complete
complete_keeps new t u = (refl, refl)

shown-kept :
    (h : HealthStatus) (ex old : Option Exports) (kept : Option (Option Exports))
    → h ≡ health_ready
    → kept ≡ some old
    → shown h ex kept ≡ old
unfolding shown
shown-kept h ex old kept p q = ground arith

lookup-replace :
    (id : String) (new : KernelRecord) (t u : ℕ) (p : DegradationPolicy)
    → id ≢ ""
    → new.id ≡ id
    → lookup id (replace id new t u p).reg.kernels ≡ some (complete new t u)
unfolding replace register
lookup-replace id new t u p n same =
    let e : (complete new t u).id ≡ id = complete_id new t u (λ x. n (sym same ∙ x)) ∙ same in
    lookup-insert (complete new t u).id id (complete new t u) (unregister id p.reg).kernels
    ∙ rw (e, eq_refl)

replace-Distinct :
    (id : String) (new : KernelRecord) (t u : ℕ) (p : DegradationPolicy)
    → Distinct p.reg.kernels
    → Distinct (replace id new t u p).reg.kernels
unfolding replace register unregister
replace-Distinct id new t u p d = Distinct-insert _ _ _ (Distinct-erase id p.reg.kernels d)

replace-snapshot :
    (id : String) (new : KernelRecord) (t u : ℕ) (p : DegradationPolicy)
    → (replace id new t u p).snapshot ≡ p.snapshot
unfolding replace
replace-snapshot id new t u p = refl

-- While exports are kept under an id, the kernel of that id is unregistered and a ready one is
-- registered under it: the next tick takes the exports of the new kernel away and shows the kept
-- ones of the old kernel.
pub replace_stale :
    (id : String) (new : KernelRecord) (old : Option Exports) (t u : ℕ) (order : Map KernelRecord)
    (p : DegradationPolicy)
    → id ≢ ""
    → new.id ≡ id
    → new.health.status ≡ health_ready
    → Distinct p.reg.kernels
    → lookup id p.snapshot ≡ some old
    → Permᴰ (replace id new t u p).reg.kernels order
    → (exports_of id (replace id new t u p) ≡ some new.exports)
      × (exports_of id (tick order (replace id new t u p)) ≡ some old)
replace_stale id new old t u order p n same ready d kept perm =
    let q = replace id new t u p in
    let rec : KernelRecord = complete new t u in
    let found : lookup id q.reg.kernels ≡ some rec = lookup-replace id new t u p n same in
    let (a, b) = tick-Follows order q id rec (replace-Distinct id new t u p d) perm found in
    let (same_exports, same_status) = complete_keeps new t u in
    (
      ap (Option.map (λ r. r.exports)) found ∙ ap some same_exports,
      ap (Option.map (λ r. r.exports)) a
          ∙ ap some (
              shown-kept rec.health.status rec.exports old (lookup id q.snapshot)
                (same_status ∙ ready) (ap (lookup id) (replace-snapshot id new t u p) ∙ kept)),
    )
