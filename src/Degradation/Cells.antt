-- ===== src/Degradation/Cells.antt =====
-- What a tick does to each kernel, against a specification of one kernel at a time.
use rassberry.Base.{
  String, List, Option, none, some, [], ◌∷◌, ◌≡◌, ◌≢◌, refl, ap, ◌∙◌, All, inl, inr, Option-cases,
  eq_refl, ne_of_false,
}
use rassberry.Base.Maps.{lookup, lookup-insert, lookup-erase}
use rassberry.Contracts.{
  HealthStatus, health_ready, health_degraded, health_failed, health_draining, health_stopped,
  health_unset, health_other, Exports,
}
use rassberry.Registry.{
  KernelRecord, DiscoveryRegistry, DiscoveryRecord, discovery_record, set_exports,
}
use rassberry.Registry.Store.{apply, apply-frame, call_id, set_exports_call}
use rassberry.Degradation.{
  DegradationPolicy, copy_exports, restore, hide, dispatch, visit, visit_all,
}

-- The specification: the exports that a kernel of that health shows, and what is kept aside, from
-- the exports that it shows and what is kept now.
unfoldable pub shown : HealthStatus → Option Exports → Option (Option Exports) → Option Exports
shown health_ready ex none = ex
shown health_ready ex (some saved) = saved
shown health_unset ex kept = ex
shown (health_other s) ex kept = ex
shown _ ex kept = none

unfoldable pub saved :
    HealthStatus → Option Exports → Option (Option Exports) → Option (Option Exports)
saved health_ready ex kept = none
saved health_unset ex kept = kept
saved (health_other s) ex kept = kept
saved _ none kept = kept
saved _ (some ex) none = some (some ex)
saved _ (some ex) (some old) = some old

copy_exports_lem : (ex : Option Exports) → copy_exports ex ≡ ex
unfolding copy_exports
copy_exports_lem none = refl
copy_exports_lem (some ex) = refl

lookup-set_exports :
    (id : String) (ex : Option Exports) (r : DiscoveryRegistry) (rec : KernelRecord)
    → lookup id r.kernels ≡ some rec
    → lookup id (set_exports id ex r).kernels ≡ some (record rec { exports = ex })
unfolding set_exports
lookup-set_exports id ex r rec h =
    rw (h, set_exports) (lookup-insert id id _ r.kernels ∙ rw eq_refl)

set_exports-frame :
    (id j : String) (ex : Option Exports) (r : DiscoveryRegistry)
    → id ≢ j
    → lookup j (set_exports id ex r).kernels ≡ lookup j r.kernels
unfolding apply call_id
set_exports-frame id j ex r n = apply-frame (set_exports_call id ex) r j n

-- The kernel's two entries, in the registry and in the policy, are as the specification says.
abbrev pub Follows :
    String → HealthStatus → KernelRecord → DegradationPolicy → DegradationPolicy → Type 0
Follows id h rec p q =
    (lookup id q.reg.kernels
      ≡ some (record rec { exports = shown h rec.exports (lookup id p.snapshot) }))
    × (lookup id q.snapshot ≡ saved h rec.exports (lookup id p.snapshot))

restore-Follows :
    (id : String) (rec : KernelRecord) (p : DegradationPolicy)
    → lookup id p.reg.kernels ≡ some rec
    → Follows id health_ready rec p (restore id (lookup id p.snapshot) p)
unfolding restore shown saved
restore-Follows id rec p h = elim (Option-cases (lookup id p.snapshot)) [
  | inl e ↦ rw (e, restore, shown) ((h, e))
  | inr (ex, e) ↦
      rw (e, restore, shown)
        ((lookup-set_exports id ex p.reg rec h, lookup-erase id id p.snapshot ∙ rw eq_refl))
]

hide-Follows :
    (id : String) (rec : KernelRecord) (ex : Option Exports) (p : DegradationPolicy)
    → lookup id p.reg.kernels ≡ some rec
    → rec.exports ≡ ex
    → (lookup id (hide id ex p).reg.kernels ≡ some (record rec { exports = none }))
      × (lookup id (hide id ex p).snapshot ≡ saved health_failed ex (lookup id p.snapshot))
unfolding hide saved
hide-Follows id rec none p e f = (e ∙ ap (λ x. some (record rec { exports = x })) f, refl)
hide-Follows id rec (some ex) p e f = elim (Option-cases (lookup id p.snapshot)) [
  | inl g ↦
      rw (g, saved)
        ((
          lookup-set_exports id none p.reg rec e,
          lookup-insert id id _ p.snapshot ∙ rw (eq_refl, copy_exports_lem),
        ))
  | inr (old, g) ↦ rw (g, saved) ((lookup-set_exports id none p.reg rec e, g))
]

dispatch-Follows :
    (h : HealthStatus) (id : String) (rec : KernelRecord) (p : DegradationPolicy)
    → lookup id p.reg.kernels ≡ some rec
    → Follows id h rec p (dispatch h (discovery_record id rec) p)
unfolding dispatch shown saved
dispatch-Follows health_ready id rec p e = restore-Follows id rec p e
dispatch-Follows health_unset id rec p e = (e, refl)
dispatch-Follows (health_other s) id rec p e = (e, refl)
dispatch-Follows health_degraded id rec p e = hide-Follows id rec rec.exports p e refl
dispatch-Follows health_failed id rec p e = hide-Follows id rec rec.exports p e refl
dispatch-Follows health_draining id rec p e = hide-Follows id rec rec.exports p e refl
dispatch-Follows health_stopped id rec p e = hide-Follows id rec rec.exports p e refl

pub visit-Follows :
    (id : String) (rec : KernelRecord) (p : DegradationPolicy)
    → lookup id p.reg.kernels ≡ some rec
    → Follows id rec.health.status rec p (visit (discovery_record id rec) p)
unfolding visit
visit-Follows id rec p e = dispatch-Follows rec.health.status id rec p e

-- Neither of the entries under an id changes.
abbrev pub Same : String → DegradationPolicy → DegradationPolicy → Type 0
Same j p q =
    (lookup j q.reg.kernels ≡ lookup j p.reg.kernels) × (lookup j q.snapshot ≡ lookup j p.snapshot)

restore-frame :
    (id j : String) (o : Option (Option Exports)) (p : DegradationPolicy)
    → id ≢ j
    → Same j p (restore id o p)
unfolding restore
restore-frame id j none p n = (refl, refl)
restore-frame id j (some ex) p n =
    (set_exports-frame id j ex p.reg n, lookup-erase id j p.snapshot ∙ rw (ne_of_false _ _ n))

hide-frame :
    (id j : String) (o : Option Exports) (p : DegradationPolicy) → id ≢ j → Same j p (hide id o p)
unfolding hide
hide-frame id j none p n = (refl, refl)
hide-frame id j (some ex) p n = (
  set_exports-frame id j none p.reg n,
  elim (Option-cases (lookup id p.snapshot)) [
    | inl e ↦ rw e (lookup-insert id j _ p.snapshot ∙ rw (ne_of_false _ _ n))
    | inr (old, e) ↦ rw e
  ],
)

pub visit-frame :
    (d : DiscoveryRecord) (j : String) (p : DegradationPolicy) → d.id ≢ j → Same j p (visit d p)
unfolding visit
visit-frame d j p n = by_status d.health.status
  where
    by_status : (h : HealthStatus) → Same j p (dispatch h d p)
    by_status health_ready = restore-frame d.id j _ p n
    by_status health_degraded = hide-frame d.id j d.exports p n
    by_status health_failed = hide-frame d.id j d.exports p n
    by_status health_draining = hide-frame d.id j d.exports p n
    by_status health_stopped = hide-frame d.id j d.exports p n
    by_status _ = (refl, refl)

-- No listed record has the id.
abbrev pub Unlisted : String → List DiscoveryRecord → Type 0
Unlisted j = All (λ d. d.id ≢ j)

pub visit_all-frame :
    (ds : List DiscoveryRecord) (j : String) (p : DegradationPolicy)
    → Unlisted j ds
    → Same j p (visit_all ds p)
unfolding visit_all
visit_all-frame [] j p n = (refl, refl)
visit_all-frame (d ∷ ds) j p n =
    let (a, b) = visit_all-frame ds j (visit d p) n.1 in
    let (c, e) = visit-frame d j p n.0 in (a ∙ c, b ∙ e)
