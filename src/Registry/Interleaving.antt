-- ===== src/Registry/Interleaving.antt =====
-- Calls about different kernels, made by parts of the program that run at once, meet in the registry
-- in an order that nobody chooses.
use mathlib.Core.List.Permᴰ
use mathlib.Core.List.{Permᴰ}
use rassberry.Base.{
  ℕ, map, String, List, [], ◌∷◌, ◌≡◌, ◌==◌, refl, sym, ap, ◌∙◌, inl, inr, if◌then◌else◌, eq_refl,
  String-cases, Option-cases, subst,
}
use rassberry.Base.Maps.{
  Map, lookup, lookup-insert, lookup-erase, Distinct, Distinct-insert, Distinct-erase,
}
use rassberry.Base.Entries.{perm_of_agree}
use rassberry.Registry.{
  KernelRecord, DiscoveryRegistry, register_kernel, register, unregister, update_health,
  set_exports, complete, list,
}
use rassberry.Registry.Store.{
  Call, register_kernel_call, register_call, unregister_call, update_health_call, set_exports_call,
  apply, apply_all, call_id, apply-frame,
}
use rassberry.Registry.Listing.{list-perm}
use rassberry.Registry.Aggregate.{aggregate_health}
use rassberry.Registry.Aggregate.Severity.{aggregate_health-worst, worst-perm, status_of_rank}

-- The calls about one kernel, in their order.
unfoldable pub calls_about : String → List Call → List Call
calls_about j [] = []
calls_about j (c ∷ cs) = let rest = calls_about j cs in if call_id c == j then c ∷ rest else rest

-- Two registries hold the same of a kernel.
abbrev Agree : String → DiscoveryRegistry → DiscoveryRegistry → Type 0
Agree j r s = lookup j r.kernels ≡ lookup j s.kernels

-- What a call leaves under its own id depends on what was there alone.
apply-Agree :
    (c : Call) (r s : DiscoveryRegistry)
    → Agree (call_id c) r s
    → Agree (call_id c) (apply c r) (apply c s)
unfolding apply call_id register_kernel register unregister update_health set_exports
apply-Agree (register_kernel_call m t u v) r s h =
    rw
      (
        lookup-insert m.kernel_id m.kernel_id _ r.kernels,
        lookup-insert m.kernel_id m.kernel_id _ s.kernels,
        eq_refl m.kernel_id,
        h,
      )
      refl
apply-Agree (register_call rec t u) r s h =
    let k = (complete rec t u).id in
    rw (lookup-insert k k _ r.kernels, lookup-insert k k _ s.kernels, eq_refl k) refl
apply-Agree (unregister_call id) r s h =
    rw (lookup-erase id id r.kernels, lookup-erase id id s.kernels, eq_refl id) refl
apply-Agree (update_health_call id x t u v) r s h =
    rw (lookup-insert id id _ r.kernels, lookup-insert id id _ s.kernels, eq_refl id, h) refl
apply-Agree (set_exports_call id ex) r s h = elim (Option-cases (lookup id s.kernels)) [
  | inl e ↦ rw (h ∙ e, e, set_exports) (h ∙ e ∙ sym e)
  | inr (rec, e) ↦
      rw (h ∙ e, e, set_exports)
        (lookup-insert id id _ r.kernels
          ∙ rw (eq_refl id) (sym (lookup-insert id id _ s.kernels ∙ rw (eq_refl id) refl)))
]

-- A call keeps the agreement on every kernel.
apply-Agree_on :
    (j : String) (c : Call) (r s : DiscoveryRegistry)
    → Agree j r s
    → Agree j (apply c r) (apply c s)
apply-Agree_on j c r s h = elim (String-cases (call_id c) j) [
  | inl (e, p) ↦
      subst (λ i. Agree i (apply c r) (apply c s)) p
        (apply-Agree c r s (subst (λ i. Agree i r s) (sym p) h))
  | inr (e, n) ↦ apply-frame c r j n ∙ h ∙ sym (apply-frame c s j n)
]

apply_all-calls_about :
    (j : String) (cs : List Call) (r s : DiscoveryRegistry)
    → Agree j r s
    → Agree j (apply_all cs r) (apply_all (calls_about j cs) s)
unfolding apply_all calls_about
apply_all-calls_about j [] r s h = h
apply_all-calls_about j (c ∷ cs) r s h = elim (String-cases (call_id c) j) [
  | inl (e, p) ↦
      rw e (apply_all-calls_about j cs (apply c r) (apply c s) (apply-Agree_on j c r s h))
  | inr (e, n) ↦ rw e (apply_all-calls_about j cs (apply c r) s (apply-frame c r j n ∙ h))
]

-- What the registry holds of a kernel depends on the calls about that kernel alone: two sequences
-- that make the same ones in the same order, whatever they do to other kernels before, between and
-- behind, leave the same record of it.
apply_all-interleaved :
    (cs ds : List Call) (r : DiscoveryRegistry) (j : String)
    → calls_about j cs ≡ calls_about j ds
    → lookup j (apply_all cs r).kernels ≡ lookup j (apply_all ds r).kernels
apply_all-interleaved cs ds r j h =
    apply_all-calls_about j cs r r refl
    ∙ ap (λ l. lookup j (apply_all l r).kernels) h
    ∙ sym (apply_all-calls_about j ds r r refl)

apply-Distinct :
    (c : Call) (r : DiscoveryRegistry) → Distinct r.kernels → Distinct (apply c r).kernels
unfolding apply register_kernel register unregister update_health set_exports
apply-Distinct (register_kernel_call m t u v) r d = Distinct-insert m.kernel_id _ r.kernels d
apply-Distinct (register_call rec t u) r d = Distinct-insert (complete rec t u).id _ r.kernels d
apply-Distinct (unregister_call id) r d = Distinct-erase id r.kernels d
apply-Distinct (update_health_call id x t u v) r d = Distinct-insert id _ r.kernels d
apply-Distinct (set_exports_call id ex) r d = elim (Option-cases (lookup id r.kernels)) [
  | inl e ↦ rw (e, set_exports) d
  | inr (rec, e) ↦ rw (e, set_exports) (Distinct-insert id _ r.kernels d)
]

pub apply_all-Distinct :
    (cs : List Call) (r : DiscoveryRegistry)
    → Distinct r.kernels
    → Distinct (apply_all cs r).kernels
unfolding apply_all
apply_all-Distinct [] r d = d
apply_all-Distinct (c ∷ cs) r d = apply_all-Distinct cs (apply c r) (apply-Distinct c r d)

records-perm :
    {o₁ o₂ : Map KernelRecord} → Permᴰ o₁ o₂ → Permᴰ (map (λ e. e.1) o₁) (map (λ e. e.1) o₂)
records-perm Permᴰ.nil = Permᴰ.nil
records-perm (Permᴰ.cons e p) = Permᴰ.cons (ap (λ x. x.1) e) (records-perm p)
records-perm (Permᴰ.swap e f) = Permᴰ.swap (ap (λ x. x.1) e) (ap (λ x. x.1) f)
records-perm (Permᴰ.trans p q) = Permᴰ.trans (records-perm p) (records-perm q)

-- Two sequences of calls on one registry that has no id twice, which make the same calls about each
-- kernel in the same order, however those about different kernels are interleaved: behind either,
-- `List` gives the same, and the aggregated health has the same status, in whichever order the
-- runtime visits the map.
pub interleavings_agree :
    (cs ds : List Call) (r : DiscoveryRegistry) (o₁ o₂ : Map KernelRecord)
    (now₁ late₁ now₂ late₂ : ℕ)
    → Distinct r.kernels
    → ((j : String) → calls_about j cs ≡ calls_about j ds)
    → Permᴰ (apply_all cs r).kernels o₁
    → Permᴰ (apply_all ds r).kernels o₂
    → (list o₁ ≡ list o₂)
      × ((aggregate_health now₁ late₁ (map (λ e. e.1) o₁)).status
          ≡ (aggregate_health now₂ late₂ (map (λ e. e.1) o₂)).status)
interleavings_agree cs ds r o₁ o₂ now₁ late₁ now₂ late₂ d h p q =
    let same : Permᴰ (apply_all cs r).kernels (apply_all ds r).kernels =
      perm_of_agree (apply_all cs r).kernels (apply_all ds r).kernels (apply_all-Distinct cs r d)
        (apply_all-Distinct ds r d) (λ j. apply_all-interleaved cs ds r j (h j)) in
    let all : Permᴰ o₁ o₂ = Permᴰ.trans (Permᴰ.symm p) (Permᴰ.trans same q) in
    (
      sym (list-perm p (apply_all-Distinct cs r d))
          ∙ list-perm same (apply_all-Distinct cs r d)
          ∙ list-perm q (apply_all-Distinct ds r d),
      aggregate_health-worst now₁ late₁ (map (λ e. e.1) o₁)
          ∙ ap status_of_rank (worst-perm (records-perm all))
          ∙ sym (aggregate_health-worst now₂ late₂ (map (λ e. e.1) o₂)),
    )
