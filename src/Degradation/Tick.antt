-- ===== src/Degradation/Tick.antt =====
-- A whole tick of the policy, and what two ticks do to the exports of a kernel.
use mathlib.Core.List.{Permᴰ, Memᴰ}
use mathlib.Core.List.Permᴰ
use rassberry.Base.{
  String, List, some, [], ◌∷◌, ◌≡◌, ◌≢◌, sym, ap, ◌∙◌, arith, All, inl, inr, map, true, subst,
  String-cases,
}
use rassberry.Base.Maps.{Map, lookup, Distinct}
use rassberry.Base.Entries.{mem-perm}
use rassberry.Base.Order.{text_lt, text_lt_irrefl}
use rassberry.Contracts.{HealthStatus}
use rassberry.Registry.{KernelRecord, DiscoveryRecord, discovery_record, list, record_key}
use rassberry.Registry.Listing.{IsSorted, list-IsSorted, list-perm}
use rassberry.Degradation.{DegradationPolicy, visit, visit_all, tick}
use rassberry.Degradation.Cells.{
  shown, saved, Follows, Same, Unlisted, visit-Follows, visit-frame, visit_all-frame,
}

All-mem : {A : Type 0} (P : A → Type 0) (a : A) (l : List A) → All P l → Memᴰ a l → P a
All-mem P a [] h m = elim m [ ]
All-mem P a (x ∷ l) h (Memᴰ.head e) = subst P (sym e) h.0
All-mem P a (x ∷ l) h (Memᴰ.tail m) = All-mem P a l h.1 m

mem-visited :
    (id : String) (rec : KernelRecord) (m : Map KernelRecord)
    → lookup id m ≡ some rec
    → Memᴰ (discovery_record id rec) (map (λ e. discovery_record e.0 e.1) m)
unfolding lookup
mem-visited id rec [] h = cc
mem-visited id rec ((j, w) ∷ m) h = elim (String-cases j id) [
  | inl (e, p) ↦
      let q : w ≡ rec = ground arith in Memᴰ.head (λ i. discovery_record (sym p i) (sym q i))
  | inr (e, n) ↦ let q : lookup id m ≡ some rec = ground arith in Memᴰ.tail (mem-visited id rec m q)
]

ne_of_lt : (s t : String) → text_lt s t ≡ true → t ≢ s
ne_of_lt s t h e = ground (arith, text_lt_irrefl s)

lt-Unlisted :
    (k : String) (ds : List DiscoveryRecord) → All (λ b. text_lt k b.id ≡ true) ds → Unlisted k ds
lt-Unlisted k [] h = tt
lt-Unlisted k (d ∷ ds) h = (ne_of_lt k d.id h.0, lt-Unlisted k ds h.1)

-- What a kernel's entries are in `q` if nothing touches them after `r`.
Follows-Same :
    (id : String) (h : HealthStatus) (rec : KernelRecord) (p q r : DegradationPolicy)
    → Follows id h rec p q
    → Same id q r
    → Follows id h rec p r
Follows-Same id h rec p q r f s = (s.0 ∙ f.0, s.1 ∙ f.1)

-- The visit of the kernel's own entry, and then of the others.
visit_first-Follows :
    (ds : List DiscoveryRecord) (id : String) (rec : KernelRecord) (p : DegradationPolicy)
    → Unlisted id ds
    → lookup id p.reg.kernels ≡ some rec
    → Follows id rec.health.status rec p (visit_all (discovery_record id rec ∷ ds) p)
unfolding visit_all
visit_first-Follows ds id rec p n h =
    Follows-Same id rec.health.status rec p _ _ (visit-Follows id rec p h)
      (visit_all-frame ds id (visit (discovery_record id rec) p) n)

visit_all-Follows :
    (ds : List DiscoveryRecord) (id : String) (rec : KernelRecord) (p : DegradationPolicy)
    → IsSorted record_key ds
    → Memᴰ (discovery_record id rec) ds
    → lookup id p.reg.kernels ≡ some rec
    → Follows id rec.health.status rec p (visit_all ds p)
unfolding visit_all
visit_all-Follows [] id rec p s m h = elim m [ ]
visit_all-Follows (d ∷ ds) id rec p s (Memᴰ.head e) h =
    subst (λ d. Follows id rec.health.status rec p (visit_all (d ∷ ds) p)) e
      (visit_first-Follows ds id rec p
        (subst (λ k. Unlisted k ds) (ap record_key (sym e)) (lt-Unlisted d.id ds s.0)) h)
visit_all-Follows (d ∷ ds) id rec p s (Memᴰ.tail m) h =
    let n : d.id ≢ id = λ x. ne_of_lt d.id id (All-mem _ _ ds s.0 m) (sym x) in
    let (a, b) = visit-frame d id p n in
    let (c, e) = visit_all-Follows ds id rec (visit d p) s.1 m (a ∙ h) in
    (
      c ∙ ap (λ k. some (record rec { exports = shown rec.health.status rec.exports k })) b,
      e ∙ ap (saved rec.health.status rec.exports) b,
    )

-- One tick, in whatever order the listing visits the map, does to each kernel of the registry
-- what the specification says: a ready kernel shows what was kept, if anything was; a degraded,
-- failed, draining or stopped one shows nothing, and the first exports hidden stay kept; a kernel
-- of another status is left alone.
pub tick-Follows :
    (order : Map KernelRecord) (p : DegradationPolicy) (id : String) (rec : KernelRecord)
    → Distinct p.reg.kernels
    → Permᴰ p.reg.kernels order
    → lookup id p.reg.kernels ≡ some rec
    → Follows id rec.health.status rec p (tick order p)
unfolding tick
tick-Follows order p id rec d perm h =
    let (sorted, same) = list-IsSorted p.reg.kernels d in
    subst (λ l. Follows id rec.health.status rec p (visit_all l p)) (list-perm perm d)
      (visit_all-Follows (list p.reg.kernels) id rec p sorted
        (mem-perm (Permᴰ.symm same) (mem-visited id rec p.reg.kernels h)) h)
