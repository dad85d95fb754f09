-- ===== src/Registry/Store.antt =====
-- What every sequence of the registry's methods keeps, and what a method leaves alone.
use rassberry.Base.{
  ℕ, String, List, Option, none, some, [], ◌∷◌, ◌≡◌, ◌≢◌, refl, arith, All, ◌∙◌, sym, inl, inr,
  ne_of_false, Option-cases,
}
use rassberry.Base.Maps.{
  lookup, insert, Distinct, Distinct-insert, Distinct-erase, All-insert, All-erase, lookup-All,
  lookup-insert, lookup-erase,
}
use rassberry.Contracts.{Health, Manifest, Exports}
use rassberry.Registry.{
  KernelRecord, DiscoveryRegistry, new_discovery_registry, get_record, unknown_record,
  register_kernel, register, unregister, update_health, set_exports, complete,
}

-- A call of a method that writes, with the readings of the clock that it makes.
pub data Call : Type 0 where
  register_kernel_call : Manifest → ℕ → ℕ → ℕ → Call
  register_call : KernelRecord → ℕ → ℕ → Call
  unregister_call : String → Call
  update_health_call : String → Health → ℕ → ℕ → ℕ → Call
  set_exports_call : String → Option Exports → Call

unfoldable pub apply : Call → DiscoveryRegistry → DiscoveryRegistry
apply (register_kernel_call m t u v) r = register_kernel m t u v r
apply (register_call rec t u) r = register rec t u r
apply (unregister_call id) r = unregister id r
apply (update_health_call id h t u v) r = update_health id h t u v r
apply (set_exports_call id ex) r = set_exports id ex r

unfoldable pub apply_all : List Call → DiscoveryRegistry → DiscoveryRegistry
apply_all [] r = r
apply_all (c ∷ cs) r = apply_all cs (apply c r)

-- The clock never shows Go's zero time.
abbrev pub Timed : Call → Type 0
Timed (register_kernel_call m t u v) = (t ≢ 0) × (u ≢ 0) × (v ≢ 0)
Timed (register_call rec t u) = (t ≢ 0) × (u ≢ 0)
Timed (update_health_call id h t u v) = (t ≢ 0) × (u ≢ 0) × (v ≢ 0)
Timed _ = Unit

-- A record stands under its own id, and both of its times are set.
abbrev pub IsEntry : String × KernelRecord → Type 0
IsEntry (k, rec) = (rec.id ≡ k) × (rec.registered_at ≢ 0) × (rec.updated_at ≢ 0)

pub record IsWellFormed (r : DiscoveryRegistry) : Type 0 where
  pub distinct : Distinct r.kernels
  pub entries : All IsEntry r.kernels

insert-IsWellFormed :
    (k : String) (rec : KernelRecord) (r : DiscoveryRegistry)
    → IsEntry (k, rec)
    → IsWellFormed r
    → IsWellFormed (record { kernels = insert k rec r.kernels })
insert-IsWellFormed k rec r e w = record {
  distinct = Distinct-insert k rec r.kernels w.distinct;
  entries = All-insert IsEntry k rec r.kernels (λ j p. (e.0 ∙ sym p, e.1, e.2)) w.entries;
}

known_id :
    (id : String) (o : Option KernelRecord)
    → ((rec : KernelRecord) → o ≡ some rec → rec.id ≡ id)
    → (get_record o (unknown_record id)).id ≡ id
known_id id none h = refl
known_id id (some rec) h = h rec refl

set_exports-IsWellFormed :
    (id : String) (ex : Option Exports) (r : DiscoveryRegistry)
    → IsWellFormed r
    → IsWellFormed (set_exports id ex r)
unfolding set_exports
set_exports-IsWellFormed id ex r w = elim (Option-cases (lookup id r.kernels)) [
  | inl e ↦ rw (e, set_exports) w
  | inr (rec, e) ↦
      rw (e, set_exports)
        (insert-IsWellFormed id _ r (lookup-All IsEntry id rec r.kernels w.entries e) w)
]

apply-IsWellFormed :
    (c : Call) (r : DiscoveryRegistry) → Timed c → IsWellFormed r → IsWellFormed (apply c r)
unfolding apply register_kernel register unregister update_health complete
apply-IsWellFormed (register_kernel_call m t u v) r h w =
    insert-IsWellFormed _ _ r (refl, ground arith, h.2) w
apply-IsWellFormed (register_call rec t u) r h w =
    insert-IsWellFormed _ _ r (refl, ground arith, h.1) w
apply-IsWellFormed (unregister_call id) r h w = record {
  distinct = Distinct-erase id r.kernels w.distinct;
  entries = All-erase IsEntry id r.kernels w.entries;
}
apply-IsWellFormed (update_health_call id x t u v) r h w =
    insert-IsWellFormed _ _ r
      (
        known_id id _ (λ rec e. (lookup-All IsEntry id rec r.kernels w.entries e).0),
        ground arith,
        h.2,
      )
      w
apply-IsWellFormed (set_exports_call id ex) r h w = set_exports-IsWellFormed id ex r w

apply_all-IsWellFormed :
    (cs : List Call) (r : DiscoveryRegistry)
    → All Timed cs
    → IsWellFormed r
    → IsWellFormed (apply_all cs r)
unfolding apply_all
apply_all-IsWellFormed [] r h w = w
apply_all-IsWellFormed (c ∷ cs) r h w =
    apply_all-IsWellFormed cs (apply c r) h.1 (apply-IsWellFormed c r h.0 w)

-- After any sequence of calls on a new registry, made while the clock runs, no id has two records,
-- and every record stands under its own id with both of its times set.
pub apply_all-new-IsWellFormed :
    (cs : List Call) → All Timed cs → IsWellFormed (apply_all cs new_discovery_registry)
unfolding new_discovery_registry
apply_all-new-IsWellFormed cs h =
    apply_all-IsWellFormed cs _ h (record { distinct = tt; entries = tt })

-- The id whose record a call may change.
unfoldable pub call_id : Call → String
call_id (register_kernel_call m t u v) = m.kernel_id
call_id (register_call rec t u) = (complete rec t u).id
call_id (unregister_call id) = id
call_id (update_health_call id h t u v) = id
call_id (set_exports_call id ex) = id

-- A call changes, adds or removes no record but the one of its own id.
pub apply-frame :
    (c : Call) (r : DiscoveryRegistry) (j : String)
    → call_id c ≢ j
    → lookup j (apply c r).kernels ≡ lookup j r.kernels
unfolding apply register_kernel register unregister update_health set_exports call_id
apply-frame (register_kernel_call m t u v) r j n =
    lookup-insert m.kernel_id j _ r.kernels ∙ rw (ne_of_false _ _ n)
apply-frame (register_call rec t u) r j n = lookup-insert _ j _ r.kernels ∙ rw (ne_of_false _ _ n)
apply-frame (unregister_call id) r j n = lookup-erase id j r.kernels ∙ rw (ne_of_false _ _ n)
apply-frame (update_health_call id h t u v) r j n =
    lookup-insert id j _ r.kernels ∙ rw (ne_of_false _ _ n)
apply-frame (set_exports_call id ex) r j n = elim (Option-cases (lookup id r.kernels)) [
  | inl e ↦ rw (e, set_exports)
  | inr (rec, e) ↦ rw (e, set_exports) (lookup-insert id j _ r.kernels ∙ rw (ne_of_false _ _ n))
]
