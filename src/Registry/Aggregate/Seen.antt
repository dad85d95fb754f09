-- ===== src/Registry/Aggregate/Seen.antt =====
-- One kernel in the reports on all of them.
use rassberry.Base.{
  ℕ, zero, suc, String, some, [], ◌∷◌, ◌≡◌, ◌≤◌, ◌∙◌, arith, map, inl, inr, String-cases,
}
use rassberry.Base.Maps.{Map, lookup, lookup-insert}
use rassberry.Registry.{KernelRecord, kernel_health}
use rassberry.Registry.Aggregate.Severity.{rank, status_of_rank, worst}

-- The summary is at least as bad as each kernel.
pub rank-le-worst :
    (id : String) (rec : KernelRecord) (m : Map KernelRecord)
    → lookup id m ≡ some rec
    → rank rec.health.status ≤ worst (map (λ e. e.1) m)
unfolding lookup worst
rank-le-worst id rec [] h = cc
rank-le-worst id rec ((j, r) ∷ m) h = elim (String-cases j id) [
  | inl (e, p) ↦ let q : r ≡ rec = ground arith in rw (← q) (omega arith)
  | inr (e, n) ↦
      let q : lookup id m ≡ some rec = ground arith in omega (arith, rank-le-worst id rec m q)
]

pub rank_of_status : (k w : ℕ) → k ≤ 4 → k ≤ w → k ≤ rank (status_of_rank w)
rank_of_status k zero b h = omega arith
rank_of_status k (suc zero) b h = omega arith
rank_of_status k (suc (suc zero)) b h = omega arith
rank_of_status k (suc (suc (suc zero))) b h = omega arith
rank_of_status k (suc (suc (suc (suc w)))) b h = omega arith

-- `KernelHealth` shows what the map holds.
pub lookup-kernel_health :
    (id : String) (rec : KernelRecord) (m : Map KernelRecord)
    → lookup id m ≡ some rec
    → lookup id (kernel_health m) ≡ some rec.health
unfolding lookup kernel_health
lookup-kernel_health id rec [] h = cc
lookup-kernel_health id rec ((j, r) ∷ m) h =
    lookup-insert j id r.health (kernel_health m) ∙ elim (String-cases j id) [
      | inl (e, p) ↦ rw e (ground arith)
      | inr (e, n) ↦ rw e (lookup-kernel_health id rec m (ground arith))
    ]
