-- ===== src/Registry/Examples.antt =====
-- The registry on small inputs.
use Prim.Native.String.{◌++◌}
use mathlib.Core.List.Permᴰ
use rassberry.Base.{
  String, List, none, [], ◌∷◌, ◌≡◌, refl, arith, map, sym, ◌∙◌, differ, String-cases, inl, inr,
}
use rassberry.Contracts.{Health, HealthStatus, Manifest, health_degraded, health_failed}
use rassberry.Registry.{KernelRecord, new_discovery_registry, zero_manifest, zero_record, list}
use rassberry.Registry.Store.{
  Call, call_id, register_kernel_call, update_health_call, set_exports_call, apply_all,
  IsWellFormed, apply_all-new-IsWellFormed,
}
use rassberry.Registry.Interleaving.{calls_about, interleavings_agree}
use rassberry.Registry.Aggregate.{aggregate_health}
use rassberry.Registry.Aggregate.Severity.{
  aggregate_health-worst, aggregate_health-misblames, worst,
}

abbrev pub manifest_of : String → Manifest
manifest_of id = record zero_manifest { kernel_id = id }

abbrev pub kernel_of : String → HealthStatus → KernelRecord
kernel_of id status = record zero_record {
  id = id;
  manifest = manifest_of id;
  health = record { status = status; reason = ""; since = 3 };
  registered_at = 1;
  updated_at = 2;
}

abbrev site : KernelRecord
site = kernel_of "site" health_degraded

abbrev bot : KernelRecord
bot = kernel_of "bot" health_failed

abbrev bad_health : Health
bad_health = record { status = health_failed; reason = "gone"; since = 0 }

abbrev some_calls : List Call
some_calls =
    register_kernel_call (manifest_of "site") 1 2 3
    ∷ update_health_call "site" bad_health 4 5 6
    ∷ set_exports_call "bot" none
    ∷ []

apply_all-new-IsWellFormed_example : IsWellFormed (apply_all some_calls new_discovery_registry)
apply_all-new-IsWellFormed_example = apply_all-new-IsWellFormed some_calls (
  (ground arith, ground arith, ground arith),
  ((ground arith, ground arith, ground arith), (tt, tt)),
)

aggregate_health-worst_example : (aggregate_health 7 8 (site ∷ bot ∷ [])).status ≡ health_failed
unfolding worst
aggregate_health-worst_example = aggregate_health-worst 7 8 (site ∷ bot ∷ [])

aggregate_health-misblames_example :
    ((aggregate_health 7 8 (site ∷ site ∷ bot ∷ [])).status ≡ health_failed)
    × ((aggregate_health 7 8 (site ∷ site ∷ bot ∷ [])).reason ≡ "kernel degraded: " ++ "site")
unfolding worst
aggregate_health-misblames_example =
    aggregate_health-misblames 7 8 [] (site ∷ []) [] site bot refl refl refl

abbrev site_call : Call
site_call = update_health_call "site" bad_health 4 5 6

abbrev bot_call : Call
bot_call = register_kernel_call (manifest_of "bot") 1 2 3

abbrev site_first : List Call
site_first = site_call ∷ bot_call ∷ []

abbrev bot_first : List Call
bot_first = bot_call ∷ site_call ∷ []

same_about : (j : String) → calls_about j site_first ≡ calls_about j bot_first
unfolding calls_about call_id
same_about j = elim (String-cases "site" j) [
  | inl (e, p) ↦ elim (String-cases "bot" j) [
    | inl (f, q) ↦ absurd (differ "site" "bot" refl (p ∙ sym q))
    | inr (f, n) ↦ rw (e, f) refl
  ]
  | inr (e, n) ↦ rw e refl
]

interleavings_agree_example :
    (list (apply_all site_first new_discovery_registry).kernels
      ≡ list (apply_all bot_first new_discovery_registry).kernels)
    × ((aggregate_health 7 8
          (map (λ e. e.1) (apply_all site_first new_discovery_registry).kernels)).status
        ≡ (aggregate_health 9 9
            (map (λ e. e.1) (apply_all bot_first new_discovery_registry).kernels)).status)
unfolding new_discovery_registry
interleavings_agree_example =
    interleavings_agree site_first bot_first new_discovery_registry
      (apply_all site_first new_discovery_registry).kernels
      (apply_all bot_first new_discovery_registry).kernels 7 8 9 9 tt same_about (Permᴰ.refl _)
      (Permᴰ.refl _)
