-- ===== src/Degradation/Examples.antt =====
-- The policy on a registry of one kernel.
use mathlib.Core.List.Permᴰ
use rassberry.Base.{Option, none, some, [], ◌∷◌, ◌≡◌, refl, differ}
use rassberry.Base.Maps.{lookup, insert}
use rassberry.Contracts.{Health, Exports, health_ready, health_failed}
use rassberry.Registry.{KernelRecord, update_health, mark_health}
use rassberry.Registry.Examples.{kernel_of}
use rassberry.Degradation.{DegradationPolicy, tick}
use rassberry.Degradation.Cells.{Follows}
use rassberry.Degradation.Tick.{tick-Follows}
use rassberry.Degradation.Restore.{exports_of, settle, settle_round_trip}
use rassberry.Degradation.Stale.{replace, replace_stale}

abbrev some_exports : Option Exports
some_exports = some (record {
  network =
      record { name = "http"; protocol = "http"; address = ":80"; version = ""; endpoints = [] }
      ∷ [];
  events = [];
  streams = [];
  cli = [];
  local = [];
})

abbrev site : KernelRecord
site = record (kernel_of "site" health_ready) { exports = some_exports }

abbrev one : DegradationPolicy
one = record { reg = record { kernels = ("site", site) ∷ [] }; snapshot = [] }

abbrev failing : KernelRecord
failing = record (kernel_of "site" health_failed) { exports = some_exports }

abbrev ill : DegradationPolicy
ill = record { reg = record { kernels = ("site", failing) ∷ [] }; snapshot = [] }

abbrev failed : Health
failed = record { status = health_failed; reason = ""; since = 5 }

abbrev ready : Health
ready = record { status = health_ready; reason = ""; since = 9 }

tick-Follows_example : Follows "site" health_failed failing ill (tick (("site", failing) ∷ []) ill)
unfolding lookup
tick-Follows_example =
    tick-Follows (("site", failing) ∷ []) ill "site" failing (tt, tt) (Permᴰ.refl _) refl

settle_round_trip_example :
    (exports_of "site"
        (settle "site" failed 1 2 3 (("site", mark_health failed 1 2 3 site) ∷ []) one)
      ≡ some none)
    × (exports_of "site" (
          settle "site" ready 4 5 6
            (update_health "site" ready 4 5 6
              (settle "site" failed 1 2 3
                (("site", mark_health failed 1 2 3 site) ∷ [])
                one).reg).kernels
            (settle "site" failed 1 2 3 (("site", mark_health failed 1 2 3 site) ∷ []) one))
        ≡ some some_exports)
    × (lookup "site"
          (settle "site" ready 4 5 6
            (update_health "site" ready 4 5 6
              (settle "site" failed 1 2 3
                (("site", mark_health failed 1 2 3 site) ∷ [])
                one).reg).kernels
            (settle "site" failed 1 2 3
              (("site", mark_health failed 1 2 3 site) ∷ [])
              one)).snapshot
        ≡ none)
unfolding lookup insert update_health
settle_round_trip_example =
    settle_round_trip "site" failed ready 1 2 3 4 5 6 _ _ one site tt refl (tt, tt) refl refl
      (Permᴰ.refl _) (Permᴰ.refl _)

abbrev kept : DegradationPolicy
kept = record {
  reg = record { kernels = ("site", failing) ∷ [] };
  snapshot = ("site", some_exports) ∷ [];
}

abbrev newer : KernelRecord
newer = kernel_of "site" health_ready

replace_stale_example :
    (exports_of "site" (replace "site" newer 1 2 kept) ≡ some none)
    × (exports_of "site"
          (tick (replace "site" newer 1 2 kept).reg.kernels (replace "site" newer 1 2 kept))
        ≡ some some_exports)
unfolding lookup
replace_stale_example =
    replace_stale "site" newer some_exports 1 2 (replace "site" newer 1 2 kept).reg.kernels kept
      (differ "site" "" refl) refl refl (tt, tt) refl (Permᴰ.refl _)
