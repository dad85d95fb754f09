-- ===== src/Telemetry/Filter.antt =====
-- platform/telemetry/log_filter_gen.go. `<` on the lengths and the slice compare a prefix; in UTF-8 a
-- prefix of bytes that is itself a text is a prefix of characters.
use Prim.Native.Char.{code}
use Prim.Native.String.{String, ◌++◌}
use text.Mathlib.Text.{◌==◌}
use text.Mathlib.TextEquality.{eq_iff, Char-path}
use text.Mathlib.TextLemmas.{nil-append, cons-append, append-eq-nil_iff}
use mathlib.Core.Path.{ap₂}
use rassberry.Base.{
  Bool, true, false, ◌≡◌, ◌↔◌, ◌⊎◌, inl, inr, refl, sym, ◌∙◌, ap, arith, ◌&&◌, not, nat_eq,
  if◌then◌else◌, String-cases,
}
use rassberry.Base.Int.{◌≤ℤ◌, less}
use rassberry.Telemetry.Record.{Level, LogRecordV2}

pub record LogFilter : Type 0 where
  pub level_min : Level
  pub kernel_id : String
  pub scope : String
  pub component : String

-- `len(r) < len(f) || r[:len(f)] != f` is the negation of this.
unfoldable pub has_prefix : String → String → Bool
has_prefix r String.[] = true
has_prefix String.[] (String.◌∷◌ d f) = false
has_prefix (String.◌∷◌ c r) (String.◌∷◌ d f) = nat_eq (code c) (code d) && has_prefix r f

-- The tests of `MatchV1`, whose argument is a struct of these four fields of the record.
unfoldable pub match_v1 : LogFilter → Level → String → String → String → Bool
match_v1 f level kernel_id scope component =
    if not (f.kernel_id == "") && not (kernel_id == f.kernel_id)
    then false
    else if not (f.scope == "") && not (scope == f.scope)
    then false
    else if not (f.component == "") && component == ""
    then false
    else if not (f.component == "") && not (has_prefix component f.component)
    then false
    else not (less level f.level_min)

unfoldable pub match_v2 : LogFilter → LogRecordV2 → Bool
unfolding match_v1
match_v2 f r = match_v1 f r.level r.kernel_id r.scope r.component

-- The specification: a field that is set must be met, and the level must be high enough.
pub record Passes (f : LogFilter) (r : LogRecordV2) : Type 0 where
  pub kernel : (f.kernel_id ≡ "") ⊎ (r.kernel_id ≡ f.kernel_id)
  pub in_scope : (f.scope ≡ "") ⊎ (r.scope ≡ f.scope)
  pub below : (rest : String) × (r.component ≡ f.component ++ rest)
  pub severe : f.level_min ≤ℤ r.level

pub has_prefix_sound : (r f : String) → has_prefix r f ≡ true → (rest : String) × (r ≡ f ++ rest)
unfolding has_prefix
has_prefix_sound r String.[] h = (r, sym (nil-append r))
has_prefix_sound String.[] (String.◌∷◌ d f) h = cc
has_prefix_sound (String.◌∷◌ c r) (String.◌∷◌ d f) h =
    let (rest, e) = has_prefix_sound r f (ground arith) in
    (rest, ap₂ String.◌∷◌ (Char-path c d (ground arith)) e ∙ sym (cons-append d f rest))

pub has_prefix-append : (f rest : String) → has_prefix (f ++ rest) f ≡ true
unfolding has_prefix
has_prefix-append String.[] rest = refl
has_prefix-append (String.◌∷◌ c f) rest =
    rw (cons-append c f rest, has_prefix) (ground (arith, has_prefix-append f rest))

-- The two tests on the component are one test of the prefix.
component_lem :
    (r f : String)
    → (not (f == "") && r == "") ≡ false
    → (not (f == "") && not (has_prefix r f)) ≡ false
    → (rest : String) × (r ≡ f ++ rest)
component_lem r f a b = elim (String-cases f "") [
  | inl (e, p) ↦ (r, sym (nil-append r) ∙ ap (λ t. t ++ r) (sym p))
  | inr (e, n) ↦ has_prefix_sound r f (ground arith)
]

component_of_prefix :
    (r f rest : String)
    → r ≡ f ++ rest
    → ((not (f == "") && r == "") ≡ false) × ((not (f == "") && not (has_prefix r f)) ≡ false)
component_of_prefix r f rest e =
    let x : has_prefix r f ≡ true = ap (λ t. has_prefix t f) e ∙ has_prefix-append f rest in
    (
      ground (arith, eq_iff f "", eq_iff r "", λ (p : r ≡ ""). (append-eq-nil_iff.0 (sym e ∙ p)).0),
      ground arith,
    )

-- A record passes the filter exactly when it meets the fields that are set, the component as a
-- prefix, and its level is at least the filter's.
pub match_v2-Passes : (f : LogFilter) (r : LogRecordV2) → (match_v2 f r ≡ true) ↔ Passes f r
unfolding match_v2
match_v2-Passes f r = (
  λ h. record {
    kernel = ground (arith, eq_iff f.kernel_id "", eq_iff r.kernel_id f.kernel_id);
    in_scope = ground (arith, eq_iff f.scope "", eq_iff r.scope f.scope);
    below = component_lem r.component f.component (ground arith) (ground arith);
    severe = ground arith;
  },
  λ p.
      let (rest, e) = p.below in
      let (x, y) = component_of_prefix r.component f.component rest e in
      let k = p.kernel in
      let s = p.in_scope in
      let l = p.severe in
      ground (
        arith,
        eq_iff f.kernel_id "",
        eq_iff r.kernel_id f.kernel_id,
        eq_iff f.scope "",
        eq_iff r.scope f.scope,
      ),
)
