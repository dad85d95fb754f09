-- ===== src/Base/Order.antt =====
-- Go's `<` on `string`, a strict total order. UTF-8 keeps the order of the code points.
use Prim.Native.Char.{Char, code}
use Prim.Native.String.{String}
use mathlib.Core.Path.{◌≡◌, refl, ap₂}
use mathlib.Core.Logic.{◌≢◌}
use mathlib.Core.Bool.{Bool, true, false}
use native.Mathlib.Decide.{ℕ_discrete}
use native.Mathlib.Omega.{arith}
use text.Mathlib.TextEquality.{Char-path}
use rassberry.Base.Tests.{ltb, if◌then◌else◌}

unfoldable pub text_lt : String → String → Bool
text_lt String.[] String.[] = false
text_lt String.[] (String.◌∷◌ d t) = true
text_lt (String.◌∷◌ c s) String.[] = false
text_lt (String.◌∷◌ c s) (String.◌∷◌ d t) =
    if ltb (code c) (code d) then true else if ltb (code d) (code c) then false else text_lt s t

pub text_lt_irrefl : (s : String) → text_lt s s ≡ false
unfolding text_lt
text_lt_irrefl String.[] = refl
text_lt_irrefl (String.◌∷◌ c s) = ground (arith, text_lt_irrefl s)

pub text_lt_trans : (s t u : String) → text_lt s t ≡ true → text_lt t u ≡ true → text_lt s u ≡ true
unfolding text_lt
text_lt_trans String.[] String.[] u h k = cc
text_lt_trans String.[] (String.◌∷◌ d t) String.[] h k = cc
text_lt_trans String.[] (String.◌∷◌ d t) (String.◌∷◌ e u) h k = refl
text_lt_trans (String.◌∷◌ c s) String.[] u h k = cc
text_lt_trans (String.◌∷◌ c s) (String.◌∷◌ d t) String.[] h k = cc
text_lt_trans (String.◌∷◌ c s) (String.◌∷◌ d t) (String.◌∷◌ e u) h k =
    ground (arith, text_lt_trans s t u)

tails-ne : (c d : Char) (s t : String) → code c ≡ code d → String.◌∷◌ c s ≢ String.◌∷◌ d t → s ≢ t
tails-ne c d s t p n e = n (ap₂ String.◌∷◌ (Char-path c d p) e)

-- Of two different texts one is the smaller.
pub text_lt_total : (s t : String) → s ≢ t → text_lt s t ≡ false → text_lt t s ≡ true
unfolding text_lt
text_lt_total String.[] String.[] n h = absurd (n refl)
text_lt_total String.[] (String.◌∷◌ d t) n h = cc
text_lt_total (String.◌∷◌ c s) String.[] n h = refl
text_lt_total (String.◌∷◌ c s) (String.◌∷◌ d t) n h = elim (ℕ_discrete (code c) (code d)) [
  | yes p ↦ ground (arith, text_lt_total s t (tails-ne c d s t p n))
  | no p ↦ ground arith
]
