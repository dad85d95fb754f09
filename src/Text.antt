-- ===== src/Text.antt =====
-- The functions of Go's `strings`, and of `filepath`, that several components use.
use Prim.Native.Char.{Char, code}
use Prim.Native.String.{String, ◌++◌}
use text.Mathlib.TextLemmas.{nil-append, cons-append, append_assoc}
use rassberry.Base.{
  ℕ, zero, suc, Bool, List, true, false, [], ◌∷◌, ◌≡◌, ◌==◌, refl, arith, ◌&&◌, ◌||◌, nat_eq, leb,
  if◌then◌else◌,
}
use rassberry.Telemetry.Filter.{has_prefix, has_prefix-append}

abbrev pub slash : ℕ
slash = b'/'

abbrev pub newline : ℕ
newline = b'\n'

-- `%-5s` and its like: at least so many characters.
abbrev pub pad : ℕ → String → String
pad zero s = s
pad (suc n) String.[] = " " ++ pad n String.[]
pad (suc n) (String.◌∷◌ c s) = String.◌∷◌ c (pad n s)

abbrev glue : Char → List String → List String
glue c [] = String.◌∷◌ c "" ∷ []
glue c (p ∷ ps) = String.◌∷◌ c p ∷ ps

-- `strings.Split(s, sep)` for a separator of one character.
unfoldable pub split : ℕ → String → List String
split sep String.[] = "" ∷ []
split sep (String.◌∷◌ c s) =
    let parts = split sep s in if nat_eq (code c) sep then "" ∷ parts else glue c parts

abbrev pub holds : ℕ → String → Bool
holds sep String.[] = false
holds sep (String.◌∷◌ c s) = nat_eq (code c) sep || holds sep s

abbrev strip : String → String → String
strip s String.[] = s
strip String.[] (String.◌∷◌ d p) = String.[]
strip (String.◌∷◌ c s) (String.◌∷◌ d p) = strip s p

-- `strings.TrimPrefix`
unfoldable pub trim_prefix : String → String → String
trim_prefix s p = if has_prefix s p then strip s p else s

abbrev pub only : (ℕ → Bool) → String → Bool
only f String.[] = true
only f (String.◌∷◌ c s) = f (code c) && only f s

-- The text without the characters of `f` at its end, and at its start.
unfoldable pub trim_right : (ℕ → Bool) → String → String
trim_right f String.[] = String.[]
trim_right f (String.◌∷◌ c s) =
    let rest = trim_right f s in if f (code c) && only f s then String.[] else String.◌∷◌ c rest

unfoldable pub trim_left : (ℕ → Bool) → String → String
trim_left f String.[] = String.[]
trim_left f (String.◌∷◌ c s) =
    let rest = trim_left f s in if f (code c) then rest else String.◌∷◌ c s

pub holds-append : (n : ℕ) (a b : String) → holds n (a ++ b) ≡ (holds n a || holds n b)
holds-append n String.[] b = rw (nil-append b) refl
holds-append n (String.◌∷◌ c a) b = rw (cons-append c a b) (ground (arith, holds-append n a b))

abbrev pub join : List String → String
join [] = ""
join (s ∷ ss) = s ++ join ss

-- `filepath.Base`: the part behind the last slash that is not at the end.
abbrev all_slashes : String → Bool
all_slashes String.[] = true
all_slashes (String.◌∷◌ c s) = nat_eq (code c) slash && all_slashes s

base_from : String → String → String
base_from cur String.[] = cur
base_from cur (String.◌∷◌ c s) =
    let next = base_from (if nat_eq (code c) slash then "" else cur ++ String.◌∷◌ c "") s in
    if nat_eq (code c) slash && all_slashes s then cur else next

unfoldable pub path_base : String → String
unfolding base_from
path_base path = let b = base_from "" path in if path == "" then "." else if b == "" then "/" else b

strip-append : (p s : String) → strip (p ++ s) p ≡ s
strip-append String.[] s = nil-append s
strip-append (String.◌∷◌ c p) s = rw (cons-append c p s, strip) (strip-append p s)

pub trim_prefix-append : (p s : String) → trim_prefix (p ++ s) p ≡ s
unfolding trim_prefix
trim_prefix-append p s = rw (has_prefix-append p s) (strip-append p s)

nat_eq_refl : (n : ℕ) → nat_eq n n ≡ true
nat_eq_refl n = ground arith

split-first : (c : Char) (s : String) → split (code c) (String.◌∷◌ c s) ≡ "" ∷ split (code c) s
unfolding split
split-first c s = rw (nat_eq_refl (code c)) refl

not_first :
    (n : ℕ) (c : Char) (a : String) → holds n (String.◌∷◌ c a) ≡ false → nat_eq (code c) n ≡ false
not_first n c a h = ground arith

pub split-append :
    (sep : Char) (a s : String)
    → holds (code sep) a ≡ false
    → split (code sep) (a ++ String.◌∷◌ sep s) ≡ a ∷ split (code sep) s
unfolding split
split-append sep String.[] s h = rw (nil-append (String.◌∷◌ sep s)) (split-first sep s)
split-append sep (String.◌∷◌ c a) s h =
    rw (cons-append c a (String.◌∷◌ sep s))
      (rw (not_first (code sep) c a h, split-append sep a s (ground arith)) refl)

abbrev extend : Char → List String → List String
extend c [] = []
extend c (l ∷ ls) = String.◌∷◌ c l ∷ ls

-- What `ReadString('\n')` answers, call by call; a last line without its end is an error of the call.
unfoldable pub read_lines : String → List String
read_lines String.[] = []
read_lines (String.◌∷◌ c s) =
    let rest = read_lines s in
    if nat_eq (code c) newline then String.◌∷◌ c "" ∷ rest else extend c rest

pub read_lines-append :
    (a s : String)
    → holds newline a ≡ false
    → read_lines (a ++ ("\n" ++ s)) ≡ (a ++ "\n") ∷ read_lines s
unfolding read_lines
read_lines-append String.[] s h =
    rw (nil-append ("\n" ++ s), nil-append "\n") (rw (cons-append "\n" "" s, nil-append s) refl)
read_lines-append (String.◌∷◌ c a) s h =
    rw
      (
        cons-append c a ("\n" ++ s),
        cons-append c a "\n",
        not_first newline c a h,
        read_lines-append a s (ground arith),
      )
      refl

pub read_lines-newline : (s : String) → read_lines ("\n" ++ s) ≡ "\n" ∷ read_lines s
unfolding read_lines
read_lines-newline s = rw (cons-append "\n" "" s, nil-append s) refl

-- `unicode.IsSpace`
abbrev pub is_space : ℕ → Bool
is_space c =
    (leb 9 c && leb c 13)
    || nat_eq c 32
    || nat_eq c 133
    || nat_eq c 160
    || nat_eq c 5760
    || (leb 8192 c && leb c 8202)
    || nat_eq c 8232
    || nat_eq c 8233
    || nat_eq c 8239
    || nat_eq c 8287
    || nat_eq c 12288

unfoldable pub trim_space : String → String
unfolding trim_left trim_right
trim_space s = trim_right is_space (trim_left is_space s)

-- The text of an object: what stands between two braces.
abbrev pub braces : String → String
braces body = "{" ++ (body ++ "}")

only-close : (a : String) → only is_space (a ++ ("}" ++ "\n")) ≡ false
only-close String.[] = refl
only-close (String.◌∷◌ c a) = rw (cons-append c a ("}" ++ "\n")) (ground (arith, only-close a))

and_false : (a b : Bool) → b ≡ false → (a && b) ≡ false
and_false a b h = ground arith

trim_right-close : (a : String) → trim_right is_space (a ++ ("}" ++ "\n")) ≡ a ++ "}"
unfolding trim_right
trim_right-close String.[] = refl
trim_right-close (String.◌∷◌ c a) =
    rw (cons-append c a ("}" ++ "\n"), cons-append c a "}")
      (rw (and_false (is_space (code c)) _ (only-close a), trim_right-close a) refl)

pub trim_space-braces : (body : String) → trim_space (braces body ++ "\n") ≡ braces body
unfolding trim_space trim_left trim_right
trim_space-braces body =
    rw
      (
        append_assoc "{" (body ++ "}") "\n",
        append_assoc body "}" "\n",
        cons-append "{" "" (body ++ ("}" ++ "\n")),
        nil-append (body ++ ("}" ++ "\n")),
        trim_right-close body,
        cons-append "{" "" (body ++ "}"),
        nil-append (body ++ "}"),
      )
      refl
