-- ===== src/Base/Text.antt =====
-- strings.HasPrefix and strings.TrimPrefix.
use Prim.Native.Char.{code}
use Prim.Native.String.{String, ◌++◌}
use Prim.Native.String.append
use mathlib.Core.Path.{◌≡◌, refl}
use mathlib.Core.Bool.{Bool, true}
use mathlib.Core.Option.{Option, none, some}
use native.Mathlib.Omega.{arith}
use text.Mathlib.TextEquality.{Char-path}
use kbind.Base.Tests.{if◌then◌else◌, eqb, is_some, Bool-cases, Option-cases}
use mathlib.Core.Logic.{◌⊎◌, inl, inr}

-- What is left of a text behind a prefix, if it has that prefix.
pub strip : String → String → Option String
strip s String.[] = some s
strip String.[] (String.◌∷◌ d p) = none
strip (String.◌∷◌ c s) (String.◌∷◌ d p) = if eqb (code c) (code d) then strip s p else none

unfoldable pub has_prefix : String → String → Bool
unfolding strip
has_prefix s p = is_some (strip s p)

abbrev or_self : Option String → String → String
or_self none s = s
or_self (some r) s = r

unfoldable pub trim_prefix : String → String → String
unfolding strip
trim_prefix s p = or_self (strip s p) s

pub strip-append : (p s : String) → strip (p ++ s) p ≡ some s
unfolding strip
strip-append String.[] s = rw append.nil
strip-append (String.◌∷◌ c p) s = rw append.cons (ground (arith, strip-append p s))

-- A text that strips to `r` is the prefix and `r`.
pub strip-eq-some : (s p r : String) → strip s p ≡ some r → s ≡ p ++ r
unfolding strip
strip-eq-some s String.[] r h = cc (append.nil r)
strip-eq-some String.[] (String.◌∷◌ d p) r h = cc
strip-eq-some (String.◌∷◌ c s) (String.◌∷◌ d p) r h = elim (Bool-cases (eqb (code c) (code d))) [
  | inl e ↦ cc (append.cons d p r, Char-path c d (ground arith), strip-eq-some s p r (ground arith))
  | inr e ↦ ground arith
]

pub trim_prefix-append : (p s : String) → trim_prefix (p ++ s) p ≡ s
unfolding trim_prefix
trim_prefix-append p s = rw (strip-append p s)

pub trim_prefix-cases : (s p : String) → (s ≡ p ++ trim_prefix s p) ⊎ (s ≡ trim_prefix s p)
unfolding trim_prefix
trim_prefix-cases s p = elim (Option-cases (strip s p)) [
  | inl e ↦ inr (rw e refl)
  | inr (r, e) ↦ inl (rw e (strip-eq-some s p r e))
]

pub has_prefix-append : (p s : String) → has_prefix (p ++ s) p ≡ true
unfolding has_prefix
has_prefix-append p s = rw (strip-append p s)
