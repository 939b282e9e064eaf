-- ===== src/Common/TextOrder.antt =====
-- The order of texts by their characters' numbers, which is `<` on strings as long as no character
-- has two UTF-16 units.
use Prim.Native.Char.{code}
use Prim.Native.String.{String}
use mathlib.Core.Path.{◌≡◌, refl}
use mathlib.Core.Bool.{Bool, true, false, ◌&&◌, ◌||◌}
use native.Mathlib.Omega.{arith}
use federal_mcps.Common.Tests.{ltb, ◌==◌}
use federal_mcps.Common.Sort.{IsOrder}

unfoldable pub text_before : String → String → Bool
text_before String.[] String.[] = false
text_before String.[] (String.◌∷◌ d t) = true
text_before (String.◌∷◌ c s) String.[] = false
text_before (String.◌∷◌ c s) (String.◌∷◌ d t) =
    ltb (code c) (code d) || code c == code d && text_before s t

text_before-asymmetric : (s t : String) → text_before s t ≡ true → text_before t s ≡ false
unfolding text_before
text_before-asymmetric String.[] String.[] e = refl
text_before-asymmetric String.[] (String.◌∷◌ d t) e = refl
text_before-asymmetric (String.◌∷◌ c s) String.[] e = cc
text_before-asymmetric (String.◌∷◌ c s) (String.◌∷◌ d t) e =
    ground (arith, text_before-asymmetric s t)

text_before-transitive :
    (r s t : String) → text_before s r ≡ false → text_before t s ≡ false → text_before t r ≡ false
unfolding text_before
text_before-transitive String.[] s String.[] e f = refl
text_before-transitive (String.◌∷◌ b r) String.[] t e f = cc
text_before-transitive (String.◌∷◌ b r) (String.◌∷◌ c s) String.[] e f = cc
text_before-transitive String.[] String.[] (String.◌∷◌ d t) e f = refl
text_before-transitive String.[] (String.◌∷◌ c s) (String.◌∷◌ d t) e f = refl
text_before-transitive (String.◌∷◌ b r) (String.◌∷◌ c s) (String.◌∷◌ d t) e f =
    ground (arith, text_before-transitive r s t)

pub text_before-IsOrder : IsOrder text_before
text_before-IsOrder = record {
  asymmetric = text_before-asymmetric;
  transitive = text_before-transitive;
}

pub text_before_self : (s : String) → text_before s s ≡ false
unfolding text_before
text_before_self String.[] = refl
text_before_self (String.◌∷◌ c s) = ground (arith, text_before_self s)
