-- ===== src/Base/Text.antt =====
-- Python's `<` on `str`: lexicographic by code points, and its order laws.
use Prim.Native.Char.{Char, code}
use Prim.Native.String.{String}
use mathlib.Core.Path.{◌≡◌, refl, ap₂}
use mathlib.Core.Bool.{Bool, true, false}
use native.Mathlib.Omega.{arith}
use text.Mathlib.TextEquality.{Char-path}
use incremental_cdc_data_pla.Base.Tests.{ltb, eqb, if◌then◌else◌}

unfoldable pub text_lt : String → String → Bool
text_lt s String.[] = false
text_lt String.[] (String.◌∷◌ d t) = true
text_lt (String.◌∷◌ c s) (String.◌∷◌ d t) =
    let rest = text_lt s t in
    if ltb (code c) (code d) then true else if eqb (code c) (code d) then rest else false

pub text_lt_irrefl : (s : String) → text_lt s s ≡ false
unfolding text_lt
text_lt_irrefl String.[] = refl
text_lt_irrefl (String.◌∷◌ c s) = ground (arith, text_lt_irrefl s)

pub text_lt_trans : (a b c : String) → text_lt a b ≡ true → text_lt b c ≡ true → text_lt a c ≡ true
unfolding text_lt
text_lt_trans a b String.[] p q = cc
text_lt_trans a String.[] (String.◌∷◌ z c) p q = cc
text_lt_trans String.[] (String.◌∷◌ y b) (String.◌∷◌ z c) p q = refl
text_lt_trans (String.◌∷◌ x a) (String.◌∷◌ y b) (String.◌∷◌ z c) p q =
    ground (arith, text_lt_trans a b c)

codes_eq :
    (x y : Char) (a b : String)
    → text_lt (String.◌∷◌ x a) (String.◌∷◌ y b) ≡ false
    → text_lt (String.◌∷◌ y b) (String.◌∷◌ x a) ≡ false
    → (code x ≡ code y) × (text_lt a b ≡ false) × (text_lt b a ≡ false)
unfolding text_lt
codes_eq x y a b p q = ground arith

-- Two texts of which neither is smaller are one.
pub text_lt_tri : (a b : String) → text_lt a b ≡ false → text_lt b a ≡ false → a ≡ b
unfolding text_lt
text_lt_tri String.[] String.[] p q = refl
text_lt_tri String.[] (String.◌∷◌ y b) p q = cc
text_lt_tri (String.◌∷◌ x a) String.[] p q = cc
text_lt_tri (String.◌∷◌ x a) (String.◌∷◌ y b) p q =
    let e = codes_eq x y a b p q in ap₂ String.◌∷◌ (Char-path x y e.0) (text_lt_tri a b e.1 e.2)

-- "Not smaller" is transitive.
pub text_lt_weak :
    (a b c : String) → text_lt a b ≡ false → text_lt b c ≡ false → text_lt a c ≡ false
text_lt_weak a b c p q = ground (arith, text_lt_tri a b, text_lt_trans b a c)

pub text_lt_asym : (a b : String) → text_lt a b ≡ true → text_lt b a ≡ false
text_lt_asym a b p = ground (arith, text_lt_trans a b a, text_lt_irrefl a)
