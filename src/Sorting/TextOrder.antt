-- ===== src/Sorting/TextOrder.antt =====
-- The order of texts by their characters' numbers, which is that of
-- Python's str.
use Prim.Native.Char.{code}
use Prim.Native.String.{String}
use graphon.Prelude.{◌≡◌, refl, Bool, true, false, arith, ltb, if◌then◌else◌}

-- s < t
unfoldable pub text_lt : String → String → Bool
text_lt String.[] String.[] = false
text_lt String.[] (String.◌∷◌ d t) = true
text_lt (String.◌∷◌ c s) String.[] = false
text_lt (String.◌∷◌ c s) (String.◌∷◌ d t) =
    let rest = text_lt s t in
    if ltb (code c) (code d) then true else if ltb (code d) (code c) then false else rest

pub text_asym : (s t : String) → text_lt s t ≡ true → text_lt t s ≡ false
unfolding text_lt
text_asym String.[] String.[] h = cc
text_asym String.[] (String.◌∷◌ d t) h = refl
text_asym (String.◌∷◌ c s) String.[] h = cc
text_asym (String.◌∷◌ c s) (String.◌∷◌ d t) h = ground (arith, text_asym s t)

pub text_trans : (s t u : String) → text_lt t s ≡ false → text_lt u t ≡ false → text_lt u s ≡ false
unfolding text_lt
text_trans String.[] t String.[] h k = refl
text_trans String.[] String.[] (String.◌∷◌ e u) h k = refl
text_trans String.[] (String.◌∷◌ d t) (String.◌∷◌ e u) h k = refl
text_trans (String.◌∷◌ c s) String.[] u h k = cc
text_trans (String.◌∷◌ c s) (String.◌∷◌ d t) String.[] h k = cc
text_trans (String.◌∷◌ c s) (String.◌∷◌ d t) (String.◌∷◌ e u) h k = ground (arith, text_trans s t u)
