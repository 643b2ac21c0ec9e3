-- ===== src/Conditions/Texts.antt =====
-- utils/condition/processor.py: the operations on texts that the conditions use.
use Prim.Native.String.{String, len, slice}
use Prim.Native.Nat.{ℕ, ◌-◌}
use text.Mathlib.Text.{starts_with, find?, ◌==◌}
use graphon.Prelude.{◌≡◌, refl, Bool, true, false, ◌&&◌, Option, none, some, leb}

abbrev is_found : Option ℕ → Bool
is_found none = false
is_found (some _) = true

-- part in text
unfoldable pub has_part : String → String → Bool
has_part text part = is_found (find? text part)

-- text.startswith(part)
unfoldable pub start_with : String → String → Bool
start_with text part = starts_with text part

-- text.endswith(part)
unfoldable pub end_with : String → String → Bool
end_with text part =
    leb (len part) (len text) && slice text (len text - len part) (len text) == part

found : has_part "graphon" "pho" ≡ true
unfolding has_part
found = refl

at_end : end_with "graphon" "on" ≡ true
unfolding end_with
at_end = refl
