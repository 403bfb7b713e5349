-- ===== src/Base/Text/Trim.antt =====
-- `bytes.TrimSpace`, on text.
use Prim.Native.Nat.{ℕ}
use Prim.Native.Char.{code}
use Prim.Native.String.{String}
use mathlib.Core.Path.{◌≡◌, refl}
use mathlib.Core.Bool.{Bool, false, ◌||◌, ◌&&◌}
use text.Mathlib.Text.{◌==◌}
use zta_core.Base.Tests.{eqb, leb, if◌then◌else◌}

-- `unicode.IsSpace`
abbrev pub is_space : ℕ → Bool
is_space n =
    leb 9 n && leb n 13
    || eqb n 32
    || eqb n 0x85
    || eqb n 0xa0
    || eqb n 0x1680
    || leb 0x2000 n && leb n 0x200a
    || eqb n 0x2028
    || eqb n 0x2029
    || eqb n 0x202f
    || eqb n 0x205f
    || eqb n 0x3000

unfoldable pub trim_left : String → String
trim_left String.[] = ""
trim_left (String.◌∷◌ c s) =
    let rest = trim_left s in if is_space (code c) then rest else String.◌∷◌ c s

unfoldable pub trim_right : String → String
trim_right String.[] = ""
trim_right (String.◌∷◌ c s) =
    let rest = trim_right s in if is_space (code c) && rest == "" then "" else String.◌∷◌ c rest

unfoldable pub trim_space : String → String
unfolding trim_left trim_right
trim_space s = trim_right (trim_left s)

abbrev pub HasNoSpace : String → Type 0
HasNoSpace String.[] = Unit
HasNoSpace (String.◌∷◌ c s) = (is_space (code c) ≡ false) × HasNoSpace s

trim_right_of_HasNoSpace : (s : String) → HasNoSpace s → trim_right s ≡ s
unfolding trim_right
trim_right_of_HasNoSpace String.[] _ = refl
trim_right_of_HasNoSpace (String.◌∷◌ c s) (h, hs) = rw (h, trim_right_of_HasNoSpace s hs) refl

trim_left_of_HasNoSpace : (s : String) → HasNoSpace s → trim_left s ≡ s
unfolding trim_left
trim_left_of_HasNoSpace String.[] _ = refl
trim_left_of_HasNoSpace (String.◌∷◌ c s) (h, hs) = rw h refl

-- A text without white space is not changed.
pub trim_space_of_HasNoSpace : (s : String) → HasNoSpace s → trim_space s ≡ s
unfolding trim_space
trim_space_of_HasNoSpace s h = rw (trim_left_of_HasNoSpace s h) (trim_right_of_HasNoSpace s h)
