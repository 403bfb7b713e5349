-- ===== src/Json/Order.antt =====
-- The order of map keys in the encoder's output: by code points, which is the order of the
-- bytes of their UTF-8.
use Prim.Native.Char.{code}
use text.Mathlib.TextEquality.{Char-path}
use zta_core.Base.{String, Bool, true, false, ◌≡◌, arith, ltb, if◌then◌else◌}

unfoldable pub before : String → String → Bool
before String.[] String.[] = false
before String.[] (String.◌∷◌ d t) = true
before (String.◌∷◌ c s) String.[] = false
before (String.◌∷◌ c s) (String.◌∷◌ d t) =
    let rest = before s t in
    if ltb (code c) (code d) then true else if ltb (code d) (code c) then false else rest

pub before_irrefl : (s : String) → before s s ≡ false
unfolding before
before_irrefl String.[] = ground arith
before_irrefl (String.◌∷◌ c s) = ground (arith, before_irrefl s)

pub before_asymm : (s t : String) → before s t ≡ true → before t s ≡ false
unfolding before
before_asymm String.[] (String.◌∷◌ d t) h = ground arith
before_asymm (String.◌∷◌ c s) (String.◌∷◌ d t) h = ground (arith, before_asymm s t)
before_asymm _ _ h = ground arith

pub before_trans : (s t u : String) → before s t ≡ true → before t u ≡ true → before s u ≡ true
unfolding before
before_trans (String.◌∷◌ c s) (String.◌∷◌ d t) (String.◌∷◌ e u) h k =
    ground (arith, before_trans s t u)
before_trans String.[] t (String.◌∷◌ e u) h k = ground arith
before_trans _ (String.◌∷◌ d t) String.[] h k = ground arith
before_trans _ String.[] String.[] h k = ground arith
before_trans (String.◌∷◌ c s) String.[] (String.◌∷◌ e u) h k = ground arith

-- Texts that are not ordered either way are equal.
pub before_total : (s t : String) → before s t ≡ false → before t s ≡ false → s ≡ t
unfolding before
before_total String.[] String.[] h k = ground arith
before_total String.[] (String.◌∷◌ d t) h k = ground arith
before_total (String.◌∷◌ c s) String.[] h k = ground arith
before_total (String.◌∷◌ c s) (String.◌∷◌ d t) h k = ground (arith, before_total s t, Char-path c d)
