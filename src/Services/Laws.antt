-- ===== src/Services/Laws.antt =====
-- The layers of an adopter's modules and data.
use zta_core.Base.{
  String, ◌≡◌, refl, inl, inr, Option, none, some, List, [], ◌∷◌, ◌==◌, arith, eq_iff, Bool-cases,
  if◌then◌else◌,
}
use zta_core.Services.{find, assign, layer}

module _ {A : Type 0} where
  -- The first of two that is there.
  abbrev pub over : Option A → Option A → Option A
  over none below = below
  over (some a) below = some a

  abbrev pub IsDistinct : List (String × A) → Type 0
  IsDistinct [] = Unit
  IsDistinct ((k, a) ∷ m) = (find k m ≡ none) × IsDistinct m

  pub find-assign :
      (k j : String) (a : A) (m : List (String × A))
      → find k (assign j a m) ≡ (if j == k then some a else find k m)
  unfolding find assign
  find-assign k j a [] = ground arith
  find-assign k j a ((i, b) ∷ m) =
      ground (arith, find-assign k j a m, eq_iff j k, eq_iff i k, eq_iff i j)

  pub assign-IsDistinct :
      (k : String) (a : A) (m : List (String × A)) → IsDistinct m → IsDistinct (assign k a m)
  unfolding find assign
  assign-IsDistinct k a [] d = (refl, tt)
  assign-IsDistinct k a ((i, b) ∷ m) (fresh, d) = elim (Bool-cases (i == k)) [
    | inl e ↦ rw e (rw ((eq_iff i k).0 e) at fresh, d)
    | inr e ↦ rw e (
      ground (arith, find-assign i k a m, fresh, e, eq_iff i k, eq_iff k i),
      assign-IsDistinct k a m d,
    )
  ]

  -- After the layering, every key reads as the adopter's entry if it has one, and as the framework's
  -- entry otherwise.
  pub find-layer :
      (k : String) (extra base : List (String × A))
      → IsDistinct extra
      → find k (layer extra base) ≡ over (find k extra) (find k base)
  unfolding find layer
  find-layer k [] base d = refl
  find-layer k ((j, a) ∷ extra) base (fresh, d) = elim (Bool-cases (j == k)) [
    | inl e ↦
        ground (arith, find-layer k extra (assign j a base) d, find-assign k j a base, eq_iff j k)
    | inr e ↦ ground (arith, find-layer k extra (assign j a base) d, find-assign k j a base)
  ]
