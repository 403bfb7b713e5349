-- ===== src/Base/Text/Laws.antt =====
-- What `strings.Cut` and `strings.Split` return, as equations between texts.
use Prim.Native.Char.{Char, code}
use Prim.Native.String.{String, ◌++◌ as ◌<>◌}
use mathlib.Core.Path.{◌≡◌, refl, ap, sym, ◌∙◌}
use mathlib.Core.Logic.{◌⊎◌, inl, inr}
use mathlib.Core.Option.{none, some}
use mathlib.Core.List.{List, [], ◌∷◌}
use native.Mathlib.Omega.{arith}
use text.Mathlib.TextLemmas.{nil-append, cons-append}
use text.Mathlib.TextEquality.{Char-path}
use zta_core.Base.Tests.{eqb, eqb_iff, Bool-cases}
use zta_core.Base.Text.{cut, split, Lacks}

module _ (sep : Char) where
  -- Two texts with the separator between them.
  abbrev pub join : String → String → String
  join a b = a <> (String.◌∷◌ sep b)

  pub cut-join : (a b : String) → Lacks (code sep) a → cut (code sep) (join a b) ≡ some (a, b)
  unfolding cut
  cut-join String.[] b _ = rw nil-append (ground arith)
  cut-join (String.◌∷◌ c a) b (h, hs) = rw (cons-append, cut-join a b hs) (ground arith)

  pub split-join :
      (a b : String) → Lacks (code sep) a → split (code sep) (join a b) ≡ a ∷ split (code sep) b
  unfolding split
  split-join String.[] b _ = rw nil-append (ground arith)
  split-join (String.◌∷◌ c a) b (h, hs) = rw (cons-append, split-join a b hs) (ground arith)

  pub split-eq-single : (s : String) → Lacks (code sep) s → split (code sep) s ≡ s ∷ []
  unfolding split
  split-eq-single String.[] _ = refl
  split-eq-single (String.◌∷◌ c s) (h, hs) = rw (split-eq-single s hs) (ground arith)

  cut-eq-none : (s : String) → Lacks (code sep) s → cut (code sep) s ≡ none
  unfolding cut
  cut-eq-none String.[] _ = refl
  cut-eq-none (String.◌∷◌ c s) (h, hs) = rw (cut-eq-none s hs) (ground arith)

  -- A text has no separator, or splits at its first one.
  pub Lacks-or-join :
      (s : String)
      → Lacks (code sep) s ⊎ ((a : String) × (b : String) × (s ≡ join a b) × Lacks (code sep) a)
  Lacks-or-join String.[] = inl tt
  Lacks-or-join (String.◌∷◌ c s) = elim (Bool-cases (eqb (code c) (code sep))) [
    | inl hit ↦
        let same : c ≡ sep = Char-path c sep ((eqb_iff _ _).0 hit) in
        inr ("", s, ap (λ d. String.◌∷◌ d s) same ∙ sym (nil-append _), tt)
    | inr miss ↦ elim (Lacks-or-join s) [
      | inl lacks ↦ inl (ground arith, lacks)
      | inr (a, b, e, lacks) ↦
          inr (
            String.◌∷◌ c a,
            b,
            ap (String.◌∷◌ c) e ∙ sym (cons-append c a _),
            (ground arith, lacks),
          )
    ]
  ]

  pub split_nonempty :
      (s : String) → (x : String) × (xs : List String) × (split (code sep) s ≡ x ∷ xs)
  split_nonempty s = elim (Lacks-or-join s) [
    | inl lacks ↦ (s, [], split-eq-single s lacks)
    | inr (a, b, e, lacks) ↦ (a, split (code sep) b, ap (split (code sep)) e ∙ split-join a b lacks)
  ]
