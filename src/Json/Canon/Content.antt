-- ===== src/Json/Canon/Content.antt =====
-- The canonical form of a map depends on its content alone, and not on the order in which its
-- entries were put there.
use mathlib.Core.Option
use zta_core.Base.{
  String, true, false, ◌≡◌, refl, sym, ap, ◌∙◌, inl, inr, none, arith, eq_iff, eq_refl, Bool-cases,
}
use zta_core.Json.{Value, Fields, end, field, get}
use zta_core.Json.Order.{before, before_irrefl, before_trans, before_total}
use zta_core.Json.Canon.{place, canon, canon_fields}
use zta_core.Json.Canon.Laws.{get-place}

-- No key occurs twice, as in every Go map.
abbrev pub IsDistinct : Fields → Type 0
IsDistinct end = Unit
IsDistinct (field k v m) = (get k m ≡ none) × IsDistinct m

abbrev After : String → Fields → Type 0
After k end = Unit
After k (field j w m) = (before k j ≡ true) × After k m

abbrev IsSorted : Fields → Type 0
IsSorted end = Unit
IsSorted (field k v m) = After k m × IsSorted m

After-trans : (k j : String) (m : Fields) → before k j ≡ true → After j m → After k m
After-trans k j end h _ = tt
After-trans k j (field i w m) h (b, a) = (before_trans k j i h b, After-trans k j m h a)

After-place :
    (j k : String) (v : Value) (m : Fields) → before j k ≡ true → After j m → After j (place k v m)
unfolding place
After-place j k v end h _ = (h, tt)
After-place j k v (field i w m) h (b, a) = ground (arith, After-place j k v m h a)

get-After : (k : String) (m : Fields) → After k m → get k m ≡ none
unfolding get
get-After k end _ = refl
get-After k (field j w m) (b, a) = ground (arith, get-After k m a, eq_iff j k, before_irrefl k)

place-IsSorted :
    (k : String) (v : Value) (m : Fields) → get k m ≡ none → IsSorted m → IsSorted (place k v m)
unfolding get place
place-IsSorted k v end e _ = (tt, tt)
place-IsSorted k v (field j w m) e (a, s) = elim (Bool-cases (before j k)) [
  | inl h ↦
      rw (h, place) (After-place j k v m h a, place-IsSorted k v m (ground (arith, eq_iff j k)) s)
  | inr h ↦
      let later : before k j ≡ true = ground (arith, before_total j k h, eq_refl k, eq_iff j k) in
      rw (h, place) ((later, After-trans k j m later a), (a, s))
]

pub get-canon_fields :
    (k : String) (m : Fields) → get k (canon_fields m) ≡ Option.map canon (get k m)
unfolding get canon
get-canon_fields k end = refl
get-canon_fields k (field j w m) =
    get-place k j (canon w) (canon_fields m) ∙ ground (arith, get-canon_fields k m)

canon_fields-IsSorted : (m : Fields) → IsDistinct m → IsSorted (canon_fields m)
unfolding canon
canon_fields-IsSorted end _ = tt
canon_fields-IsSorted (field k v m) (e, d) =
    place-IsSorted k (canon v) (canon_fields m) (get-canon_fields k m ∙ ap (Option.map canon) e)
      (canon_fields-IsSorted m d)

head_unique :
    (k j : String) (v w : Value) (a b : Fields)
    → After j b
    → get k (field k v a) ≡ get k (field j w b)
    → before k j ≡ false
unfolding get
head_unique k j v w a b jb h = elim (Bool-cases (before k j)) [
  | inl p ↦ absurd (
      ground
        (arith, eq_refl k, eq_iff j k, before_irrefl k, get-After k b (After-trans k j b p jb), h))
  | inr p ↦ p
]

tail_unique :
    (k j x : String) (v w : Value) (a b : Fields)
    → k ≡ j
    → After k a
    → After j b
    → get x (field k v a) ≡ get x (field j w b)
    → get x a ≡ get x b
unfolding get
tail_unique k j x v w a b same ka jb h =
    ground (arith, get-After k a ka, get-After j b jb, eq_iff k x, eq_iff j x)

IsSorted-ext : (a b : Fields) → IsSorted a → IsSorted b → ((k : String) → get k a ≡ get k b) → a ≡ b
unfolding get
IsSorted-ext end end _ _ h = refl
IsSorted-ext end (field k v b) _ _ h = absurd (ground (arith, h k, eq_refl k))
IsSorted-ext (field k v a) end _ _ h = absurd (ground (arith, h k, eq_refl k))
IsSorted-ext (field k v a) (field j w b) (ka, sa) (jb, sb) h =
    let same : k ≡ j =
      before_total k j (head_unique k j v w a b jb (h k))
        (head_unique j k w v b a ka (sym (h j))) in
    let rest : a ≡ b = IsSorted-ext a b sa sb (λ x. tail_unique k j x v w a b same ka jb (h x)) in
    ground (arith, h k, eq_refl k, eq_iff j k)

-- Two maps that hold equal values, up to the order of keys inside them, under the same keys have
-- one canonical form.
pub canon_fields-ext :
    (a b : Fields)
    → IsDistinct a
    → IsDistinct b
    → ((k : String) → Option.map canon (get k a) ≡ Option.map canon (get k b))
    → canon_fields a ≡ canon_fields b
canon_fields-ext a b da db h =
    IsSorted-ext (canon_fields a) (canon_fields b) (canon_fields-IsSorted a da)
      (canon_fields-IsSorted b db) (λ k. get-canon_fields k a ∙ h k ∙ sym (get-canon_fields k b))
