-- ===== src/Json/Canon/Laws.antt =====
-- Sorting the keys of a map keeps its entries, and a second time changes nothing.
use zta_core.Base.{
  String, true, ◌≡◌, refl, ap, ◌∙◌, inl, inr, none, some, arith, ◌==◌, eq_iff, if◌then◌else◌,
  Bool-cases,
}
use zta_core.Json.{
  Value, null, bool, num, str, arr, obj, Items, nil, cons, Fields, end, field, Map, get,
}
use zta_core.Json.Order.{before, before_irrefl, before_asymm, before_trans}
use zta_core.Json.Canon.{place, canon, canon_items, canon_fields, canon_map}

pub get-place :
    (j k : String) (v : Value) (m : Fields)
    → get j (place k v m) ≡ (if k == j then some v else get j m)
unfolding get place
get-place j k v end = ground arith
get-place j k v (field i w m) =
    ground (arith, get-place j k v m, before_irrefl k, eq_iff k j, eq_iff i j)

-- Entries with different keys can be placed in either order.
place_comm :
    (j k : String) (w v : Value) (m : Fields)
    → before j k ≡ true
    → place j w (place k v m) ≡ place k v (place j w m)
unfolding place
place_comm j k w v end h = ground (arith, before_asymm j k)
place_comm j k w v (field i u m) h =
    ground (arith, place_comm j k w v m h, before_asymm j k, before_trans i j k)

canon_fields-place :
    (k : String) (v : Value) (m : Fields)
    → canon_fields (place k v m) ≡ place k (canon v) (canon_fields m)
unfolding canon place
canon_fields-place k v end = refl
canon_fields-place k v (field j w m) = elim (Bool-cases (before j k)) [
  | inl h ↦
      rw (h, place)
        (ap (place j (canon w)) (canon_fields-place k v m)
          ∙ place_comm j k (canon w) (canon v) (canon_fields m) h)
  | inr h ↦ rw (h, place) refl
]

mutual
  unfolding canon

  canon-canon_lem : (v : Value) → canon (canon v) ≡ canon v
  canon-canon_lem null = refl
  canon-canon_lem (bool b) = refl
  canon-canon_lem (num n) = refl
  canon-canon_lem (str s) = refl
  canon-canon_lem (arr xs) = ap arr (canon_items_twice xs)
  canon-canon_lem (obj m) = ap obj (canon_fields_twice m)

  canon_items_twice : (xs : Items) → canon_items (canon_items xs) ≡ canon_items xs
  canon_items_twice nil = refl
  canon_items_twice (cons v xs) = cc (canon-canon_lem v, canon_items_twice xs)

  canon_fields_twice : (m : Fields) → canon_fields (canon_fields m) ≡ canon_fields m
  canon_fields_twice end = refl
  canon_fields_twice (field k v m) =
      canon_fields-place k (canon v) (canon_fields m) ∙ cc (canon-canon_lem v, canon_fields_twice m)

-- Encoding what was decoded sorts nothing further.
canon_idem : (v : Value) → canon (canon v) ≡ canon v
canon_idem v = canon-canon_lem v

pub canon_map_idem : (m : Map) → canon_map (canon_map m) ≡ canon_map m
canon_map_idem none = refl
canon_map_idem (some m) = ap {B = Map} some (canon_fields_twice m)
