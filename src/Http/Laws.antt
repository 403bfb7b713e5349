-- ===== src/Http/Laws.antt =====
-- Reading back a header that was set.
use zta_core.Base.{String, ◌≡◌, [], ◌∷◌, arith, ◌==◌, eq_iff, if◌then◌else◌}
use zta_core.Http.{Headers, header, without, set_header}

header-without :
    (j k : String) (hs : Headers) → header j (without k hs) ≡ (if k == j then "" else header j hs)
unfolding header without
header-without j k [] = ground arith
header-without j k ((i, v) ∷ hs) =
    ground (arith, header-without j k hs, eq_iff k j, eq_iff i j, eq_iff i k)

pub header-set_header :
    (j k v : String) (hs : Headers)
    → header j (set_header k v hs) ≡ (if k == j then v else header j hs)
unfolding header set_header
header-set_header j k v hs = ground (arith, header-without j k hs)
