-- ===== src/Json/Laws.antt =====
-- Reading a key of a dict after a write.
use labloop.Prelude.{String, true, ◌≡◌, refl, some, arith, eq_iff, ◌==◌, string_eq, if◌then◌else◌}
use labloop.Json.{Json, Fields, field, end, get, put, has, get_or}

pub get-put :
    (k j : String) (v : Json) (d : Fields)
    → get j (put k v d) ≡ (if k == j then some v else get j d)
unfolding get put
get-put k j v end = refl
get-put k j v (field i w d) = ground (arith, eq_iff k j, eq_iff i k, eq_iff i j, get-put k j v d)

pub has-put :
    (k j : String) (v : Json) (d : Fields) → has j (put k v d) ≡ (if k == j then true else has j d)
unfolding has
has-put k j v d = ground (arith, get-put k j v d, eq_iff k j)

pub get_or-put :
    (k j : String) (v default : Json) (d : Fields)
    → get_or j default (put k v d) ≡ (if k == j then v else get_or j default d)
unfolding get_or
get_or-put k j v default d = ground (arith, get-put k j v d)
