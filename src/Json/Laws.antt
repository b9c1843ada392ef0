-- ===== src/Json/Laws.antt =====
-- The fields of an object as a map.
use hakobackend.Base.{
  ◌≡◌, refl, none, some, Str, arith, str_eq, str_eq_iff, if◌then◌else◌, [], ◌∷◌, str_Eq,
}
use hakobackend.Base.Map.{Map, get}
use hakobackend.Json.{
  Value, Fields, no_fields, field, get_field, insert_field, remove_field, of_map,
}

pub get_field-insert_field :
    (k j : Str) (v : Value) (fs : Fields)
    → get_field j (insert_field k v fs) ≡ (if str_eq k j then some v else get_field j fs)
unfolding get_field insert_field
get_field-insert_field k j v no_fields = refl
get_field-insert_field k j v (field i w fs) =
    ground (arith, str_eq_iff k j, str_eq_iff i k, str_eq_iff i j, get_field-insert_field k j v fs)

pub get_field-remove_field :
    (k j : Str) (fs : Fields)
    → get_field j (remove_field k fs) ≡ (if str_eq k j then none else get_field j fs)
unfolding get_field remove_field
get_field-remove_field k j no_fields = ground arith
get_field-remove_field k j (field i w fs) =
    ground (arith, str_eq_iff k j, str_eq_iff i k, str_eq_iff i j, get_field-remove_field k j fs)

-- An object collected from a map has the map's entries.
pub get_field-of_map : (k : Str) (m : Map Str Value) → get_field k (of_map m) ≡ get k m
unfolding of_map get get_field
get_field-of_map k [] = refl
get_field-of_map k ((j, v) ∷ m) =
    rw (get_field-insert_field j k v (of_map m)) (ground (arith, get_field-of_map k m))
