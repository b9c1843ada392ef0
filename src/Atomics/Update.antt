-- ===== src/Atomics/Update.antt =====
-- The merge path: `get_path`, `set_path`, `delete_path` and `apply_update`.
use hakobackend.Base.{
  ℕ, ◌/◌, ◌%◌, ◌^◌, Bool, not, ◌&&◌, Option, none, some, List, [], ◌∷◌, ◌++◌, nat_eq, if◌then◌else◌,
  any, keep, and_then, unwrap_or, keep_if, nat_Eq, Str, str, str_eq, str_Eq, pair_Eq,
}
use hakobackend.Base.Map.{Map}
use hakobackend.Text.{split}
use hakobackend.Json.{
  Number, pos_int, neg_int, float, Value, null, number, string, array, object, Fields, no_fields,
  to_list, of_list, to_map, get_field, insert_field, remove_field, of_map, as_array, as_object,
  is_object,
}
use hakobackend.Json.Int.{ℤ, pos, negsuc}
use hakobackend.Atomics.Resolve.{op_in, has_sentinel, resolve_deep}

-- the walk of `get_path`
unfoldable pub get_in : List Str → Value → Option Value
unfolding get_field
get_in [] v = some v
get_in (part ∷ parts) v = and_then (as_object v) (λ fs. and_then (get_field part fs) (get_in parts))

unfoldable pub get_path : Value → Str → Option Value
unfolding get_in split
get_path root path = get_in (split b'.' path) root

-- the fields of an object; `{}` for what is none
unfoldable pub fields_of : Value → Fields
fields_of (object fs) = fs
fields_of _ = no_fields

-- the object to descend into: `{}` where there is none
unfoldable pub child_of : Str → Fields → Value
unfolding get_field
child_of part fs = unwrap_or (keep_if is_object (get_field part fs)) (object no_fields)

-- `set_path`: objects are made on the way; the last part is set in an object only
unfoldable pub set_in : List Str → Value → Value → Value
unfolding fields_of child_of insert_field
set_in [] v cur = cur
set_in (part ∷ []) v cur = elim (as_object cur) [
  | some fs ↦ object (insert_field part v fs)
  | none ↦ cur
]
set_in (part ∷ next ∷ parts) v cur =
    let fs = fields_of cur in
    let inner = set_in (next ∷ parts) v (child_of part fs) in object (insert_field part inner fs)

unfoldable pub set_path : Value → Str → Value → Value
unfolding set_in split
set_path root path v = set_in (split b'.' path) v root

-- `delete_path`: a way that does not exist changes nothing
unfoldable pub delete_in : List Str → Value → Value
unfolding get_field remove_field insert_field
delete_in [] cur = cur
delete_in (part ∷ []) cur = elim (as_object cur) [
  | some fs ↦ object (remove_field part fs)
  | none ↦ cur
]
delete_in (part ∷ next ∷ parts) cur = elim (as_object cur) [
  | none ↦ cur
  | some fs ↦ elim (get_field part fs) [
    | none ↦ cur
    | some inner ↦ object (insert_field part (delete_in (next ∷ parts) inner) fs)
  ]
]

unfoldable pub delete_path : Value → Str → Value
unfolding delete_in split
delete_path root path = delete_in (split b'.' path) root

-- the operation of a sentinel, and its fields
unfoldable pub sentinel_of : Value → Option (Str × Fields)
sentinel_of v = and_then (as_object v) (λ fs. and_then (op_in fs) (λ op. some (op, fs)))

-- What the code takes from `serde_json` and from `f64`: the compact text of a value, and the
-- operations on floats that `increment` uses (a float is its bit pattern).
pub record Externals : Type 0 where
  pub to_text : Value → Str
  pub as_f64 : Number → ℕ
  pub add : ℕ → ℕ → ℕ
  pub is_whole : ℕ → Bool
  pub to_i64 : ℕ → ℤ

module _ (x : Externals) where
  -- `v.as_f64()`
  unfoldable pub float_of : Value → Option ℕ
  float_of (number n) = some (x.as_f64 n)
  float_of _ = none

  -- `json!(i64)`
  unfoldable pub from_i64 : ℤ → Value
  from_i64 (pos n) = number (pos_int n)
  from_i64 (negsuc n) = number (neg_int n)

  -- `json!(f64)`: what is not finite becomes null
  unfoldable pub from_f64 : ℕ → Value
  from_f64 bits = if not (nat_eq (bits / 2 ^ 52 % 2048) 2047) then number (float bits) else null

  -- the new value of `increment`; 0.0 is the pattern 0
  unfoldable pub increment : Fields → Option Value → Value
  unfolding float_of from_i64 from_f64 get_field
  increment fs current =
      let n = unwrap_or (and_then (get_field (str "n") fs) float_of) 0 in
      let cur = unwrap_or (and_then current float_of) 0 in
      let sum = x.add cur n in
      if x.is_whole n && x.is_whole cur then from_i64 (x.to_i64 sum) else from_f64 sum

  -- `have.contains(&el.to_string())`
  unfoldable pub has_text : Value → List Value → Bool
  unfolding any
  has_text v vs = any (λ w. str_eq (x.to_text w) (x.to_text v)) vs

  -- the value at the path, if it is an array
  unfoldable pub current_array : Option Value → List Value
  unfolding to_list
  current_array current = elim (and_then current as_array) [ none ↦ [] | some vs ↦ to_list vs ]

  -- the `elements` of the sentinel, if they are an array
  unfoldable pub elements : Fields → List Value
  unfolding to_list get_field
  elements fs = elim (and_then (get_field (str "elements") fs) as_array) [
    | none ↦ []
    | some vs ↦ to_list vs
  ]

  -- `arrayUnion`: `have` is taken before the loop
  unfoldable pub array_union : List Value → List Value → List Value
  unfolding keep has_text
  array_union arr els = arr ++ keep (λ el. not (has_text el arr)) els

  -- `arrayRemove`
  unfoldable pub array_remove : List Value → List Value → List Value
  unfolding keep has_text
  array_remove arr gone = keep (λ v. not (has_text v gone)) arr

  -- the sentinels of one update, executed against the value at the path
  unfoldable pub execute : Str → Str → Fields → Value → Str → Value
  execute ts op fs root path =
      if str_eq op (str "serverTimestamp")
      then set_path root path (string ts)
      else if str_eq op (str "increment")
      then set_path root path (increment fs (get_path root path))
      else if str_eq op (str "arrayUnion")
      then set_path root path
          (array (of_list (array_union (current_array (get_path root path)) (elements fs))))
      else if str_eq op (str "arrayRemove")
      then set_path root path
          (array (of_list (array_remove (current_array (get_path root path)) (elements fs))))
      else if str_eq op (str "deleteField")
      then delete_path root path
      else elim (resolve_deep ts (object fs)) [ none ↦ root | some r ↦ set_path root path r ]

  -- one round of the loop of `apply_update`
  unfoldable pub apply_one : Str → Value → Str × Value → Value
  unfolding execute sentinel_of
  apply_one ts root (path, v) = elim (sentinel_of v) [
    | some (op, fs) ↦ execute ts op fs root path
    | none ↦
        if not (has_sentinel v)
        then set_path root path v
        else elim (resolve_deep ts v) [ none ↦ root | some r ↦ set_path root path r ]
  ]

  unfoldable pub apply_all : Str → Value → Map Str Value → Value
  unfolding apply_one
  apply_all ts root [] = root
  apply_all ts root (update ∷ updates) = apply_all ts (apply_one ts root update) updates

  -- `apply_update`, on the object of the stored body
  unfoldable pub apply_update : Str → Map Str Value → Map Str Value → Map Str Value
  unfolding apply_all of_map to_map fields_of
  apply_update ts base updates = to_map (fields_of (apply_all ts (object (of_map base)) updates))
