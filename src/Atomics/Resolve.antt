-- ===== src/Atomics/Resolve.antt =====
-- Sentinels on the create path: `has_sentinel`, `resolve_deep`, `resolve_sentinel`,
-- `resolve_for_create`, and the stamps. `ts` is the text of the current time.
use hakobackend.Base.{
  Bool, false, not, ◌||◌, Option, none, some, [], ◌∷◌, if◌then◌else◌, any, and_then, is_some,
  unwrap_or, nat_Eq, Str, str, str_eq, str_Eq, pair_Eq,
}
use hakobackend.Base.Map
use hakobackend.Base.Map.{
  Map, get-insert, get-remove, Unique, get-retain, insert-Unique, remove-Unique, retain-Unique,
}
use hakobackend.Json.{
  pos_int, Value, number, string, array, object, Items, no_items, item, Fields, no_fields, field,
  get_field, as_str, as_object,
}

abbrev pub type_key : Str
type_key = str "__type__"

unfoldable pub op_in : Fields → Option Str
unfolding get_field
op_in fs = and_then (get_field type_key fs) as_str

-- `op_of`
unfoldable pub op_of : Value → Option Str
op_of v = and_then (as_object v) op_in

-- `is_sentinel`
unfoldable pub is_sentinel : Value → Bool
unfolding op_of
is_sentinel v = is_some (op_of v)

-- `has_sentinel`
unfoldable mutual
  pub has_sentinel : Value → Bool
  has_sentinel (array vs) = any_item vs
  has_sentinel (object fs) = is_some (op_in fs) || any_field fs
  has_sentinel _ = false

  pub any_item : Items → Bool
  any_item no_items = false
  any_item (item v vs) = has_sentinel v || any_item vs

  pub any_field : Fields → Bool
  any_field no_fields = false
  any_field (field k v fs) = has_sentinel v || any_field fs

-- `resolve_sentinel`, with the fields of the object resolved for an unknown operation
unfoldable pub collapse : Str → Str → Fields → Fields → Option Value
unfolding get_field
collapse ts op fs resolved =
    if str_eq op (str "serverTimestamp")
    then some (string ts)
    else if str_eq op (str "increment")
    then some (unwrap_or (get_field (str "n") fs) (number (pos_int 0)))
    else if str_eq op (str "arrayUnion")
    then some (unwrap_or (get_field (str "elements") fs) (array no_items))
    else if str_eq op (str "arrayRemove")
    then some (array no_items)
    else if str_eq op (str "deleteField")
    then none
    else some (object resolved)

-- what an object becomes: a sentinel collapses, any other keeps its resolved fields
unfoldable pub resolve_object : Str → Fields → Fields → Option Value
resolve_object ts fs resolved = elim (op_in fs) [
  | none ↦ some (object resolved)
  | some op ↦ collapse ts op fs resolved
]

unfoldable pub push_item : Option Value → Items → Items
push_item none vs = vs
push_item (some v) vs = item v vs

unfoldable pub push_field : Str → Option Value → Fields → Fields
push_field k none fs = fs
push_field k (some v) fs = field k v fs

-- `resolve_deep`: `None` drops the value
unfoldable mutual
  unfolding push_item push_field

  pub resolve_deep : Str → Value → Option Value
  resolve_deep ts (array vs) = some (array (resolve_items ts vs))
  resolve_deep ts (object fs) = resolve_object ts fs (resolve_fields ts fs)
  resolve_deep ts v = some v

  pub resolve_items : Str → Items → Items
  resolve_items ts no_items = no_items
  resolve_items ts (item v vs) = push_item (resolve_deep ts v) (resolve_items ts vs)

  pub resolve_fields : Str → Fields → Fields
  resolve_fields ts no_fields = no_fields
  resolve_fields ts (field k v fs) = push_field k (resolve_deep ts v) (resolve_fields ts fs)

-- one entry of `resolve_for_create`: `resolve_sentinel` or `resolve_deep`
unfoldable pub resolve_entry : Str → Value → Option Value
unfolding is_sentinel
resolve_entry ts v =
    if is_sentinel v
    then and_then (as_object v)
        (λ fs. and_then (op_in fs) (λ op. collapse ts op fs (resolve_fields ts fs)))
    else resolve_deep ts v

-- the slow path: every entry resolved, dropped where the value is
unfoldable pub resolve_all : Str → Map Str Value → Map Str Value
resolve_all ts [] = []
resolve_all ts ((k, v) ∷ contents) =
    let rest = resolve_all ts contents in
    elim (resolve_entry ts v) [ none ↦ rest | some r ↦ (k, r) ∷ rest ]

-- `data.values().any(has_sentinel)`
unfoldable pub any_sentinel : Map Str Value → Bool
unfolding has_sentinel any
any_sentinel contents = any (λ x. has_sentinel x.1) contents

-- `resolve_for_create`
unfoldable pub resolve_for_create : Str → Map Str Value → Map Str Value
resolve_for_create ts contents =
    if not (any_sentinel contents) then contents else resolve_all ts contents

abbrev pub created_at : Str
created_at = str "createdAt"

abbrev pub updated_at : Str
updated_at = str "updatedAt"

-- `entry(k).or_insert(v)`
unfoldable pub or_insert : Str → Value → Map Str Value → Map Str Value
unfolding Map.get Map.insert
or_insert k v contents = if Map.contains k contents then contents else Map.insert k v contents

-- `stamp_new`
unfoldable pub stamp_new : Str → Map Str Value → Map Str Value
unfolding or_insert
stamp_new ts contents = or_insert updated_at (string ts) (or_insert created_at (string ts) contents)

-- `stamp_update`
unfoldable pub stamp_update : Str → Map Str Value → Option Value → Map Str Value
unfolding or_insert Map.insert
stamp_update ts contents created =
    Map.insert updated_at (string ts)
      (elim created [ none ↦ contents | some c ↦ or_insert created_at c contents ])
