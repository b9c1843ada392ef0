-- ===== src/Json.antt =====
-- `serde_json::Value` as the program reads it. An object is a `BTreeMap`, so its fields stand in
-- the order of their keys and equal objects are equal lists. A float is its 64-bit pattern.
pub mod Int
pub mod Laws
use hakobackend.Base.{
  ℕ, ◌+◌, ◌*◌, ◌-◌, ◌/◌, ◌%◌, ◌^◌, Bool, true, false, ◌&&◌, ◌||◌, Option, none, some, List, [], ◌∷◌,
  Str, leb, nat_eq, str_eq, if◌then◌else◌,
}
use hakobackend.Base.Map.{Map}
use hakobackend.Text.Order.{str_lt}
use Int.{ℤ, pos, negsuc}

-- `Number`'s `N`: `PosInt(u64)`, `NegInt(i64)` (`neg n` is -(n + 1)), `Float(f64)`
pub data Number : Type 0 where
  pos_int : ℕ → Number
  neg_int : ℕ → Number
  float : ℕ → Number

mutual
  pub data Value : Type 0 where
    null : Value
    bool : Bool → Value
    number : Number → Value
    string : Str → Value
    array : Items → Value
    object : Fields → Value

  pub data Fields : Type 0 where
    no_fields : Fields
    field : (key : Str) (value : Value) → Fields → Fields

  pub data Items : Type 0 where
    no_items : Items
    item : (value : Value) → Items → Items

-- The items of an array and the fields of an object as lists.
unfoldable pub to_list : Items → List Value
to_list no_items = []
to_list (item v vs) = v ∷ to_list vs

unfoldable pub of_list : List Value → Items
of_list [] = no_items
of_list (v ∷ vs) = item v (of_list vs)

unfoldable pub to_map : Fields → Map Str Value
to_map no_fields = []
to_map (field k v fs) = (k, v) ∷ to_map fs

-- `map.get(k)`
unfoldable pub get_field : Str → Fields → Option Value
get_field k no_fields = none
get_field k (field j v fs) = if str_eq j k then some v else get_field k fs

-- `map.insert(k, v)` keeps the fields in the order of their keys
unfoldable pub insert_field : Str → Value → Fields → Fields
insert_field k v no_fields = field k v no_fields
insert_field k v (field j w fs) =
    let rest = insert_field k v fs in
    if str_eq j k
    then field k v fs
    else if str_lt k j
    then field k v (field j w fs)
    else field j w rest

-- `map.remove(k)`
unfoldable pub remove_field : Str → Fields → Fields
remove_field k no_fields = no_fields
remove_field k (field j w fs) =
    let rest = remove_field k fs in if str_eq j k then rest else field j w rest

-- `into_iter().collect()` into an object
unfoldable pub of_map : Map Str Value → Fields
of_map [] = no_fields
of_map ((k, v) ∷ m) = insert_field k v (of_map m)

abbrev pub as_str : Value → Option Str
as_str (string s) = some s
as_str _ = none

abbrev pub as_array : Value → Option Items
as_array (array vs) = some vs
as_array _ = none

abbrev pub as_object : Value → Option Fields
as_object (object fs) = some fs
as_object _ = none

-- `as_i64`: a float is none, whatever its value
abbrev pub as_i64 : Value → Option ℤ
as_i64 (number (pos_int n)) = if leb n (2 ^ 63 - 1) then some (pos n) else none
as_i64 (number (neg_int n)) = some (negsuc n)
as_i64 _ = none

abbrev pub is_array : Value → Bool
is_array (array vs) = true
is_array _ = false

abbrev pub is_object : Value → Bool
is_object (object fs) = true
is_object _ = false

-- `==` of two finite `f64`: one pattern, or both a zero
unfoldable pub float_eq : ℕ → ℕ → Bool
float_eq a b = nat_eq a b || (nat_eq (a % 2 ^ 63) 0 && nat_eq (b % 2 ^ 63) 0)

unfoldable pub number_eq : Number → Number → Bool
unfolding float_eq
number_eq (pos_int a) (pos_int b) = nat_eq a b
number_eq (neg_int a) (neg_int b) = nat_eq a b
number_eq (float a) (float b) = float_eq a b
number_eq _ _ = false

-- `Value`'s `==`
unfoldable mutual
  unfolding number_eq

  pub value_eq : Value → Value → Bool
  value_eq null null = true
  value_eq (bool true) (bool true) = true
  value_eq (bool false) (bool false) = true
  value_eq (number a) (number b) = number_eq a b
  value_eq (string a) (string b) = str_eq a b
  value_eq (array a) (array b) = items_eq a b
  value_eq (object a) (object b) = fields_eq a b
  value_eq _ _ = false

  pub items_eq : Items → Items → Bool
  items_eq no_items no_items = true
  items_eq (item v vs) (item w ws) = value_eq v w && items_eq vs ws
  items_eq _ _ = false

  pub fields_eq : Fields → Fields → Bool
  fields_eq no_fields no_fields = true
  fields_eq (field k v fs) (field j w gs) = str_eq k j && value_eq v w && fields_eq fs gs
  fields_eq _ _ = false
