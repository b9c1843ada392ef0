-- ===== src/Paths/Wire.antt =====
-- The wire names of the filter operators.
use hakobackend.Base.{
  ◌≡◌, refl, ◌||◌, Option, none, some, if◌then◌else◌, nat_Eq, Str, str, str_eq, str_Eq, pair_Eq,
}

-- `FilterOp`
pub data FilterOp : Type 0 where
  eq ne gt lt gte lte array_contains array_contains_any in_list : FilterOp

-- `FilterOp::as_wire`
abbrev pub as_wire : FilterOp → Str
as_wire eq = str "=="
as_wire ne = str "!="
as_wire gt = str ">"
as_wire lt = str "<"
as_wire gte = str ">="
as_wire lte = str "<="
as_wire array_contains = str "array-contains"
as_wire array_contains_any = str "array-contains-any"
as_wire in_list = str "in"

-- `FilterOp::parse`
unfoldable pub parse : Str → Option FilterOp
unfolding str_eq
parse s =
    if str_eq s (str "==") || str_eq s (str "eq")
    then some eq
    else if str_eq s (str "!=") || str_eq s (str "ne")
    then some ne
    else if str_eq s (str ">") || str_eq s (str "gt")
    then some gt
    else if str_eq s (str "<") || str_eq s (str "lt")
    then some lt
    else if str_eq s (str ">=") || str_eq s (str "gte")
    then some gte
    else if str_eq s (str "<=") || str_eq s (str "lte")
    then some lte
    else if str_eq s (str "array-contains")
    then some array_contains
    else if str_eq s (str "array-contains-any")
    then some array_contains_any
    else if str_eq s (str "in")
    then some in_list
    else none

-- Every operator is read back from its wire name.
pub parse-as_wire : (op : FilterOp) → parse (as_wire op) ≡ some op
unfolding parse
parse-as_wire eq = refl
parse-as_wire ne = refl
parse-as_wire gt = refl
parse-as_wire lt = refl
parse-as_wire gte = refl
parse-as_wire lte = refl
parse-as_wire array_contains = refl
parse-as_wire array_contains_any = refl
parse-as_wire in_list = refl
