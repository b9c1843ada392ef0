-- ===== src/Query.antt =====
-- crates/hakobackend-core/src/lib.rs, the module `conformance`: filters, cursors, order and paging
-- as every driver must give them. The comparison of numbers as floats is a parameter.
pub mod Filters
pub mod Paging
pub mod Sorting
pub mod Keys
mod Tests
use hakobackend.Base.{
  ℕ, zero, suc, ◌+◌, ◌-◌, ◌*◌, ◌/◌, ◌%◌, ◌^◌, ◌≤◌, ◌<◌, min, max, ◌≡◌, refl, sym, ap, ◌∙◌, subst,
  ◌≢◌, ◌↔◌, ◌⊎◌, inl, inr, Bool, true, false, not, ◌&&◌, ◌||◌, Option, none, some, List, [], ◌∷◌,
  ◌++◌, map, arith, ltb, leb, nat_eq, if◌then◌else◌, ltb→lt, lt→ltb, leb→le, le→leb, nat_eq_iff,
  tests, Bool-cases, Option-cases, length, any, all, keep, take, drop, length-append,
  length-keep-le, any-append, all-append, length-drop-le, All, filter_map, and_then, is_some,
  is_some_and, unwrap_or, or_else, keep_if, first, Result, ok, err, ◌>>=◌, ◌>>◌, guard, is_ok, Eq,
  ◌==◌, eq_refl, nat_Eq, Str, str, str_eq, str_eq_iff, str_Eq, pair_eq, pair_eq_iff, pair_Eq,
}
use hakobackend.Base.Map
use hakobackend.Base.Map.{
  Map, get-insert, get-remove, Unique, get-retain, insert-Unique, remove-Unique, retain-Unique,
}
use hakobackend.Text.{
  has, strip_prefix, starts_with, push_first, split, split_once, join, is_empty, byte_len,
  is_alphanumeric, is_whitespace, split_whitespace, trim, trim_matches,
}
use hakobackend.Text.Split.{
  join-split, split_of_free, split-append, split-join, split_once-append, split_once_sound,
  strip_prefix_sound, strip_prefix-append,
}
use hakobackend.Text.Order.{
  str_lt, str_lt_irrefl, str_lt_trans, str_lt_antisymm, str_lt_asymm, not_str_lt_trans,
}
use hakobackend.Json.{
  Number, pos_int, neg_int, float, Value, null, bool, number, string, array, object, Items, Fields,
  to_list, of_list, to_map, get_field, insert_field, remove_field, of_map, as_str, as_array,
  as_object, as_i64, is_array, is_object, number_eq, value_eq, items_eq, fields_eq,
}
use hakobackend.Json.Int.{ℤ, pos, negsuc, pos_part, neg_part, leb_ℤ}
use hakobackend.Json.Laws.{get_field-insert_field, get_field-remove_field, get_field-of_map}
use hakobackend.Policy.Rule.{Doc}
use hakobackend.Atomics.Update.{get_in}
use hakobackend.Paths.Wire.{
  FilterOp, eq, ne, gt, lt, gte, lte, array_contains, array_contains_any, in_list,
}

-- `Ordering`
pub data Order : Type 0 where
  less same greater : Order

-- `Ordering::reverse`
abbrev pub reversed : Order → Order
reversed less = greater
reversed same = same
reversed greater = less

abbrev pub is_same : Order → Bool
is_same same = true
is_same _ = false

abbrev pub is_less : Order → Bool
is_less less = true
is_less _ = false

abbrev pub is_greater : Order → Bool
is_greater greater = true
is_greater _ = false

-- `str::cmp`
abbrev pub cmp_str : Str → Str → Order
cmp_str a b = if str_lt a b then less else if str_lt b a then greater else same

-- `bool::cmp`
abbrev pub cmp_bool : Bool → Bool → Order
cmp_bool false true = less
cmp_bool true false = greater
cmp_bool _ _ = same

pub record Filter : Type 0 where
  pub field : Str
  pub op : FilterOp
  pub value : Value

pub data Direction : Type 0 where
  asc desc : Direction

pub record OrderBy : Type 0 where
  pub field : Str
  pub direction : Direction

pub record QueryOptions : Type 0 where
  pub filters : List Filter
  pub fields : List Str
  pub order_by : List OrderBy
  pub limit : Option ℕ
  pub offset : Option ℕ
  pub start_at : Option Value
  pub start_after : Option Value
  pub end_at : Option Value
  pub end_before : Option Value

-- `nested`
unfoldable pub nested : Map Str Value → Str → Option Value
unfolding Map.get get_in split
nested contents path = elim (split b'.' path) [
  | [] ↦ none
  | part ∷ parts ↦ and_then (Map.get part contents) (get_in parts)
]

-- `arr.contains(v)`
abbrev pub has_value : Value → List Value → Bool
has_value v vs = any (λ w. value_eq w v) vs

-- `v == Some(w)`
abbrev pub is_value : Option Value → Value → Bool
is_value v w = is_some_and v (λ u. value_eq u w)

-- `Vec::is_empty`
abbrev pub is_nil {ℓ} : {A : Type ℓ} → List A → Bool
is_nil [] = true
is_nil (_ ∷ _) = false

-- `cursor_field`
abbrev pub cursor_field : QueryOptions → Str
cursor_field q = elim q.order_by [ [] ↦ str "id" | o ∷ _ ↦ o.field ]

-- `docs.into_iter().skip(n)`
abbrev pub skip {ℓ} : {A : Type ℓ} → ℕ → List A → List A
skip n docs = drop (min n (length docs)) docs

-- `apply_offset_limit`
unfoldable pub apply_offset_limit : List Doc → QueryOptions → List Doc
apply_offset_limit docs q =
    let rest = skip (unwrap_or q.offset 0) docs in
    elim q.limit [ none ↦ rest | some n ↦ take n rest ]

-- `slice::sort_by`, a stable sort where the comparison is an order: an element goes before those that
-- are not below it. Where the comparison is no order, the library leaves the order of the result open
-- (and may panic), and this is one of the results it may give.
unfoldable pub insert_by : (Doc → Doc → Order) → Doc → List Doc → List Doc
insert_by cmp x [] = x ∷ []
insert_by cmp x (y ∷ ys) =
    let rest = insert_by cmp x ys in if is_greater (cmp x y) then y ∷ rest else x ∷ y ∷ ys

unfoldable pub sort_by : (Doc → Doc → Order) → List Doc → List Doc
unfolding insert_by
sort_by cmp [] = []
sort_by cmp (x ∷ xs) = insert_by cmp x (sort_by cmp xs)

-- `x.as_f64()?.partial_cmp(&y.as_f64()?)`
module _ (number_cmp : Number → Number → Option Order) where
  -- `cmp_json`
  unfoldable pub cmp_json : Value → Value → Option Order
  unfolding str_lt value_eq
  cmp_json (number x) (number y) = number_cmp x y
  cmp_json (string x) (string y) = some (cmp_str x y)
  cmp_json (bool x) (bool y) = some (cmp_bool x y)
  cmp_json a b = if value_eq a b then some same else none

  -- `v.and_then(|x| cmp_json(x, &w)).is_some_and(p)`
  abbrev pub compares : Option Value → Value → (Order → Bool) → Bool
  compares v w p = is_some_and (and_then v (λ x. cmp_json x w)) p

  -- `filter_matches`
  unfoldable pub matches_op : FilterOp → Option Value → Value → Bool
  unfolding cmp_json value_eq any to_list
  matches_op eq v w = is_value v w
  matches_op ne v w = not (is_value v w)
  matches_op gt v w = compares v w is_greater
  matches_op lt v w = compares v w is_less
  matches_op gte v w = compares v w (λ o. not (is_less o))
  matches_op lte v w = compares v w (λ o. not (is_greater o))
  matches_op in_list v w = is_some_and (as_array w) (λ arr. any (is_value v) (to_list arr))
  matches_op array_contains v w =
      is_some_and (and_then v as_array) (λ arr. has_value w (to_list arr))
  matches_op array_contains_any v w = is_some_and (and_then v as_array) (λ hay.
      is_some_and (as_array w) (λ needles. any (λ n. has_value n (to_list hay)) (to_list needles)))

  unfoldable pub filter_matches : Doc → Filter → Bool
  unfolding matches_op nested
  filter_matches doc f = matches_op f.op (nested doc.contents f.field) f.value

  -- `doc_matches`
  unfoldable pub doc_matches : Doc → List Filter → Bool
  unfolding filter_matches all
  doc_matches doc filters = all (filter_matches doc) filters

  -- the reference value of a cursor: `id` is not part of the data
  unfoldable pub cursor_value : Doc → QueryOptions → Option Value
  unfolding nested
  cursor_value doc q =
      or_else (nested doc.contents (cursor_field q))
        (if str_eq (cursor_field q) (str "id") then some (string doc.id) else none)

  -- one round of the loop over the bounds
  abbrev pub in_bound : Option Value → Option Value → (Order → Bool) → Bool
  in_bound v none p = true
  in_bound v (some b) p = compares v b p

  -- `matches_cursor`
  unfoldable pub matches_cursor : Doc → QueryOptions → Bool
  unfolding cursor_value cmp_json
  matches_cursor doc q =
      let v = cursor_value doc q in
      in_bound v q.start_at (λ o. not (is_less o))
      && in_bound v q.start_after is_greater
      && in_bound v q.end_at (λ o. not (is_greater o))
      && in_bound v q.end_before is_less

  -- `apply_cursor`
  unfoldable pub apply_cursor : List Doc → QueryOptions → List Doc
  unfolding keep matches_cursor
  apply_cursor docs q = keep (λ d. matches_cursor d q) docs

  -- two documents by one field
  unfoldable pub cmp_field : Str → Doc → Doc → Order
  unfolding nested cmp_json str_lt str_eq
  cmp_field path a b =
      if str_eq path (str "id") then cmp_str a.id b.id else elim (nested a.contents path) [
        | some x ↦ elim (nested b.contents path) [
          | some y ↦ unwrap_or (cmp_json x y) same
          | none ↦ greater
        ]
        | none ↦ elim (nested b.contents path) [ some y ↦ less | none ↦ same ]
      ]

  abbrev pub cmp_key : OrderBy → Doc → Doc → Order
  cmp_key o a b = elim o.direction [
    | asc ↦ cmp_field o.field a b
    | desc ↦ reversed (cmp_field o.field a b)
  ]

  -- the closure of `sort_by`: the first field that tells the documents apart
  unfoldable pub cmp_docs : List OrderBy → Doc → Doc → Order
  unfolding cmp_field
  cmp_docs [] a b = same
  cmp_docs (o ∷ order) a b =
      let rest = cmp_docs order a b in if is_same (cmp_key o a b) then rest else cmp_key o a b

  -- `sort_and_limit`
  unfoldable pub sort_and_limit : List Doc → QueryOptions → List Doc
  unfolding sort_by cmp_docs apply_cursor apply_offset_limit
  sort_and_limit docs q =
      let sorted = if is_nil q.order_by then docs else sort_by (cmp_docs q.order_by) docs in
      apply_offset_limit (apply_cursor sorted q) q
