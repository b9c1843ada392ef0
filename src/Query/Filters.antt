-- ===== src/Query/Filters.antt =====
-- Filter operators and cursors that are each other's complements.
use hakobackend.Base.{
  ◌≡◌, refl, Bool, true, false, not, ◌&&◌, ◌||◌, Option, none, some, [], ◌∷◌, any, and_then,
  is_some, is_some_and, nat_Eq, str_Eq, pair_Eq,
}
use hakobackend.Json.{Number, Value, array, Items, to_list, of_list, as_array}
use hakobackend.Policy.Rule.{Doc}
use hakobackend.Paths.Wire.{eq, ne, gt, lt, gte, lte, array_contains, array_contains_any, in_list}
use hakobackend.Query.{
  Order, less, same, greater, is_less, is_greater, QueryOptions, has_value, is_value, cmp_json,
  matches_op, cursor_value, matches_cursor,
}

module _ (number_cmp : Number → Number → Option Order) where
  -- a field that can be compared with a value
  abbrev pub comparable : Option Value → Value → Bool
  comparable v w = is_some (and_then v (λ x. cmp_json number_cmp x w))

  greater_lte :
      (o : Option Order)
      → is_some_and o is_greater ≡ (is_some o && not (is_some_and o (λ o. not (is_greater o))))
  greater_lte none = refl
  greater_lte (some less) = refl
  greater_lte (some same) = refl
  greater_lte (some greater) = refl

  less_gte :
      (o : Option Order)
      → is_some_and o is_less ≡ (is_some o && not (is_some_and o (λ o. not (is_less o))))
  less_gte none = refl
  less_gte (some less) = refl
  less_gte (some same) = refl
  less_gte (some greater) = refl

  or_false : (b : Bool) → (b || false) ≡ b
  or_false true = refl
  or_false false = refl

  -- `!=` is the negation of `==`, also where the field is missing. `>` is `<=` refused and `<` is `>=`
  -- refused, where the field can be compared at all: what cannot be compared passes none of the four.
  -- `in` a list of one value is `==`, and `array-contains-any` of one value is `array-contains`.
  pub matches_op_lem :
      (v : Option Value) (w : Value)
      → (matches_op number_cmp ne v w ≡ not (matches_op number_cmp eq v w))
        × (matches_op number_cmp gt v w ≡ (comparable v w && not (matches_op number_cmp lte v w)))
        × (matches_op number_cmp lt v w ≡ (comparable v w && not (matches_op number_cmp gte v w)))
        × (matches_op number_cmp in_list v (array (of_list (w ∷ [])))
            ≡ matches_op number_cmp eq v w)
        × (matches_op number_cmp array_contains_any v (array (of_list (w ∷ [])))
            ≡ matches_op number_cmp array_contains v w)
  unfolding matches_op of_list to_list any
  matches_op_lem v w = (
    refl,
    greater_lte (and_then v (λ x. cmp_json number_cmp x w)),
    less_gte (and_then v (λ x. cmp_json number_cmp x w)),
    or_false (is_value v w),
    go (and_then v as_array),
  )
    where
      go :
          (hay : Option Items)
          → is_some_and hay (λ hay. has_value w (to_list hay) || false)
            ≡ is_some_and hay (λ arr. has_value w (to_list arr))
      go none = refl
      go (some hay) = or_false (has_value w (to_list hay))

  -- options with no bound
  abbrev pub unbounded : QueryOptions → QueryOptions
  unbounded q = record q { start_at = none; start_after = none; end_at = none; end_before = none }

  abbrev pub from_bound : QueryOptions → Value → QueryOptions
  from_bound q b = record (unbounded q) { start_at = some b }

  abbrev pub before_bound : QueryOptions → Value → QueryOptions
  before_bound q b = record (unbounded q) { end_before = some b }

  -- A cursor cuts the documents in two: whose reference value can be compared with the bound is either
  -- before it or not, and in exactly one of the two pages; the others are in neither.
  pub matches_cursor_lem :
      (q : QueryOptions) (b : Value) (d : Doc)
      → ((matches_cursor number_cmp d (before_bound q b)
            || matches_cursor number_cmp d (from_bound q b))
          ≡ comparable (cursor_value number_cmp d q) b)
        × ((matches_cursor number_cmp d (before_bound q b)
              && matches_cursor number_cmp d (from_bound q b))
            ≡ false)
  unfolding matches_cursor cursor_value
  matches_cursor_lem q b d =
      go (and_then (cursor_value number_cmp d q) (λ x. cmp_json number_cmp x b))
    where
      go :
          (o : Option Order)
          → ((is_some_and o is_less
                || (is_some_and o (λ o. not (is_less o)) && true && true && true))
              ≡ is_some o)
            × ((is_some_and o is_less
                  && (is_some_and o (λ o. not (is_less o)) && true && true && true))
                ≡ false)
      go none = (refl, refl)
      go (some less) = (refl, refl)
      go (some same) = (refl, refl)
      go (some greater) = (refl, refl)
