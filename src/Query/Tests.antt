-- ===== src/Query/Tests.antt =====
-- Runs of the reference queries, and their theorems at concrete inputs.
use hakobackend.Base.{
  All, keep, ℕ, ◌≡◌, refl, false, ◌&&◌, ◌||◌, Option, none, some, List, [], ◌∷◌, ltb, if◌then◌else◌,
  nat_Eq, Str, str, str_eq, str_Eq, pair_Eq,
}
use hakobackend.Text.Order.{str_lt}
use hakobackend.Json.{Number, pos_int, Value, number, string}
use hakobackend.Policy.Rule.{Doc}
use hakobackend.Query.{
  Order, less, same, greater, asc, desc, OrderBy, QueryOptions, nested, matches_op, cursor_value,
  matches_cursor, sort_and_limit,
}
use hakobackend.Query.Filters
use hakobackend.Query.Filters.{comparable, before_bound, from_bound}
use hakobackend.Query.Paging
use hakobackend.Query.Paging.{pages}
use hakobackend.Query.Sorting
use hakobackend.Query.Sorting.{IsSorted, InOrder, IsKey, whole}
use hakobackend.Query.Keys
use hakobackend.Query.Keys.{HasText}
use mathlib.Core.List.{Perm}

program : Unit {0}
unfolding sort_and_limit matches_op matches_cursor nested str_eq str_lt
program = tt

-- whole numbers that are not negative
abbrev number_cmp : Number → Number → Option Order
number_cmp (pos_int a) (pos_int b) =
    some (if ltb a b then less else if ltb b a then greater else same)
number_cmp a b = none

abbrev person : Str → Value → Doc
person id age = record { id = id; contents = (str "age", age) ∷ [] }

abbrev age : ℕ → Value
age n = number (pos_int n)

abbrev people : List Doc
people = person (str "c") (age 30) ∷ person (str "a") (age 25) ∷ person (str "b") (age 35) ∷ []

abbrev by_id : OrderBy
by_id = record { field = str "id"; direction = asc }

abbrev query : QueryOptions
query = record {
  filters = [];
  fields = [];
  order_by = by_id ∷ [];
  limit = none;
  offset = none;
  start_at = none;
  start_after = none;
  end_at = none;
  end_before = none;
}

by_age :
    sort_and_limit number_cmp people (record query {
      order_by = record { field = str "age"; direction = desc } ∷ [];
      limit = some 2;
    })
    ≡ person (str "b") (age 35) ∷ person (str "c") (age 30) ∷ []
unfolding program
by_age = refl

matches_cursor_lem_example :
    ((matches_cursor number_cmp
          (person (str "c") (age 30))
          (before_bound number_cmp query (string (str "b")))
        || matches_cursor number_cmp
            (person (str "c") (age 30))
            (from_bound number_cmp query (string (str "b"))))
      ≡ comparable number_cmp
          (cursor_value number_cmp (person (str "c") (age 30)) query)
          (string (str "b")))
    × ((matches_cursor number_cmp
            (person (str "c") (age 30))
            (before_bound number_cmp query (string (str "b")))
          && matches_cursor number_cmp
              (person (str "c") (age 30))
              (from_bound number_cmp query (string (str "b"))))
        ≡ false)
matches_cursor_lem_example =
    Filters.matches_cursor_lem number_cmp query (string (str "b")) (person (str "c") (age 30))

-- the names of the people are texts
abbrev by_name : OrderBy
by_name = record { field = str "name"; direction = desc }

abbrev named : Str → Str → Doc
named id name = record { id = id; contents = (str "name", string name) ∷ [] }

abbrev staff : List Doc
staff = named (str "1") (str "bo") ∷ named (str "2") (str "cy") ∷ named (str "3") (str "al") ∷ []

abbrev named_query : QueryOptions
named_query = record query { order_by = by_name ∷ by_id ∷ [] }

staff-HasText : All (HasText number_cmp (str "name")) staff
unfolding program
staff-HasText = ((str "bo", refl), ((str "cy", refl), ((str "al", refl), tt)))

plain : str_eq (str "name") (str "id") ≡ false
unfolding program
plain = refl

pages-Perm_example :
    IsSorted (InOrder number_cmp by_name) (pages number_cmp staff named_query 0 (2 ∷ 0 ∷ []))
    × Perm
        (pages number_cmp staff named_query 0 (2 ∷ 0 ∷ []))
        (keep (λ d. matches_cursor number_cmp d named_query) staff)
pages-Perm_example =
    Paging.pages-Perm number_cmp staff named_query (HasText number_cmp (str "name")) by_name
      (by_id ∷ []) (2 ∷ 0 ∷ []) refl (Keys.text-IsKey number_cmp (str "name") desc plain)
      staff-HasText

sort_and_limit-IsSorted_example :
    IsSorted (InOrder number_cmp by_name) (sort_and_limit number_cmp staff named_query)
    × Perm
        (sort_and_limit number_cmp staff (whole named_query))
        (keep (λ d. matches_cursor number_cmp d named_query) staff)
sort_and_limit-IsSorted_example =
    Sorting.sort_and_limit-IsSorted number_cmp (HasText number_cmp (str "name")) staff named_query
      by_name (by_id ∷ []) refl (Keys.text-IsKey number_cmp (str "name") desc plain) staff-HasText

mixed-not-IsKey_example :
    ¬ IsKey number_cmp (λ d. Unit {0}) (record { field = str "age"; direction = asc })
unfolding program
mixed-not-IsKey_example =
    Sorting.mixed-not-IsKey number_cmp (λ d. Unit {0}) (str "age") (person (str "a") (age 2))
      (person (str "b") (string (str "old"))) (person (str "c") (age 1)) (pos_int 2) (pos_int 1)
      (str "old") tt tt tt refl refl refl refl refl
