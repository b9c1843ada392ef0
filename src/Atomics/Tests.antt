-- ===== src/Atomics/Tests.antt =====
-- Runs of the merge path, and its theorems at concrete inputs.
use hakobackend.Base.{
  ℕ, ◌+◌, ◌≡◌, refl, true, some, [], ◌∷◌, nat_Eq, Str, str, str_eq, str_Eq, pair_Eq,
}
use hakobackend.Base.Map.{Map}
use hakobackend.Text.Order.{str_lt}
use hakobackend.Json.{
  Number, pos_int, Value, number, string, array, object, no_items, item, no_fields, field, of_map,
}
use hakobackend.Json.Int.{pos}
use hakobackend.Atomics.Resolve.{type_key, op_in, resolve_all, resolve_for_create}
use hakobackend.Atomics.Update.{get_path, set_path, Externals, increment, apply_update}
use hakobackend.Atomics.Paths.{diverge}
use hakobackend.Atomics.Outcome.{outcome}
use hakobackend.Atomics.Batch
use hakobackend.Atomics.Batch.{Independent, Applied}
use hakobackend.Atomics.Fast
use hakobackend.Atomics.Paths.{diverge}

program : Unit {0}
unfolding apply_update outcome resolve_for_create str_eq diverge get_path
program = tt

-- floats as whole numbers
abbrev to_text : Value → Str
to_text (string s) = s
to_text _ = []

abbrev as_f64 : Number → ℕ
as_f64 (pos_int n) = n
as_f64 _ = 0

abbrev whole : Externals
whole = record {
  to_text = to_text;
  as_f64 = as_f64;
  add = λ a b. a + b;
  is_whole = λ bits. true;
  to_i64 = λ bits. pos bits;
}

abbrev ts : Str
ts = str "2024-01-01T00:00:00Z"

-- { stats: { views: 5 }, tags: ["a"] }
abbrev stored : Map Str Value
stored =
    (str "stats", object (field (str "views") (number (pos_int 5)) no_fields))
    ∷ (str "tags", array (item (string (str "a")) no_items))
    ∷ []

abbrev increment_3 : Value
increment_3 =
    object
      (field type_key (string (str "increment")) (field (str "n") (number (pos_int 3)) no_fields))

abbrev union_b : Value
union_b = object (
    field type_key (string (str "arrayUnion")) (
      field (str "elements") (array (item (string (str "a")) (item (string (str "b")) no_items)))
        no_fields))

abbrev updates : Map Str Value
updates = (str "stats.views", increment_3) ∷ (str "tags", union_b) ∷ []

views_8 :
    get_path (object (of_map (apply_update whole ts stored updates))) (str "stats.views")
    ≡ some (number (pos_int 8))
unfolding program op_in set_path str_lt increment
views_8 = refl

updates-Independent : Independent updates
unfolding program
updates-Independent = ((refl, tt), (tt, tt))

apply_update-Applied_example :
    Applied whole ts
      (object (of_map stored))
      (object (of_map (apply_update whole ts stored updates)))
      updates
apply_update-Applied_example =
    Batch.apply_update-Applied whole ts stored updates updates-Independent

apply_update_ne_example :
    get_path (object (of_map (apply_update whole ts stored updates))) (str "stats.likes")
    ≡ get_path (object (of_map stored)) (str "stats.likes")
unfolding program
apply_update_ne_example =
    Batch.apply_update_ne whole ts stored updates (str "stats.likes") (refl, (refl, tt))

resolve_for_create-fast_example : resolve_for_create ts updates ≡ resolve_all ts updates
resolve_for_create-fast_example = Fast.resolve_for_create-fast ts updates
