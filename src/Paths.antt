-- ===== src/Paths.antt =====
-- crates/hakobackend-core/src/lib.rs: the paths of collections and documents, the rules for names,
-- and the wire names of the filter operators.
pub mod Charset
pub mod Documents
pub mod Wire
mod Tests
use hakobackend.Base.{
  ℕ, zero, suc, ◌+◌, ◌-◌, ◌*◌, ◌/◌, ◌%◌, ◌^◌, ◌≤◌, ◌<◌, min, max, ◌≡◌, refl, sym, ap, ◌∙◌, subst,
  ◌≢◌, ◌↔◌, ◌⊎◌, inl, inr, Bool, true, false, not, ◌&&◌, ◌||◌, Option, none, some, List, [], ◌∷◌,
  ◌++◌, map, arith, ltb, leb, nat_eq, if◌then◌else◌, ltb→lt, lt→ltb, leb→le, le→leb, nat_eq_iff,
  tests, Bool-cases, Option-cases, length, any, all, keep, take, drop, length-append,
  length-keep-le, any-append, all-append, length-drop-le, All, filter_map, and_then, is_some,
  is_some_and, unwrap_or, or_else, keep_if, first, Result, ok, err, ◌>>=◌, ◌>>◌, guard, is_ok, Eq,
  ◌==◌, eq_refl, nat_Eq, Str, str, str_eq, str_eq_iff, str_Eq, pair_eq, pair_eq_iff, pair_Eq,
}
use hakobackend.Base.Map
use hakobackend.Base.Map.{
  Map, get-insert, get-remove, Unique, get-retain, insert-Unique, remove-Unique, retain-Unique,
}
use hakobackend.Text.{
  has, strip_prefix, starts_with, push_first, split, split_once, join, is_empty, byte_len,
  is_alphanumeric, is_whitespace, split_whitespace, trim, trim_matches,
}
use hakobackend.Text.Split.{
  join-split, split_of_free, split-append, split-join, split_once-append, split_once_sound,
  strip_prefix_sound, strip_prefix-append,
}
use hakobackend.Text.Order.{
  str_lt, str_lt_irrefl, str_lt_trans, str_lt_antisymm, str_lt_asymm, not_str_lt_trans,
}
use hakobackend.Json.{
  Number, pos_int, neg_int, float, Value, null, bool, number, string, array, object, Items, Fields,
  to_list, of_list, to_map, get_field, insert_field, remove_field, of_map, as_str, as_array,
  as_object, as_i64, is_array, is_object, number_eq, value_eq, items_eq, fields_eq,
}
use hakobackend.Json.Int.{ℤ, pos, negsuc, pos_part, neg_part, leb_ℤ}
use hakobackend.Json.Laws.{get_field-insert_field, get_field-remove_field, get_field-of_map}

-- `PathKind`
pub data PathKind : Type 0 where
  document : Str → Str → PathKind
  collection : Str → PathKind

-- `s.split('/').filter(|s| !s.is_empty())`
unfoldable pub segments : Str → List Str
unfolding split keep
segments s = keep (λ seg. not (is_empty seg)) (split b'/' s)

-- `parse_collection_path`
unfoldable pub parse_collection_path : Str → PathKind
unfolding segments trim_matches join
parse_collection_path raw =
    let clean = trim_matches b'/' raw in
    let segs = segments clean in
    let n = length segs in
    if nat_eq (n % 2) 0 && not (nat_eq n 0)
    then document (join b'/' (take (n - 1) segs)) (unwrap_or (first (drop (n - 1) segs)) [])
    else collection clean

-- `c.is_ascii_alphanumeric() || c == b'_' || c == b'-'`
abbrev pub is_name_char : ℕ → Bool
is_name_char c = is_alphanumeric c || nat_eq c b'_' || nat_eq c b'-'

-- a segment that `valid_collection_path` lets pass
unfoldable pub valid_segment : Str → Bool
unfolding all byte_len
valid_segment seg = not (
    ltb 128 (byte_len seg)
    || str_eq seg (str ".")
    || str_eq seg (str "..")
    || not (all is_name_char seg))

-- `valid_collection_path`
unfoldable pub valid_collection_path : Str → Bool
unfolding segments valid_segment all byte_len
valid_collection_path s =
    if is_empty s || ltb 1024 (byte_len s)
    then false
    else all valid_segment (segments s) && ltb 0 (length (segments s))

-- `valid_db_name`
unfoldable pub valid_db_name : Str → Bool
unfolding all byte_len starts_with
valid_db_name s =
    not (is_empty s) && leb (byte_len s) 128 && all is_name_char s && not (starts_with (str "__") s)

-- `valid_doc_id`
unfoldable pub valid_doc_id : Str → Bool
unfolding any byte_len
valid_doc_id s =
    not (is_empty s)
    && leb (byte_len s) 512
    && not (any (λ c. nat_eq c b'/' || ltb c 0x20 || nat_eq c 0x7f) s)

-- `enumerate().filter(|(i, _)| i % 2 == 0)`
abbrev pub evens : List Str → List Str
evens [] = []
evens (x ∷ []) = x ∷ []
evens (x ∷ y ∷ xs) = x ∷ evens xs

-- `flat_table_name`
unfoldable pub flat_table_name : Str → Str
unfolding has join split
flat_table_name path = if not (has b'/' path) then path else join b'_' (evens (split b'/' path))
