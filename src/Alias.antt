-- ===== src/Alias.antt =====
-- crates/hakobackend-server/src/alias.rs: path aliases. Their patterns, the match of a request
-- path, the encoding of what a pattern captures, and the merge of the queries.
pub mod Encoding
pub mod Authority
mod Tests
use hakobackend.Base.{
  ℕ, zero, suc, ◌+◌, ◌-◌, ◌*◌, ◌/◌, ◌%◌, ◌^◌, ◌≤◌, ◌<◌, min, max, ◌≡◌, refl, sym, ap, ◌∙◌, subst,
  ◌≢◌, ◌↔◌, ◌⊎◌, inl, inr, Bool, true, false, not, ◌&&◌, ◌||◌, Option, none, some, List, [], ◌∷◌,
  ◌++◌, map, arith, ltb, leb, nat_eq, if◌then◌else◌, ltb→lt, lt→ltb, leb→le, le→leb, nat_eq_iff,
  tests, Bool-cases, Option-cases, length, any, all, keep, take, drop, length-append,
  length-keep-le, any-append, all-append, length-drop-le, All, filter_map, and_then, is_some,
  is_some_and, unwrap_or, or_else, keep_if, first, Result, ok, err, ◌>>=◌, ◌>>◌, guard, is_ok, Eq,
  ◌==◌, eq_refl, nat_Eq, Str, str, str_eq, str_eq_iff, str_Eq, pair_eq, pair_eq_iff, pair_Eq,
}
use hakobackend.Base.Map
use hakobackend.Base.Map.{
  Map, get-insert, get-remove, Unique, get-retain, insert-Unique, remove-Unique, retain-Unique,
}
use hakobackend.Text.{
  has, strip_prefix, starts_with, push_first, split, split_once, join, is_empty, byte_len,
  is_alphanumeric, is_whitespace, split_whitespace, trim, trim_matches,
}
use hakobackend.Text.Split.{
  join-split, split_of_free, split-append, split-join, split_once-append, split_once_sound,
  strip_prefix_sound, strip_prefix-append,
}
use hakobackend.Text.Order.{
  str_lt, str_lt_irrefl, str_lt_trans, str_lt_antisymm, str_lt_asymm, not_str_lt_trans,
}
use hakobackend.Json.{
  Number, pos_int, neg_int, float, Value, null, bool, number, string, array, object, Items, Fields,
  to_list, of_list, to_map, get_field, insert_field, remove_field, of_map, as_str, as_array,
  as_object, as_i64, is_array, is_object, number_eq, value_eq, items_eq, fields_eq,
}
use hakobackend.Json.Int.{ℤ, pos, negsuc, pos_part, neg_part, leb_ℤ}
use hakobackend.Json.Laws.{get_field-insert_field, get_field-remove_field, get_field-of_map}

-- `Seg`
pub data Seg : Type 0 where
  exact : Str → Seg
  param : Str → Seg

-- one part of a pattern, in `parse_pattern`; the parts are not empty
unfoldable pub parse_part : Str → Option Seg
unfolding strip_prefix
parse_part part = elim (strip_prefix (str ":") part) [
  | some name ↦ if is_empty name then none else some (param name)
  | none ↦ some (exact part)
]

unfoldable pub parse_parts : List Str → Option (List Seg)
unfolding parse_part
parse_parts [] = some []
parse_parts (part ∷ parts) =
    and_then (parse_part part) (λ seg. and_then (parse_parts parts) (λ segs. some (seg ∷ segs)))

-- `params`: the names in the order of the pattern
abbrev pub params_of : List Seg → List Str
params_of [] = []
params_of (exact e ∷ segs) = params_of segs
params_of (param name ∷ segs) = name ∷ params_of segs

-- `split('/').filter(|s| !s.is_empty())`
unfoldable pub parts_of : Str → List Str
unfolding split keep
parts_of s = keep (λ part. not (is_empty part)) (split b'/' s)

-- `parse_pattern`; the messages of its errors are left out
unfoldable pub parse_pattern : Str → Option (List Seg × List Str)
unfolding parse_parts parts_of starts_with
parse_pattern pattern =
    if not (starts_with (str "/") pattern)
    then none
    else and_then (parse_parts (parts_of pattern))
        (λ segs. if nat_eq (length segs) 0 then none else some (segs, params_of segs))

-- an uppercase hexadecimal digit
abbrev pub hex_digit : ℕ → ℕ
hex_digit n = if ltb n 10 then b'0' + n else b'A' + (n - 10)

abbrev pub is_unreserved : ℕ → Bool
is_unreserved b =
    is_alphanumeric b || nat_eq b b'-' || nat_eq b b'_' || nat_eq b b'.' || nat_eq b b'~'

-- `encode_into`, of the bytes of a capture
unfoldable pub encode : Str → Str
encode [] = []
encode (b ∷ value) =
    let rest = encode value in
    if is_unreserved b then b ∷ rest else b'%' ∷ hex_digit (b / 16) ∷ hex_digit (b % 16) ∷ rest

-- the loop of `try_match`: what the parameters capture
unfoldable pub captures : List Seg → List Str → Map Str Str → Option (Map Str Str)
unfolding Map.insert str_eq
captures (exact e ∷ segs) (part ∷ parts) caps =
    let rest = captures segs parts caps in if str_eq e part then rest else none
captures (param name ∷ segs) (part ∷ parts) caps = captures segs parts (Map.insert name part caps)
captures _ _ caps = some caps

-- the head of `try_match`, before the templates are filled
unfoldable pub match_path : List Seg → Str → Option (Map Str Str)
unfolding captures parts_of
match_path segs path =
    let parts = parts_of path in
    if not (nat_eq (length parts) (length segs)) then none else captures segs parts []

-- `p.split('=').next().unwrap_or("")`
unfoldable pub key_of : Str → Str
unfolding split
key_of pair = unwrap_or (first (split b'=' pair)) []

abbrev pub db_key : Str
db_key = str "db"

abbrev pub is_db : Str → Bool
is_db pair = str_eq (key_of pair) db_key

-- `merge_query`
unfoldable pub merge_query : Str → Option Str → Str
unfolding keep any key_of join split
merge_query alias_q req =
    let req_q = unwrap_or req [] in
    if is_empty alias_q
    then req_q
    else if is_empty req_q
    then alias_q
    else let req_keys = map key_of (split b'&' req_q) in
      let kept =
        keep (λ p. is_db p || not (any (λ k. str_eq k (key_of p)) req_keys)) (split b'&' alias_q) in
      let pins = any is_db (split b'&' alias_q) in
      join b'&' (kept ++ keep (λ p. not pins || not (is_db p)) (split b'&' req_q))
