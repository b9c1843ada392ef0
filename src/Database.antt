-- ===== src/Database.antt =====
-- crates/hakobackend-core/src/lib.rs: the errors of the gateway and the trait `Database`, with a
-- driver in memory that answers as the module `conformance` says. Reads leave the database as it is.
pub mod Memory
pub mod Keyed
use hakobackend.Base.{
  ℕ, zero, suc, ◌+◌, ◌-◌, ◌*◌, ◌/◌, ◌%◌, ◌^◌, ◌≤◌, ◌<◌, min, max, ◌≡◌, refl, sym, ap, ◌∙◌, subst,
  ◌≢◌, ◌↔◌, ◌⊎◌, inl, inr, Bool, true, false, not, ◌&&◌, ◌||◌, Option, none, some, List, [], ◌∷◌,
  ◌++◌, map, arith, ltb, leb, nat_eq, if◌then◌else◌, ltb→lt, lt→ltb, leb→le, le→leb, nat_eq_iff,
  tests, Bool-cases, Option-cases, length, any, all, keep, take, drop, length-append,
  length-keep-le, any-append, all-append, length-drop-le, All, filter_map, and_then, is_some,
  is_some_and, unwrap_or, or_else, keep_if, first, Result, ok, err, ◌>>=◌, ◌>>◌, guard, is_ok, Eq,
  ◌==◌, eq_refl, nat_Eq, Str, str, str_eq, str_eq_iff, str_Eq, pair_eq, pair_eq_iff, pair_Eq,
}
use hakobackend.Base.Map
use hakobackend.Base.Map.{
  Map, get-insert, get-remove, Unique, get-retain, insert-Unique, remove-Unique, retain-Unique,
}
use hakobackend.Text.{
  has, strip_prefix, starts_with, push_first, split, split_once, join, is_empty, byte_len,
  is_alphanumeric, is_whitespace, split_whitespace, trim, trim_matches,
}
use hakobackend.Text.Split.{
  join-split, split_of_free, split-append, split-join, split_once-append, split_once_sound,
  strip_prefix_sound, strip_prefix-append,
}
use hakobackend.Text.Order.{
  str_lt, str_lt_irrefl, str_lt_trans, str_lt_antisymm, str_lt_asymm, not_str_lt_trans,
}
use hakobackend.Json.{
  Number, pos_int, neg_int, float, Value, null, bool, number, string, array, object, Items, Fields,
  to_list, of_list, to_map, get_field, insert_field, remove_field, of_map, as_str, as_array,
  as_object, as_i64, is_array, is_object, number_eq, value_eq, items_eq, fields_eq,
}
use hakobackend.Json.Int.{ℤ, pos, negsuc, pos_part, neg_part, leb_ℤ}
use hakobackend.Json.Laws.{get_field-insert_field, get_field-remove_field, get_field-of_map}
use hakobackend.Policy.Rule.{Doc}
use hakobackend.Query.{Order, QueryOptions, doc_matches, sort_and_limit}

-- `AppError`
pub data AppError : Type 0 where
  permission_denied not_found already_exists : AppError
  bad_request conflict internal unsupported : Str → AppError

-- `AppError::status_code`
abbrev pub status_code : AppError → ℕ
status_code permission_denied = 403
status_code not_found = 404
status_code already_exists = 400
status_code (bad_request _) = 400
status_code (conflict _) = 409
status_code (internal _) = 500
status_code (unsupported _) = 501

-- `AppError::code`
abbrev pub code : AppError → Str
code permission_denied = str "permission-denied"
code not_found = str "not-found"
code already_exists = str "already-exists"
code (bad_request _) = str "bad-request"
code (conflict _) = str "conflict"
code (internal _) = str "internal"
code (unsupported _) = str "unsupported"

-- `RawDoc`
pub record RawDoc : Type 0 where
  pub version : Option ℕ
  pub json_inner : Str

-- `frame_doc_json`; `quoted` is the id as a JSON string
unfoldable pub frame_doc_json : Str → Str → Str
unfolding strip_prefix
frame_doc_json quoted inner =
    str "{\"id\":" ++ quoted ++ str "," ++ (elim (strip_prefix (str "{") inner) [
      | some rest ↦ rest
      | none ↦ str "\"_value\":" ++ inner ++ str "}"
    ])

-- `TxOpKind`: `put merge must_exist`
pub data TxOpKind : Type 0 where
  read delete : TxOpKind
  put : Bool → Bool → TxOpKind

-- `TxOp`
pub record TxOp : Type 0 where
  pub collection : Str
  pub id : Str
  pub kind : TxOpKind
  pub doc : Option Doc

-- `TxOut`
pub record TxOut : Type 0 where
  pub doc : Option Doc
  pub existed : Bool

-- `Database`, the operations on documents, and of its `Capabilities` what is read here
pub record Database (W : Type 0) : Type 0 where
  pub driver : Str
  pub supports_native_aggregation : Bool
  pub supports_transactions : Bool
  pub ensure_collection : Str → W → W
  pub get : Str → Str → W → Result AppError (Option Doc)
  pub get_json : Str → Str → W → Result AppError (Option RawDoc)
  pub list : Str → QueryOptions → W → Result AppError (List Doc)
  pub count : Str → QueryOptions → W → Result AppError ℕ
  pub insert : Str → Doc → W → Result AppError Doc × W
  pub set : Str → Str → Doc → Bool → W → Result AppError Doc × W
  pub delete : Str → Str → W → Result AppError (Option Doc) × W
  pub delete_force : Str → Str → W → Result AppError (Option Doc) × W
  pub run_transaction : List TxOp → W → Result AppError (List TxOut) × W
