-- ===== src/Handlers.antt =====
-- crates/hakobackend-server/src/main.rs: what the handlers of documents share: the request's name
-- checks, the body of a new document, the response, and the state.
pub mod Writes
pub mod Batch
pub mod Gates
pub mod Stored
pub mod Plan
pub mod Gate
pub mod Atomic
mod Tests
use hakobackend.Base.{
  ℕ, zero, suc, ◌+◌, ◌-◌, ◌*◌, ◌/◌, ◌%◌, ◌^◌, ◌≤◌, ◌<◌, min, max, ◌≡◌, refl, sym, ap, ◌∙◌, subst,
  ◌≢◌, ◌↔◌, ◌⊎◌, inl, inr, Bool, true, false, not, ◌&&◌, ◌||◌, Option, none, some, List, [], ◌∷◌,
  ◌++◌, map, arith, ltb, leb, nat_eq, if◌then◌else◌, ltb→lt, lt→ltb, leb→le, le→leb, nat_eq_iff,
  tests, Bool-cases, Option-cases, length, any, all, keep, take, drop, length-append,
  length-keep-le, any-append, all-append, length-drop-le, All, filter_map, and_then, is_some,
  is_some_and, unwrap_or, or_else, keep_if, first, Result, ok, err, ◌>>=◌, ◌>>◌, guard, is_ok, Eq,
  ◌==◌, eq_refl, nat_Eq, Str, str, str_eq, str_eq_iff, str_Eq, pair_eq, pair_eq_iff, pair_Eq,
}
use hakobackend.Base.Map
use hakobackend.Base.Map.{
  Map, get-insert, get-remove, Unique, get-retain, insert-Unique, remove-Unique, retain-Unique,
}
use hakobackend.Text.{
  has, strip_prefix, starts_with, push_first, split, split_once, join, is_empty, byte_len,
  is_alphanumeric, is_whitespace, split_whitespace, trim, trim_matches,
}
use hakobackend.Text.Split.{
  join-split, split_of_free, split-append, split-join, split_once-append, split_once_sound,
  strip_prefix_sound, strip_prefix-append,
}
use hakobackend.Text.Order.{
  str_lt, str_lt_irrefl, str_lt_trans, str_lt_antisymm, str_lt_asymm, not_str_lt_trans,
}
use hakobackend.Json.{
  Number, pos_int, neg_int, float, Value, null, bool, number, string, array, object, Items, Fields,
  to_list, of_list, to_map, get_field, insert_field, remove_field, of_map, as_str, as_array,
  as_object, as_i64, is_array, is_object, number_eq, value_eq, items_eq, fields_eq,
}
use hakobackend.Json.Int.{ℤ, pos, negsuc, pos_part, neg_part, leb_ℤ}
use hakobackend.Json.Laws.{get_field-insert_field, get_field-remove_field, get_field-of_map}
use hakobackend.Policy.Rule.{Doc, AuthContext, Method, PolicyFile, deny, public, uid_self, fields}
use hakobackend.Policy.Decide.{allow, allow_fields, strip_fields, strips_of}
use hakobackend.Policy.Access
use hakobackend.Policy.Access.{strip_write, get-strip_write}
use hakobackend.Atomics.Resolve.{resolve_for_create, stamp_new, stamp_update, created_at}
use hakobackend.Atomics.Update.{Externals, apply_update}
use hakobackend.Coalesce
use hakobackend.Coalesce.{Coalescer, eligible}
use hakobackend.Paths.{
  PathKind, document, collection, parse_collection_path, valid_collection_path, valid_doc_id,
  valid_db_name,
}
use hakobackend.Query.{is_nil}
use hakobackend.Database.{
  AppError, status_code, code, permission_denied, not_found, already_exists, bad_request, conflict,
  internal, unsupported, TxOp, TxOut, read, delete, put, Database,
}

-- a response: `ok_true`, a document, or a status with a code and a text
pub data Response : Type 0 where
  ok_true : Response
  sent : Doc → Response
  error : ℕ → Str → Response
  error_code : AppError → Response

abbrev pub forbidden : Response
forbidden = error 403 (str "Permission denied by policy")

-- `ChangeKind`, as far as it is emitted here
pub data ChangeKind : Type 0 where
  change remove : ChangeKind

-- `Change`
pub record Change : Type 0 where
  pub collection : Str
  pub id : Str
  pub kind : ChangeKind
  pub doc : Option Doc

-- what `AppState` and its snapshot hold, and what is read from elsewhere
pub record App (W : Type 0) : Type 0 where
  pub policy : PolicyFile
  pub skip_read_before_write : Bool
  pub coalesce_on : Bool
  pub read_only : Bool
  pub dbs : Map Str (Database W)
  pub externals : Externals
  pub to_text : Value → Option Str

-- the readings of the clock of a write: when it waits, when it is resolved, when it is stamped
pub record Clock : Type 0 where
  pub now : ℕ
  pub resolved : Str
  pub stamped : Str

-- the databases, what waits to be written, and what was emitted
pub record State (W : Type 0) : Type 0 where
  pub world : W
  pub pending : Coalescer
  pub emitted : List Change

-- `dotted`
unfoldable pub dotted : Str → Str → Str
unfolding str_eq
dotted db c = if str_eq db (str "default") then c else db ++ str "." ++ c

-- `denied_internal`
unfoldable pub denied_internal : Str → Bool
unfolding split starts_with
denied_internal logical = is_some_and (first (split b'/' logical)) (starts_with (str "__"))

-- `valid_names`: what is wrong with the names
unfoldable pub valid_names : Str → Option Str → Option Response
unfolding valid_collection_path valid_doc_id
valid_names c id =
    if not (valid_collection_path c)
    then some (error 400 (str "invalid collection name"))
    else if is_some_and id (λ i. not (valid_doc_id i))
    then some (error 400 (str "invalid document id"))
    else none

-- `resolve_db_name`; `param` is the request's `db`
unfoldable pub resolve_db_name : Option Str → Result Response Str
unfolding valid_db_name
resolve_db_name param =
    let db = unwrap_or param (str "default") in
    if not (valid_db_name db) then err (error 400 (str "invalid db name")) else ok db

-- `incoming_doc`
unfoldable pub incoming_doc : Str → Value → Doc
unfolding Map.get Map.remove to_map valid_doc_id
incoming_doc id body =
    let contents : Map Str Value = elim (as_object body) [ none ↦ [] | some fs ↦ to_map fs ] in
    if is_empty id
    then elim (keep_if valid_doc_id (and_then (Map.get (str "id") contents) as_str)) [
      | none ↦ record { id = id; contents = contents }
      | some bid ↦ record { id = bid; contents = Map.remove (str "id") contents }
    ]
    else record { id = id; contents = contents }

-- `.await.ok().flatten()`
abbrev pub found : Result AppError (Option Doc) → Option Doc
found (ok d) = d
found (err _) = none

module _ {W : Type 0} (app : App W) where
  -- `deny_if_read_only`
  abbrev pub deny_if_read_only : Option Response
  deny_if_read_only =
      if app.read_only
      then some (error 503 (str "read-only mode: writes paused for maintenance"))
      else none

  -- `Hot::db_for`
  unfoldable pub db_for : Str → Result Response (Database W)
  unfolding Map.get
  db_for name = elim (Map.get name app.dbs) [
    | some db ↦ ok db
    | none ↦
        if leb (length app.dbs) 1
        then err (error 400 (str "single-database deployment (default only)"))
        else err (error 404 (str "unknown database"))
  ]

  -- the checks of a handler up to its database
  unfoldable pub target : Str → Str → Option Str → Result Response (Database W)
  unfolding denied_internal valid_names db_for
  target dbname c id =
      if denied_internal c
      then err (error 403 (str "reserved __ prefix"))
      else elim (valid_names c id) [ some r ↦ err r | none ↦ db_for dbname ]

abbrev pub emit : {W : Type 0} → Change → State W → State W
emit e s = record s { emitted = s.emitted ++ e ∷ [] }
