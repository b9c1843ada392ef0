-- ===== src/Ttl.antt =====
-- crates/hakobackend-core/src/ttl.rs: documents that carry an expiry, and the database that hides
-- the dead; `sweep_expired` is of lib.rs. The clock is an argument.
pub mod Visible
pub mod Counts
pub mod Sweep
mod Tests
use hakobackend.Base.{
  ℕ, zero, suc, ◌+◌, ◌-◌, ◌*◌, ◌/◌, ◌%◌, ◌^◌, ◌≤◌, ◌<◌, min, max, ◌≡◌, refl, sym, ap, ◌∙◌, subst,
  ◌≢◌, ◌↔◌, ◌⊎◌, inl, inr, Bool, true, false, not, ◌&&◌, ◌||◌, Option, none, some, List, [], ◌∷◌,
  ◌++◌, map, arith, ltb, leb, nat_eq, if◌then◌else◌, ltb→lt, lt→ltb, leb→le, le→leb, nat_eq_iff,
  tests, Bool-cases, Option-cases, length, any, all, keep, take, drop, length-append,
  length-keep-le, any-append, all-append, length-drop-le, All, filter_map, and_then, is_some,
  is_some_and, unwrap_or, or_else, keep_if, first, Result, ok, err, ◌>>=◌, ◌>>◌, guard, is_ok, Eq,
  ◌==◌, eq_refl, nat_Eq, Str, str, str_eq, str_eq_iff, str_Eq, pair_eq, pair_eq_iff, pair_Eq,
}
use hakobackend.Base.Map
use hakobackend.Base.Map.{
  Map, get-insert, get-remove, Unique, get-retain, insert-Unique, remove-Unique, retain-Unique,
}
use hakobackend.Text.{
  has, strip_prefix, starts_with, push_first, split, split_once, join, is_empty, byte_len,
  is_alphanumeric, is_whitespace, split_whitespace, trim, trim_matches,
}
use hakobackend.Text.Split.{
  join-split, split_of_free, split-append, split-join, split_once-append, split_once_sound,
  strip_prefix_sound, strip_prefix-append,
}
use hakobackend.Text.Order.{
  str_lt, str_lt_irrefl, str_lt_trans, str_lt_antisymm, str_lt_asymm, not_str_lt_trans,
}
use hakobackend.Json.{
  Number, pos_int, neg_int, float, Value, null, bool, number, string, array, object, Items, Fields,
  to_list, of_list, to_map, get_field, insert_field, remove_field, of_map, as_str, as_array,
  as_object, as_i64, is_array, is_object, number_eq, value_eq, items_eq, fields_eq,
}
use hakobackend.Json.Int.{ℤ, pos, negsuc, pos_part, neg_part, leb_ℤ}
use hakobackend.Json.Laws.{get_field-insert_field, get_field-remove_field, get_field-of_map}
use hakobackend.Policy.Rule.{Doc, AuthContext}
use hakobackend.Paths.Wire.{FilterOp, eq, gt, lte}
use hakobackend.Query.{
  Order, Filter, QueryOptions, nested, is_value, is_nil, skip, apply_offset_limit, apply_cursor,
  filter_matches, doc_matches, matches_cursor, sort_and_limit,
}
use hakobackend.Database.{
  AppError, permission_denied, not_found, already_exists, bad_request, conflict, internal,
  unsupported, RawDoc, Database,
}
use hakobackend.Replay
use hakobackend.Replay.{ReplayCache}
use hakobackend.Database.Keyed.{IsKeyed, any-docs_in}
use hakobackend.Query.{
  is_greater, is_less, sort_by, insert_by, cmp_docs, OrderBy, compares, matches_op, cmp_json,
}
use hakobackend.Database.Memory.{Store, docs_in, merged, select, memory}

abbrev pub ttl_field : Str
ttl_field = str "__ttl_at"

-- a stamp, at this instant
abbrev pub is_past : ℕ → ℤ → Bool
is_past now t = not (leb_ℤ t (pos 0)) && leb_ℤ t (pos now)

-- `is_expired`
unfoldable pub is_expired : ℕ → Doc → Bool
unfolding Map.get
is_expired now d = is_some_and (and_then (Map.get ttl_field d.contents) as_i64) (is_past now)

-- `json.windows(n).any(|w| w == needle)`
unfoldable pub has_window : Str → Str → Bool
unfolding starts_with
has_window needle [] = starts_with needle []
has_window needle (c ∷ s) = starts_with needle (c ∷ s) || has_window needle s

-- `contains_ttl_key`
abbrev pub contains_ttl_key : Str → Bool
contains_ttl_key json = has_window (str "\"__ttl_at\"") json

-- `unpaged`
abbrev pub unpaged : QueryOptions → QueryOptions
unpaged q = record q { limit = none; offset = none }

-- `expired_query`
abbrev pub expired_query : ℕ → QueryOptions → QueryOptions
expired_query now q = record (unpaged q) {
  filters =
      q.filters
      ++ (record { field = ttl_field; op = gt; value = number (pos_int 0) })
        ∷ (record { field = ttl_field; op = lte; value = number (pos_int now) })
        ∷ [];
}

-- `Ok(r?.map(f))`
abbrev pub map_ok : {A B : Type 0} → (A → B) → Result AppError A → Result AppError B
map_ok f (ok a) = ok (f a)
map_ok f (err e) = err e

abbrev pub is_live : ℕ → Doc → Bool
is_live now d = not (is_expired now d)

-- an empty `QueryOptions`
abbrev pub every : QueryOptions
every = record {
  filters = [];
  fields = [];
  order_by = [];
  limit = none;
  offset = none;
  start_at = none;
  start_after = none;
  end_at = none;
  end_before = none;
}

module _ {W : Type 0} (now : ℕ) (inner : Database W) where
  -- `expired_count`
  abbrev pub expired_count : Str → QueryOptions → W → Result AppError ℕ
  expired_count c q w =
      map_ok (λ docs. length (keep (is_expired now) docs)) (inner.list c (expired_query now q) w)

  -- `list`
  abbrev pub list : Str → QueryOptions → W → Result AppError (List Doc)
  list c q w = map_ok (keep (is_live now)) (inner.list c q w)

  -- `count`
  unfoldable pub count : Str → QueryOptions → W → Result AppError ℕ
  unfolding is_expired keep
  count c q w =
      if not inner.supports_native_aggregation
      then map_ok length (list c q w)
      else (inner.count c (unpaged q) w >>= λ total.
          expired_count c q w >>= λ dead. ok (total - dead))

  -- `TtlDb`
  abbrev pub ttl_db : Database W
  ttl_db = record {
    driver = inner.driver;
    supports_native_aggregation = inner.supports_native_aggregation;
    supports_transactions = inner.supports_transactions;
    ensure_collection = inner.ensure_collection;
    get = λ c id w. map_ok (keep_if (is_live now)) (inner.get c id w);
    get_json = λ c id w.
        map_ok (keep_if (λ r. not (contains_ttl_key r.json_inner))) (inner.get_json c id w);
    list = list;
    count = count;
    insert = inner.insert;
    set = inner.set;
    delete = λ c id w. let r = inner.delete c id w in (map_ok (keep_if (is_live now)) r.0, r.1);
    delete_force =
        λ c id w. let r = inner.delete_force c id w in (map_ok (keep_if (is_live now)) r.0, r.1);
    run_transaction = inner.run_transaction;
  }

-- the loop of `sweep_expired` over the ids of a collection
unfoldable pub delete_ids : {W : Type 0} → Database W → Str → List Str → ℕ × W → ℕ × W
delete_ids db c [] s = s
delete_ids db c (id ∷ ids) (deleted, w) =
    let r = db.delete c id w in
    delete_ids db c ids ((if is_ok r.0 then suc deleted else deleted), r.1)

-- `sweep_expired` over the collections of `list_collections`: what it visited, what it deleted
unfoldable pub sweep_expired :
    {W : Type 0} → ℕ → Database W → ℕ → List Str → ℕ × ℕ → W → Result AppError (ℕ × ℕ) × W
unfolding is_expired keep starts_with delete_ids
sweep_expired now db cap [] (visited, deleted) w = (ok (visited, deleted), w)
sweep_expired now db cap (c ∷ cs) (visited, deleted) w = elim (starts_with (str "__") c) [
  | true ↦ sweep_expired now db cap cs (visited, deleted) w
  | false ↦ elim (db.list c every w) [
    | err e ↦ (err e, w)
    | ok docs ↦
        let r =
          delete_ids db c (map (λ d. d.id) (take cap (keep (is_expired now) docs))) (deleted, w) in
        sweep_expired now db cap cs (suc visited, r.0) r.1
  ]
]
