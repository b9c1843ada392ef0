-- ===== src/Policy/Decide.antt =====
-- The decisions: `svc_scope_hit`, `eval`, `eval_conds`, `allow`, `strip_fields`, `allow_fields`.
use hakobackend.Base.{
  Bool, true, false, not, ◌&&◌, ◌||◌, Option, some, List, [], if◌then◌else◌, any, all, filter_map,
  and_then, is_some, is_some_and, nat_Eq, Str, str, str_eq, str_Eq, pair_Eq,
}
use hakobackend.Base.Map
use hakobackend.Base.Map.{
  Map, get-insert, get-remove, Unique, get-retain, insert-Unique, remove-Unique, retain-Unique,
}
use hakobackend.Text.{starts_with, split_once, is_empty}
use hakobackend.Json.{Value, string, array, to_list, as_str, as_array, as_i64, value_eq}
use hakobackend.Json.Int.{leb_ℤ}
use hakobackend.Policy.Rule.{
  Rule, public, auth, deny, claim, uid_self, fields, FieldCond, eq_auth, eq_lit, int_range, Method,
  PolicyFile, AuthContext, Doc,
}
use hakobackend.Policy.Resolve.{governing}

abbrev pub svc_uid_prefix : Str
svc_uid_prefix = str "svc:"

abbrev pub svc_scope : Str
svc_scope = str "svc:scope"

abbrev pub class_of : Method → Str
class_of Method.get = str "read"
class_of Method.list = str "read"
class_of _ = str "write"

-- one scope, `collection:read` or `collection:write`
unfoldable pub scope_covers : Str → Str → Str → Bool
unfolding split_once
scope_covers collection class scope =
    is_some_and (split_once b':' scope) (λ x. str_eq x.1 class && str_eq x.0 collection)

unfoldable pub svc_scope_hit : Map Str Value → Str → Method → Bool
unfolding Map.get to_list scope_covers filter_map any
svc_scope_hit extra collection method =
    is_some_and (and_then (Map.get svc_scope extra) as_array) (λ scopes.
      any (scope_covers collection (class_of method)) (filter_map as_str (to_list scopes)))

-- `values.iter().any(|v| v == s)`
unfoldable pub one_of : List Str → Str → Bool
unfolding any
one_of values s = any (λ v. str_eq v s) values

unfoldable pub claim_holds : List Str → Option Value → Bool
unfolding one_of to_list filter_map any
claim_holds values (some (string s)) = one_of values s
claim_holds values (some (array a)) = any (one_of values) (filter_map as_str (to_list a))
claim_holds values _ = false

-- the id of the document is the caller's uid, or its part behind the provider
unfoldable pub is_self : AuthContext → Doc → Bool
unfolding split_once
is_self a doc =
    not (is_empty doc.id)
    && (str_eq doc.id a.uid
        || is_some_and (split_once b':' a.uid) (λ x. not (is_empty x.1) && str_eq doc.id x.1))

unfoldable pub eval : Rule → Option AuthContext → Option Doc → Bool
unfolding claim_holds is_self Map.get
eval public caller resource = true
eval deny caller resource = false
eval auth caller resource = is_some caller
eval (claim field values _) caller resource =
    claim_holds values (and_then caller (λ a. Map.get field a.extra))
eval (uid_self _) caller resource = is_some_and caller (λ a. is_some_and resource (is_self a))
eval (fields _ _) caller resource = true

-- the caller is the server's own service key, and its scope covers the request
unfoldable pub svc_allows : Option AuthContext → Str → Method → Bool
unfolding svc_scope_hit starts_with
svc_allows caller collection method =
    is_some_and caller
      (λ a. starts_with svc_uid_prefix a.uid && svc_scope_hit a.extra collection method)

-- `PolicyFile::allow`
unfoldable pub allow : PolicyFile → Option AuthContext → Str → Method → Option Doc → Bool
unfolding svc_allows governing eval
allow file caller collection method resource =
    if svc_allows caller collection method
    then true
    else eval (governing file collection method) caller resource

abbrev pub strips_of : Rule → List Str
strips_of (claim _ _ strip) = strip
strips_of (uid_self strip) = strip
strips_of (fields _ strip) = strip
strips_of _ = []

-- `PolicyFile::strip_fields`
unfoldable pub strip_fields : PolicyFile → Str → Method → List Str
unfolding governing
strip_fields file collection method = strips_of (governing file collection method)

unfoldable pub cond_holds : Option AuthContext → Map Str Value → FieldCond → Bool
unfolding Map.get value_eq
cond_holds caller contents (eq_auth field attr) =
    is_some_and (Map.get field contents)
      (λ v. is_some_and (and_then caller (λ a. Map.get attr a.extra)) (value_eq v))
cond_holds caller contents (eq_lit field value) =
    is_some_and (Map.get field contents) (λ v. value_eq v value)
cond_holds caller contents (int_range field lo hi) =
    is_some_and (and_then (Map.get field contents) as_i64) (λ n. leb_ℤ lo n && leb_ℤ n hi)

-- `eval_conds`
unfoldable pub eval_conds : List FieldCond → Option AuthContext → Map Str Value → Bool
unfolding cond_holds all
eval_conds conds caller contents = all (cond_holds caller contents) conds

-- the `Fields` arm of `allow_fields`
unfoldable pub fields_hold : Rule → Option AuthContext → Map Str Value → Bool
unfolding eval_conds
fields_hold (fields conds _) caller contents = eval_conds conds caller contents
fields_hold _ caller contents = true

-- `PolicyFile::allow_fields`
unfoldable pub allow_fields : PolicyFile → Option AuthContext → Str → Method → Map Str Value → Bool
unfolding governing fields_hold
allow_fields file caller collection method contents =
    fields_hold (governing file collection method) caller contents
