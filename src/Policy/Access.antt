-- ===== src/Policy/Access.antt =====
-- Who is let in: anonymous callers, the server's own service key, owners by id; and what a
-- write keeps (`svc_context`, `strip_write` of crates/hakobackend-server/src/main.rs).
use hakobackend.Base.{
  ◌≡◌, refl, sym, ap, ◌∙◌, subst, ◌≢◌, ◌↔◌, ◌⊎◌, inl, inr, Bool, true, false, Option, none, some,
  List, [], ◌∷◌, ◌++◌, map, arith, if◌then◌else◌, Bool-cases, Option-cases, any, filter_map,
  eq_refl, nat_Eq, Str, str, str_eq, str_eq_iff, str_Eq, pair_Eq,
}
use hakobackend.Base.Map
use hakobackend.Base.Map.{
  Map, get-insert, get-remove, Unique, get-retain, insert-Unique, remove-Unique, retain-Unique,
}
use hakobackend.Text.{has, starts_with, split_once}
use hakobackend.Text.Split.{split_once-append, split_once_sound}
use hakobackend.Json.{Value, string, array, to_list, of_list, as_str}
use mathlib.Core.List.{Mem, mem-cons_self, mem-cons_of_mem, not-mem-nil, eq-or-mem_of_mem-cons}
use mathlib.Core.Logic.Or
use mathlib.Core.Path.{ap₂}
use hakobackend.Policy.Rule.{
  Rule, public, auth, deny, claim, uid_self, fields, Method, Defaults, PolicyFile, closed,
  AuthContext, Doc,
}
use hakobackend.Policy.Resolve.{specific, general, slot, find, governing}
use hakobackend.Policy.Decide.{
  svc_scope, class_of, scope_covers, svc_scope_hit, claim_holds, is_self, eval, svc_allows, allow,
  strip_fields,
}

-- `svc_context`: the identity that the server mints for its service key
unfoldable pub svc_context : List Str → AuthContext
unfolding of_list
svc_context scopes = record {
  uid = str "svc:loopback";
  extra = (svc_scope, array (of_list (map string scopes))) ∷ [];
}

-- `strip_write`: the stripped fields are dropped from the data of a write
unfoldable pub remove_all : List Str → Map Str Value → Map Str Value
unfolding Map.remove
remove_all [] contents = contents
remove_all (f ∷ fs) contents = remove_all fs (Map.remove f contents)

unfoldable pub strip_write : PolicyFile → Str → Method → Map Str Value → Map Str Value
unfolding strip_fields remove_all
strip_write file collection method contents =
    remove_all (strip_fields file collection method) contents

-- rules that let an anonymous caller pass `allow`
abbrev pub is_open : Rule → Bool
is_open public = true
is_open (fields _ _) = true
is_open _ = false

-- An anonymous caller passes exactly under a rule `public` or `fields`.
pub allow_anonymous :
    (file : PolicyFile) (collection : Str) (method : Method) (resource : Option Doc)
    → allow file none collection method resource ≡ is_open (governing file collection method)
unfolding allow svc_allows
allow_anonymous file collection method resource = go (governing file collection method)
  where
    go : (rule : Rule) → eval rule none resource ≡ is_open rule
    go public = unfold eval in refl
    go auth = unfold eval in refl
    go deny = unfold eval in refl
    go (claim field values strip) = unfold eval claim_holds in refl
    go (uid_self strip) = unfold eval in refl
    go (fields conds strip) = unfold eval in refl

-- Under the default policy file, and with a collection that no entry covers, nobody passes but
-- the service key.
pub allow_unlisted :
    (file : PolicyFile) (caller : Option AuthContext) (collection : Str) (method : Method)
    (resource : Option Doc)
    → find file collection ≡ none
    → file.defaults ≡ closed.defaults
    → allow file caller collection method resource ≡ svc_allows caller collection method
unfolding allow governing slot specific general eval
allow_unlisted file caller collection Method.get resource h d =
    ground (arith, ap (λ (x : Defaults). x.read) d)
allow_unlisted file caller collection Method.list resource h d =
    ground (arith, ap (λ (x : Defaults). x.read) d)
allow_unlisted file caller collection method resource h d =
    ground (arith, ap (λ (x : Defaults). x.write) d)

any_sound :
    (p : Str → Bool) (xs : List Str) → any p xs ≡ true → (x : Str) × (Mem x xs) × (p x ≡ true)
unfolding any
any_sound p [] h = absurd (ground arith)
any_sound p (x ∷ xs) h = elim (Bool-cases (p x)) [
  | inl e ↦ (x, mem-cons_self, e)
  | inr e ↦ let (y, m, e') = any_sound p xs (rw e at h) in (y, mem-cons_of_mem x m, e')
]

scope_covers_sound :
    (collection class scope : Str)
    → scope_covers collection class scope ≡ true
    → (scope ≡ collection ++ b':' ∷ class) × (has b':' collection ≡ false)
unfolding scope_covers
scope_covers_sound collection class scope h = elim (Option-cases (split_once b':' scope)) [
  | inl e ↦ absurd (ground arith)
  | inr ((c, op), e) ↦
      let (shape, free) = split_once_sound b':' scope c op e in
      let same : c ≡ collection = (str_eq_iff c collection).0 (ground arith) in
      let same' : op ≡ class = (str_eq_iff op class).0 (ground arith) in
      (shape ∙ ap₂ (λ (x y : Str). x ++ b':' ∷ y) same same', rw (← same) free)
]

scope_covers_complete :
    (collection class : Str)
    → has b':' collection ≡ false
    → scope_covers collection class (collection ++ b':' ∷ class) ≡ true
unfolding scope_covers
scope_covers_complete collection class h =
    rw (split_once-append b':' collection class h) (rw (eq_refl collection, eq_refl class) refl)

filter_map-map-string : (scopes : List Str) → filter_map as_str (map string scopes) ≡ scopes
unfolding filter_map
filter_map-map-string [] = refl
filter_map-map-string (s ∷ scopes) = ap (◌∷◌ s) (filter_map-map-string scopes)

to_list-of_list : (vs : List Value) → to_list (of_list vs) ≡ vs
unfolding to_list of_list
to_list-of_list [] = refl
to_list-of_list (v ∷ vs) = ap (◌∷◌ v) (to_list-of_list vs)

svc_hit :
    (scopes : List Str) (collection : Str) (method : Method)
    → svc_scope_hit (svc_context scopes).extra collection method
      ≡ any (scope_covers collection (class_of method)) scopes
unfolding svc_scope_hit svc_context Map.get str_eq
svc_hit scopes collection method =
    rw (to_list-of_list (map string scopes), filter_map-map-string scopes) refl

bool_set : IsSet Bool
bool_set = hlevel

any_complete : (p : Str → Bool) (xs : List Str) (x : Str) → Mem x xs → p x ≡ true → any p xs ≡ true
unfolding any
any_complete p [] x m h = absurd (not-mem-nil m)
any_complete p (y ∷ xs) x m h =
    Or.elim (bool_set _ _) (eq-or-mem_of_mem-cons m) (λ e. rw (← e, h) refl)
      (λ m'. ground (arith, any_complete p xs x m' h))

-- The service key is let in beyond the policy's rules exactly for the configured scopes: for a
-- collection without a colon, when `collection:read` (get, list) or `collection:write` is listed.
pub svc_allows_iff :
    (scopes : List Str) (collection : Str) (method : Method)
    → has b':' collection ≡ false
    → (svc_allows (some (svc_context scopes)) collection method ≡ true)
      ↔ Mem (collection ++ b':' ∷ class_of method) scopes
unfolding svc_allows starts_with svc_context
svc_allows_iff scopes collection method free = (
  λ h.
      let (scope, m, covers) =
        any_sound (scope_covers collection (class_of method)) scopes
          (sym (svc_hit scopes collection method) ∙ h) in
      subst (λ (x : Str). Mem x scopes)
        (scope_covers_sound collection (class_of method) scope covers).0 m,
  λ m.
      svc_hit scopes collection method
      ∙ any_complete (scope_covers collection (class_of method)) scopes
          (collection ++ b':' ∷ class_of method) m
          (scope_covers_complete collection (class_of method) free),
)

-- A document is the caller's own only if its id is not empty and is the caller's uid, whole or
-- behind the first colon (`provider:id`).
pub is_self_sound :
    (a : AuthContext) (doc : Doc)
    → is_self a doc ≡ true
    → (doc.id ≢ [])
      × ((a.uid ≡ doc.id)
          ⊎ ((provider : Str) × (a.uid ≡ provider ++ b':' ∷ doc.id) × (has b':' provider ≡ false)))
unfolding is_self
is_self_sound a doc h = (
  λ e. ground arith,
  elim (Bool-cases (str_eq doc.id a.uid)) [
    | inl e ↦ inl (sym ((str_eq_iff doc.id a.uid).0 e))
    | inr e ↦ elim (Option-cases (split_once b':' a.uid)) [
      | inl e' ↦ absurd (ground arith)
      | inr ((provider, raw), e') ↦
          let (shape, free) = split_once_sound b':' a.uid provider raw e' in
          let same : doc.id ≡ raw = (str_eq_iff doc.id raw).0 (ground arith) in
          inr (provider, shape ∙ ap (λ (x : Str). provider ++ b':' ∷ x) (sym same), free)
    ]
  ],
)

-- What a write keeps: the fields that the governing rule strips are gone, and every other field
-- has its value.
pub get-strip_write :
    (file : PolicyFile) (collection : Str) (method : Method) (contents : Map Str Value) (k : Str)
    → Map.get k (strip_write file collection method contents) ≡ (
        if any (λ f. str_eq f k) (strip_fields file collection method)
        then none
        else Map.get k contents)
unfolding strip_write remove_all any
get-strip_write file collection method contents k =
    go (strip_fields file collection method) contents
  where
    go :
        (fs : List Str) (contents : Map Str Value)
        → Map.get k (remove_all fs contents)
          ≡ (if any (λ f. str_eq f k) fs then none else Map.get k contents)
    go [] contents = refl
    go (f ∷ fs) contents = ground (arith, go fs (Map.remove f contents), get-remove f k contents)
