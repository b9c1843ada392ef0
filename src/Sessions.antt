-- ===== src/Sessions.antt =====
-- crates/hakobackend-auth-local/src/lib.rs: what accounts and sessions of the local issuer consist
-- of. Random texts, the clock and the cryptography are arguments.
pub mod Accounts
pub mod Refresh
pub mod Signup
pub mod Refusals
pub mod Rows
pub mod Revocation
pub mod Renewal
pub mod Rotation
mod Tests
use hakobackend.Base.{
  ℕ, zero, suc, ◌+◌, ◌-◌, ◌*◌, ◌/◌, ◌%◌, ◌^◌, ◌≤◌, ◌<◌, min, max, ◌≡◌, refl, sym, ap, ◌∙◌, subst,
  ◌≢◌, ◌↔◌, ◌⊎◌, inl, inr, Bool, true, false, not, ◌&&◌, ◌||◌, Option, none, some, List, [], ◌∷◌,
  ◌++◌, map, arith, ltb, leb, nat_eq, if◌then◌else◌, ltb→lt, lt→ltb, leb→le, le→leb, nat_eq_iff,
  tests, Bool-cases, Option-cases, length, any, all, keep, take, drop, length-append,
  length-keep-le, any-append, all-append, length-drop-le, All, filter_map, and_then, is_some,
  is_some_and, unwrap_or, or_else, keep_if, first, Result, ok, err, ◌>>=◌, ◌>>◌, guard, is_ok, Eq,
  ◌==◌, eq_refl, nat_Eq, Str, str, str_eq, str_eq_iff, str_Eq, pair_eq, pair_eq_iff, pair_Eq,
}
use hakobackend.Base.Map
use hakobackend.Base.Map.{
  Map, get-insert, get-remove, Unique, get-retain, insert-Unique, remove-Unique, retain-Unique,
}
use hakobackend.Text.{
  has, strip_prefix, starts_with, push_first, split, split_once, join, is_empty, byte_len,
  is_alphanumeric, is_whitespace, split_whitespace, trim, trim_matches,
}
use hakobackend.Text.Split.{
  join-split, split_of_free, split-append, split-join, split_once-append, split_once_sound,
  strip_prefix_sound, strip_prefix-append,
}
use hakobackend.Text.Order.{
  str_lt, str_lt_irrefl, str_lt_trans, str_lt_antisymm, str_lt_asymm, not_str_lt_trans,
}
use hakobackend.Json.{
  Number, pos_int, neg_int, float, Value, null, bool, number, string, array, object, Items, Fields,
  to_list, of_list, to_map, get_field, insert_field, remove_field, of_map, as_str, as_array,
  as_object, as_i64, is_array, is_object, number_eq, value_eq, items_eq, fields_eq,
}
use hakobackend.Json.Int.{ℤ, pos, negsuc, pos_part, neg_part, leb_ℤ}
use hakobackend.Json.Laws.{get_field-insert_field, get_field-remove_field, get_field-of_map}
use hakobackend.Policy.Rule.{Doc, AuthContext}
use hakobackend.Paths.Wire.{FilterOp, eq, gt, lte}
use hakobackend.Query.{Order, Filter, QueryOptions, doc_matches, matches_cursor, sort_and_limit}
use hakobackend.Database.{
  AppError, permission_denied, not_found, already_exists, bad_request, conflict, internal,
  unsupported, RawDoc, Database,
}
use hakobackend.TokenCache.Decode.{as_u64}
use hakobackend.Replay
use hakobackend.Replay.{ReplayCache}

abbrev pub sessions : Str
sessions = str "__sessions"

abbrev pub password_field : Str
password_field = str "password_hash"

abbrev pub email_field : Str
email_field = str "email"

abbrev pub refresh_hash : Str
refresh_hash = str "refresh_hash"

abbrev pub prev_hash : Str
prev_hash = str "prev_hash"

-- `AccessClaims` less `iss` and `aud`, which are constants; `cnf` is the thumbprint in it
pub record AccessClaims : Type 0 where
  pub sub : Str
  pub email : Option Str
  pub exp : ℕ
  pub iat : ℕ
  pub cnf : Option Str
  pub attrs : Option (Map Str Value)

-- `DpopRequest`
pub record DpopRequest : Type 0 where
  pub proof : Str
  pub method : Str
  pub uri : Str

-- `SessionTokens`
pub record SessionTokens : Type 0 where
  pub access_jwt : Str
  pub refresh_opaque : Str

-- `RefreshDeny`
pub data RefreshDeny : Type 0 where
  reuse_revoked gone : RefreshDeny

-- What the issuer takes from other crates: SHA-256 in hexadecimal, Argon2 (its salt within), the
-- signature of a JWT, `verify_proof` with the thumbprint and the `jti` it gives, and the text of a
-- `usize`.
pub record Crypto : Type 0 where
  pub sha_hex : Str → Str
  pub verify_password : Str → Str → Bool
  pub hash_password : Str → Result AppError Str
  pub encode : AccessClaims → Option Str
  pub verify_proof : DpopRequest → Option (Str × Str)
  pub to_text : ℕ → Str

-- `LocalConfig` and `Identity`, as far as they are used here
pub record Config : Type 0 where
  pub access_ttl_secs : ℕ
  pub refresh_ttl_secs : ℕ
  pub password_min_length : ℕ
  pub users_collection : Str
  pub attrs : List Str

-- `internal`: the cause is hidden
abbrev pub store_error : AppError
store_error = internal (str "auth store error")

abbrev pub hide : {A : Type 0} → Result AppError A → Result AppError A
hide (ok a) = ok a
hide (err _) = err store_error

-- an empty `QueryOptions` with one filter
abbrev pub where_eq : Str → Str → Option ℕ → QueryOptions
where_eq f text limit = record {
  filters = record { field = f; op = eq; value = string text } ∷ [];
  fields = [];
  order_by = [];
  limit = limit;
  offset = none;
  start_at = none;
  start_after = none;
  end_at = none;
  end_before = none;
}

-- `data.get(f).and_then(as_str)`
unfoldable pub text_of : Str → Doc → Option Str
unfolding Map.get
text_of f d = and_then (Map.get f d.contents) as_str

-- `expired`
unfoldable pub expired : Doc → ℕ → Bool
unfolding Map.get
expired session now =
    is_some_and (and_then (Map.get (str "expires_at") session.contents) as_u64) (λ e. leb e now)

-- the loop of `attrs_of`
unfoldable pub attrs_of : List Str → Doc → Map Str Value
unfolding Map.get Map.insert
attrs_of [] d = []
attrs_of (f ∷ fs) d =
    let rest = attrs_of fs d in
    elim (Map.get f d.contents) [ none ↦ rest | some v ↦ Map.insert f v rest ]

-- `ctx_of`
unfoldable pub ctx_of : List Str → Str → Doc → AuthContext
unfolding attrs_of text_of Map.insert
ctx_of attrs uid d = record {
  uid = uid;
  extra = elim (text_of email_field d) [
    | none ↦ attrs_of attrs d
    | some e ↦ Map.insert email_field (string e) (attrs_of attrs d)
  ];
}

-- the loop of `register` over the claim fields
abbrev pub remove_all : List Str → Map Str Value → Map Str Value
remove_all [] m = m
remove_all (f ∷ fs) m = remove_all fs (Map.remove f m)

-- the data of a new account
unfoldable pub signup_data : List Str → Option Str → Str → Map Str Value → Map Str Value
unfolding Map.remove Map.insert
signup_data attrs email hash profile =
    let stripped = remove_all attrs (Map.remove password_field profile) in
    let hashed = Map.insert password_field (string hash) stripped in
    elim email [ none ↦ hashed | some e ↦ Map.insert email_field (string e) hashed ]
