-- ===== src/Endpoints.antt =====
-- crates/hakobackend-server/src/main.rs: the endpoints under /api/auth, which join the local issuer
-- to the login guard, the token cache and the audit log.
pub mod Lockout
pub mod Tokens
pub mod Proofs
mod Tests
use hakobackend.Base.{
  ℕ, zero, suc, ◌+◌, ◌-◌, ◌*◌, ◌/◌, ◌%◌, ◌^◌, ◌≤◌, ◌<◌, min, max, ◌≡◌, refl, sym, ap, ◌∙◌, subst,
  ◌≢◌, ◌↔◌, ◌⊎◌, inl, inr, Bool, true, false, not, ◌&&◌, ◌||◌, Option, none, some, List, [], ◌∷◌,
  ◌++◌, map, arith, ltb, leb, nat_eq, if◌then◌else◌, ltb→lt, lt→ltb, leb→le, le→leb, nat_eq_iff,
  tests, Bool-cases, Option-cases, length, any, all, keep, take, drop, length-append,
  length-keep-le, any-append, all-append, length-drop-le, All, filter_map, and_then, is_some,
  is_some_and, unwrap_or, or_else, keep_if, first, Result, ok, err, ◌>>=◌, ◌>>◌, guard, is_ok,
  Result-cases, Eq, ◌==◌, eq_refl, nat_Eq, Str, str, str_eq, str_eq_iff, str_Eq, pair_eq,
  pair_eq_iff, pair_Eq,
}
use hakobackend.Base.Map
use hakobackend.Base.Map.{
  Map, get-insert, get-remove, Unique, get-retain, insert-Unique, remove-Unique, retain-Unique,
}
use hakobackend.Text.{
  has, strip_prefix, starts_with, push_first, split, split_once, join, is_empty, byte_len,
  is_alphanumeric, is_whitespace, split_whitespace, trim, trim_matches,
}
use hakobackend.Text.Split.{
  join-split, split_of_free, split-append, split-join, split_once-append, split_once_sound,
  strip_prefix_sound, strip_prefix-append,
}
use hakobackend.Text.Order.{
  str_lt, str_lt_irrefl, str_lt_trans, str_lt_antisymm, str_lt_asymm, not_str_lt_trans,
}
use hakobackend.Json.{
  Number, pos_int, neg_int, float, Value, null, bool, number, string, array, object, Items, Fields,
  to_list, of_list, to_map, get_field, insert_field, remove_field, of_map, as_str, as_array,
  as_object, as_i64, is_array, is_object, number_eq, value_eq, items_eq, fields_eq,
}
use hakobackend.Json.Int.{ℤ, pos, negsuc, pos_part, neg_part, leb_ℤ}
use hakobackend.Json.Laws.{get_field-insert_field, get_field-remove_field, get_field-of_map}
use hakobackend.Policy.Rule.{Doc, AuthContext}
use hakobackend.Database.{AppError, Database}
use hakobackend.Guard
use hakobackend.Guard.{Guard, second}
use hakobackend.TokenCache
use hakobackend.TokenCache.{TokenCache}
use hakobackend.Replay.{ReplayCache}
use hakobackend.Sessions.{
  DpopRequest, SessionTokens, RefreshDeny, reuse_revoked, gone, Crypto, Config,
}
use hakobackend.Sessions.Accounts.{login, register}
use hakobackend.Sessions.Refresh.{refresh_classified, logout}
use hakobackend.Handlers.{Change, change}

-- what the endpoints read of `AppState`
pub record Settings : Type 0 where
  pub local_active : Bool
  pub local_register : Bool
  pub local_token_response : Bool
  pub local_cookies : Bool

-- the lines of the audit log; the text of an error in them is left out
pub data Audit : Type 0 where
  login_ok : Str → Audit
  login_fail : Str → Bool → Audit
  lockout : Str → ℕ → Audit
  refresh_reuse refresh_fail logged_out : Audit
  registered : Str → Bool → Str → Audit

-- tokens as cookies and in the body, and who they are for
pub record Issued : Type 0 where
  pub uid : Str
  pub cookies : Option SessionTokens
  pub body : Option SessionTokens

-- a response; a `Bool` says whether the cookies are cleared
pub data Answer : Type 0 where
  issued : Issued → Answer
  bad_request : Str → Answer
  too_many : ℕ → Answer
  invalid_credentials unauthorized closed : Answer
  invalid_session success : Bool → Answer
  made : Str → Answer
  refused : AppError → Answer

-- the state behind the endpoints
pub record Desk (W : Type 0) : Type 0 where
  pub world : W
  pub replay : ReplayCache
  pub guard : Guard
  pub tokens : TokenCache
  pub audits : List Audit
  pub emitted : List Change

-- what an attempt to log in brings, with its random texts and the readings of the clock
pub record Attempt : Type 0 where
  pub body : Value
  pub dpop : Option DpopRequest
  pub looked_at : ℕ
  pub unix : ℕ
  pub proved_at : ℕ
  pub failed_at : ℕ
  pub refresh : Str
  pub session_id : Str

-- `keys.iter().find_map(|k| body.get(k))`
unfoldable pub find_field : List Str → Map Str Value → Option Value
unfolding Map.get
find_field [] body = none
find_field (k ∷ ks) body = or_else (Map.get k body) (find_field ks body)

-- `str_field`
abbrev pub str_field : Map Str Value → List Str → Option Str
str_field body keys = and_then (find_field keys body) as_str

abbrev pub login_keys : List Str
login_keys = str "login" ∷ str "id" ∷ str "email" ∷ str "username" ∷ []

-- the name and the password of a body
unfoldable pub credentials : Map Str Value → Option (Str × Str)
unfolding find_field
credentials body =
    and_then (str_field body login_keys)
      (λ l. and_then (str_field body (str "password" ∷ [])) (λ p. some (l, p)))

-- `render_issuance`
abbrev pub render_issuance : Settings → SessionTokens → Str → Issued
render_issuance cfg tokens uid = record {
  uid = uid;
  cookies = if cfg.local_cookies then some tokens else none;
  body = if cfg.local_token_response then some tokens else none;
}

abbrev pub log : {W : Type 0} → Audit → Desk W → Desk W
log a d = record d { audits = d.audits ++ a ∷ [] }

module _ {W : Type 0} (db : Database W) (crypto : Crypto) (cfg : Config) (settings : Settings) where
  -- `auth_login` once the guard lets the name pass
  unfoldable pub try_login : Attempt → Str → Str → Desk W → Answer × Desk W
  unfolding login Guard.fail Guard.clear
  try_login a name password d =
      let r =
        login db crypto cfg name password a.dpop a.unix a.proved_at a.refresh a.session_id
          (d.world, d.replay) in
      let d' : Desk W = record d { world = r.1.0; replay = r.1.1 } in
      elim r.0 [
        | ok (ctx, tokens) ↦ (
          issued (render_issuance settings tokens ctx.uid),
          log (login_ok name) (record d' { guard = Guard.clear d.guard name }),
        )
        | err _ ↦
            let f = Guard.fail d.guard name a.failed_at in
            let failed : Desk W = record d' { guard = f.0 } in
            (
              invalid_credentials,
              log (login_fail name false)
                  (elim f.1 [ none ↦ failed | some retry ↦ log (lockout name retry) failed ]),
            )
      ]

  -- `auth_login`
  unfoldable pub auth_login : Attempt → Desk W → Answer × Desk W
  unfolding credentials try_login Guard.locked_secs to_map
  auth_login a d =
      if not settings.local_active
      then (bad_request (str "local auth is not active (see --auth)"), d)
      else elim (as_object a.body) [
        | none ↦ (bad_request (str "JSON object body required"), d)
        | some fs ↦ elim (credentials (to_map fs)) [
          | none ↦ (bad_request (str "login + password required"), d)
          | some (name, password) ↦ elim (Guard.locked_secs d.guard name a.looked_at) [
            | some retry ↦ (too_many retry, log (login_fail name true) d)
            | none ↦ try_login a name password d
          ]
        ]
      ]

  -- `auth_refresh`; `cookie` is the token in the cookie and `body` the one in the body
  unfoldable pub auth_refresh :
      Option Str → Option Str → Option DpopRequest → ℕ → ℕ → Str → Desk W → Answer × Desk W
  unfolding refresh_classified
  auth_refresh cookie body dpop now t refresh d =
      if not settings.local_active
      then (bad_request (str "local auth is not active (see --auth)"), d)
      else elim (or_else cookie (if settings.local_token_response then body else none)) [
        | none ↦ (unauthorized, d)
        | some presented ↦
            let r =
              refresh_classified db crypto cfg presented dpop now t refresh (d.world, d.replay) in
            let d' : Desk W = record d { world = r.1.0; replay = r.1.1 } in
            elim r.0 [
              | ok (ctx, tokens) ↦ (issued (render_issuance settings tokens ctx.uid), d')
              | err reuse_revoked ↦ (invalid_session settings.local_cookies, log refresh_reuse d')
              | err gone ↦ (invalid_session settings.local_cookies, log refresh_fail d')
            ]
      ]

  -- `auth_logout`; `access` is the access token of the cookie or of the header
  unfoldable pub auth_logout :
      (Str → Str) → Option Str → Option Str → Option Str → Desk W → Answer × Desk W
  unfolding logout TokenCache.remove
  auth_logout digest cookie body access d =
      elim (or_else cookie (if settings.local_token_response then body else none)) [
        | none ↦ (success settings.local_cookies, d)
        | some presented ↦
            let w =
              if settings.local_active
              then (logout db crypto cfg presented d.world).1
              else d.world in
            (
              success settings.local_cookies,
              log logged_out (record d {
                world = w;
                tokens = elim access [
                  | none ↦ d.tokens
                  | some t ↦ TokenCache.remove digest d.tokens t
                ];
              }),
            )
      ]

  -- `auth_register`; `admin` says whether an administrator asks
  unfoldable pub auth_register : Bool → Value → Desk W → Answer × Desk W
  unfolding register Map.get Map.remove to_map
  auth_register admin body d =
      if not settings.local_register && not admin
      then (closed, log (registered (str "-") false (str "closed")) d)
      else if not settings.local_active
      then (bad_request (str "local auth is not active (see --auth)"), d)
      else elim (as_object body) [
        | none ↦ (bad_request (str "JSON object body required"), d)
        | some fs ↦
            let fields = to_map fs in
            let id = and_then (Map.get (str "id") fields) as_str in
            let email = and_then (Map.get (str "email") fields) as_str in
            let profile =
              Map.remove (str "password")
                (Map.remove (str "email") (Map.remove (str "id") fields)) in
            elim (and_then (Map.get (str "password") fields) as_str) [
              | none ↦ (bad_request (str "password required"), d)
              | some password ↦
                  let r = register db crypto cfg id email password profile d.world in
                  let d' : Desk W = record d { world = r.1 } in
                  elim r.0 [
                    | err e ↦ (
                      refused e,
                      log (registered (unwrap_or id (str "-")) false (str "error")) d',
                    )
                    | ok doc ↦ (
                      made doc.id,
                      log
                          (registered doc.id true (
                            if admin && not settings.local_register then str "admin" else str "ok"))
                          (record d' {
                            emitted =
                                d.emitted
                                ++ record {
                                  collection = cfg.users_collection;
                                  id = doc.id;
                                  kind = change;
                                  doc = some doc;
                                }
                                  ∷ [];
                          }),
                    )
                  ]
            ]
      ]
