-- ===== src/Sessions/Accounts.antt =====
-- crates/hakobackend-auth-local/src/lib.rs: sign-up, log-in and the proof of a key. An error of the
-- database keeps its place among the steps.
use hakobackend.Base.{
  ℕ, ◌+◌, Bool, true, false, not, Option, none, some, [], ◌∷◌, ◌++◌, ltb, nat_eq, if◌then◌else◌,
  length, any, is_some_and, or_else, keep_if, Result, ok, err, nat_Eq, Str, str, str_eq, str_Eq,
  pair_Eq,
}
use hakobackend.Base.Map
use hakobackend.Base.Map.{
  Map, get-insert, get-remove, Unique, get-retain, insert-Unique, remove-Unique, retain-Unique,
}
use hakobackend.Text.{is_empty, byte_len}
use hakobackend.Json.{pos_int, Value, number, string}
use hakobackend.Policy.Rule.{Doc, AuthContext}
use hakobackend.Database.{AppError, permission_denied, already_exists, bad_request, Database}
use hakobackend.Replay
use hakobackend.Replay.{ReplayCache}
use hakobackend.Sessions.{
  sessions, password_field, email_field, refresh_hash, AccessClaims, DpopRequest, SessionTokens,
  Crypto, Config, store_error, hide, where_eq, text_of, attrs_of, ctx_of, signup_data,
}

module _ {W : Type 0} (db : Database W) (crypto : Crypto) (cfg : Config) where
  -- `find_user`
  unfoldable pub find_user : Str → W → Result AppError Doc
  find_user login w = elim (db.get cfg.users_collection login w) [
    | err _ ↦ err store_error
    | ok (some d) ↦ ok d
    | ok none ↦ elim (db.list cfg.users_collection (where_eq email_field login (some 2)) w) [
      | err _ ↦ err store_error
      | ok (d ∷ []) ↦ ok d
      | ok _ ↦ err permission_denied
    ]
  ]

  -- the claims that `mint_access` signs
  abbrev pub access_claims : Str → Option Str → Option Str → Map Str Value → ℕ → AccessClaims
  access_claims uid email cnf attrs now = record {
    sub = uid;
    email = email;
    exp = now + cfg.access_ttl_secs;
    iat = now;
    cnf = cnf;
    attrs = if nat_eq (length attrs) 0 then none else some attrs;
  }

  -- `mint_access`
  abbrev pub mint_access : Str → Option Str → Option Str → Map Str Value → ℕ → Result AppError Str
  mint_access uid email cnf attrs now =
      elim (crypto.encode (access_claims uid email cnf attrs now)) [
        | none ↦ err store_error
        | some jwt ↦ ok jwt
      ]

  -- the session document of `mint`
  abbrev pub new_session : Str → Str → Str → Str → ℕ → Doc
  new_session id uid ctx_uid refresh now = record {
    id = id;
    contents =
        (str "uid", string uid)
        ∷ (str "ctx_uid", string ctx_uid)
        ∷ (refresh_hash, string (crypto.sha_hex refresh))
        ∷ (str "created_at", number (pos_int now))
        ∷ (str "expires_at", number (pos_int (now + cfg.refresh_ttl_secs)))
        ∷ [];
  }

  -- `mint`; `refresh` and `id` are its random texts
  unfoldable pub mint :
      Str
      → Str
      → Option Str
      → Option Str
      → Map Str Value
      → ℕ
      → Str
      → Str
      → W
      → Result AppError SessionTokens × W
  mint uid ctx_uid email cnf attrs now refresh id w = elim (mint_access uid email cnf attrs now) [
    | err e ↦ (err e, w)
    | ok jwt ↦
        let r = db.insert sessions (new_session id uid ctx_uid refresh now) w in
        (
          elim r.0 [
            | err _ ↦ err store_error
            | ok _ ↦ ok (record { access_jwt = jwt; refresh_opaque = refresh })
          ],
          r.1,
        )
  ]

  -- `bind_dpop`, at the instant `t` of the replay cache
  unfoldable pub bind_dpop :
      Option DpopRequest → ℕ → ReplayCache → Result AppError (Option Str) × ReplayCache
  unfolding Replay.check
  bind_dpop none t replay = (ok none, replay)
  bind_dpop (some d) t replay = elim (crypto.verify_proof d) [
    | none ↦ (err permission_denied, replay)
    | some (jkt, jti) ↦
        let r = Replay.check replay jti t in
        (if r.0 then ok (some jkt) else err permission_denied, r.1)
  ]

  -- `register`
  unfoldable pub register :
      Option Str → Option Str → Str → Map Str Value → W → Result AppError Doc × W
  unfolding signup_data byte_len
  register id email password profile w = elim (keep_if (λ s. not (is_empty s)) (or_else id email)) [
    | none ↦ (err (bad_request (str "id/email required")), w)
    | some uid ↦
        if ltb (byte_len password) cfg.password_min_length
        then (
          err (
              bad_request (
                str "password must be at least "
                ++ crypto.to_text cfg.password_min_length
                ++ str " characters")),
          w,
        )
        else elim (db.get cfg.users_collection uid w) [
          | err _ ↦ (err store_error, w)
          | ok (some _) ↦ (err already_exists, w)
          | ok none ↦
              let clash : Result AppError Bool = elim (keep_if (λ s. not (is_empty s)) email) [
                | none ↦ ok false
                | some e ↦ elim (db.list cfg.users_collection (where_eq email_field e none) w) [
                  | err _ ↦ err store_error
                  | ok rows ↦ ok (any (λ d. not (str_eq d.id uid)) rows)
                ]
              ] in
              elim clash [
                | err e ↦ (err e, w)
                | ok true ↦ (err already_exists, w)
                | ok false ↦ elim (crypto.hash_password password) [
                  | err e ↦ (err e, w)
                  | ok hash ↦
                      let r =
                        db.insert cfg.users_collection
                          (record { id = uid; contents = signup_data cfg.attrs email hash profile })
                          w in
                      (hide r.0, r.1)
                ]
              ]
        ]
  ]

  -- `login`: the state is the database and the replay cache
  unfoldable pub login :
      Str
      → Str
      → Option DpopRequest
      → ℕ
      → ℕ
      → Str
      → Str
      → W × ReplayCache
      → Result AppError (AuthContext × SessionTokens) × (W × ReplayCache)
  unfolding find_user mint bind_dpop ctx_of text_of attrs_of
  login name password dpop now t refresh id (w, replay) = elim (find_user name w) [
    | err e ↦ (err e, (w, replay))
    | ok d ↦ elim (text_of password_field d) [
      | none ↦ (err permission_denied, (w, replay))
      | some stored ↦
          if not (crypto.verify_password password stored)
          then (err permission_denied, (w, replay))
          else let ctx_uid = str "local:" ++ d.id in
            let bound = bind_dpop dpop t replay in
            elim bound.0 [
              | err e ↦ (err e, (w, bound.1))
              | ok cnf ↦
                  let r =
                    mint d.id ctx_uid (text_of email_field d) cnf (attrs_of cfg.attrs d) now refresh
                      id w in
                  (
                    elim r.0 [
                      | err e ↦ err e
                      | ok tokens ↦ ok (ctx_of cfg.attrs ctx_uid d, tokens)
                    ],
                    (r.1, bound.1),
                  )
            ]
    ]
  ]

  -- `login_external`: an account of another provider, found or created
  unfoldable pub login_external :
      Str
      → Option Str
      → Map Str Value
      → ℕ
      → Str
      → Str
      → W
      → Result AppError (AuthContext × SessionTokens) × W
  unfolding mint ctx_of text_of attrs_of Map.remove Map.insert
  login_external provider_uid email profile now refresh id w =
      let fresh = Map.remove password_field profile in
      let contents : Map Str Value = elim email [
        | none ↦ fresh
        | some e ↦ Map.insert email_field (string e) fresh
      ] in
      let account : Result AppError Doc × W = elim (db.get cfg.users_collection provider_uid w) [
        | err _ ↦ (err store_error, w)
        | ok (some d) ↦ (ok d, w)
        | ok none ↦
            let r =
              db.insert cfg.users_collection (record { id = provider_uid; contents = contents })
                w in
            (hide r.0, r.1)
      ] in
      elim account.0 [
        | err e ↦ (err e, account.1)
        | ok d ↦
            let r =
              mint d.id d.id (or_else email (text_of email_field d)) none (attrs_of cfg.attrs d) now
                refresh id account.1 in
            (elim r.0 [ err e ↦ err e | ok tokens ↦ ok (ctx_of cfg.attrs d.id d, tokens) ], r.1)
      ]

  -- `check_dpop`, unless proofs are off; `verify_access_proof` is `verify_proof` with the hash of the
  -- access token
  unfoldable pub check_dpop :
      (DpopRequest → Str → Option (Str × Str))
      → Bool
      → DpopRequest
      → Str
      → Option Str
      → ℕ
      → ReplayCache
      → Result AppError Unit × ReplayCache
  unfolding Replay.check str_eq
  check_dpop verify_access_proof off d access_token expected_jkt t replay =
      if off then (ok tt, replay) else elim (verify_access_proof d access_token) [
        | none ↦ (err permission_denied, replay)
        | some (jkt, jti) ↦
            if is_some_and expected_jkt (λ e. not (str_eq jkt e))
            then (err permission_denied, replay)
            else let r = Replay.check replay jti t in
              (if r.0 then ok tt else err permission_denied, r.1)
      ]
