-- ===== src/Sessions/Refresh.antt =====
-- crates/hakobackend-auth-local/src/lib.rs: refresh tokens, their rotation and their end.
use hakobackend.Base.{
  ℕ, true, Option, none, some, List, [], ◌∷◌, if◌then◌else◌, unwrap_or, first, Result, ok, err,
  nat_Eq, Str, str, str_Eq, pair_Eq,
}
use hakobackend.Base.Map
use hakobackend.Base.Map.{
  Map, get-insert, get-remove, Unique, get-retain, insert-Unique, remove-Unique, retain-Unique,
}
use hakobackend.Json.{string}
use hakobackend.Policy.Rule.{Doc, AuthContext}
use hakobackend.Database.{AppError, permission_denied, Database}
use hakobackend.Replay.{ReplayCache}
use hakobackend.Sessions.{
  sessions, email_field, refresh_hash, prev_hash, DpopRequest, SessionTokens, RefreshDeny, Crypto,
  Config, store_error, where_eq, text_of, expired, attrs_of, ctx_of, reuse_revoked, gone,
}
use hakobackend.Sessions.Accounts.{mint_access, bind_dpop}

module _ {W : Type 0} (db : Database W) (crypto : Crypto) (cfg : Config) where
  -- `session_by`
  unfoldable pub session_by : Str → Str → W → Result AppError (Option Doc)
  session_by f hash w = elim (db.list sessions (where_eq f hash (some 1)) w) [
    | err _ ↦ err store_error
    | ok rows ↦ ok (first rows)
  ]

  -- the loop of `revoke_user`: an error ends it
  unfoldable pub delete_all : List Doc → W → Result AppError Unit × W
  delete_all [] w = (ok tt, w)
  delete_all (s ∷ rows) w =
      let r = db.delete sessions s.id w in
      elim r.0 [ err _ ↦ (err store_error, r.1) | ok _ ↦ delete_all rows r.1 ]

  -- `revoke_user`
  unfoldable pub revoke_user : Str → W → Result AppError Unit × W
  unfolding delete_all
  revoke_user uid w = elim (db.list sessions (where_eq (str "uid") uid none) w) [
    | err _ ↦ (err store_error, w)
    | ok rows ↦ delete_all rows w
  ]

  -- the session once its token is rotated: the old hash stays as a trap
  abbrev pub rotated : Doc → Str → Str → Doc
  rotated session hash refresh = record session {
    contents =
        Map.insert refresh_hash (string (crypto.sha_hex refresh))
          (Map.insert prev_hash (string hash) session.contents);
  }

  -- `refresh_classified` behind the rotation
  unfoldable pub reissue :
      Doc
      → Str
      → Option DpopRequest
      → ℕ
      → ℕ
      → Str
      → W × ReplayCache
      → Result RefreshDeny (AuthContext × SessionTokens) × (W × ReplayCache)
  unfolding bind_dpop text_of attrs_of ctx_of
  reissue session uid dpop now t refresh (w, replay) = elim (db.get cfg.users_collection uid w) [
    | err _ ↦ (err gone, (w, replay))
    | ok none ↦ (err gone, (w, replay))
    | ok (some d) ↦
        let bound = bind_dpop db crypto cfg dpop t replay in
        elim bound.0 [
          | err _ ↦ (err gone, (w, bound.1))
          | ok cnf ↦
              elim (mint_access db crypto cfg uid (text_of email_field d) cnf (attrs_of cfg.attrs d)
                now) [
                  | err _ ↦ (err gone, (w, bound.1))
                  | ok jwt ↦ (
                    ok (
                      ctx_of cfg.attrs (unwrap_or (text_of (str "ctx_uid") session) uid) d,
                      record { access_jwt = jwt; refresh_opaque = refresh },
                    ),
                    (w, bound.1),
                  )
                ]
        ]
  ]

  -- `refresh_classified` for a token that is the current one of a session
  unfoldable pub rotate :
      Doc
      → Str
      → Option DpopRequest
      → ℕ
      → ℕ
      → Str
      → W × ReplayCache
      → Result RefreshDeny (AuthContext × SessionTokens) × (W × ReplayCache)
  unfolding reissue expired text_of Map.insert
  rotate session hash dpop now t refresh (w, replay) =
      if expired session now
      then (err gone, ((db.delete sessions session.id w).1, replay))
      else elim (text_of (str "uid") session) [
        | none ↦ (err gone, (w, replay))
        | some uid ↦
            let r = db.set sessions session.id (rotated session hash refresh) true w in
            elim r.0 [
              | err _ ↦ (err gone, (r.1, replay))
              | ok _ ↦ reissue session uid dpop now t refresh (r.1, replay)
            ]
      ]

  -- `refresh_classified` for a token that is not: a session's last one is a reuse
  unfoldable pub trap :
      Str → W × ReplayCache → Result RefreshDeny (AuthContext × SessionTokens) × (W × ReplayCache)
  unfolding session_by revoke_user text_of
  trap hash (w, replay) = elim (session_by prev_hash hash w) [
    | ok (some session) ↦ (
      err reuse_revoked,
      ((revoke_user (unwrap_or (text_of (str "uid") session) []) w).1, replay),
    )
    | _ ↦ (err gone, (w, replay))
  ]

  -- `refresh_classified`
  unfoldable pub refresh_classified :
      Str
      → Option DpopRequest
      → ℕ
      → ℕ
      → Str
      → W × ReplayCache
      → Result RefreshDeny (AuthContext × SessionTokens) × (W × ReplayCache)
  unfolding session_by rotate trap
  refresh_classified presented dpop now t refresh s =
      let hash = crypto.sha_hex presented in
      elim (session_by refresh_hash hash s.0) [
        | ok (some session) ↦ rotate session hash dpop now t refresh s
        | _ ↦ trap hash s
      ]

  -- `refresh`
  abbrev pub refresh :
      Str
      → Option DpopRequest
      → ℕ
      → ℕ
      → Str
      → W × ReplayCache
      → Result AppError (AuthContext × SessionTokens) × (W × ReplayCache)
  refresh presented dpop now t random s =
      let r = refresh_classified presented dpop now t random s in
      (elim r.0 [ err _ ↦ err permission_denied | ok a ↦ ok a ], r.1)

  -- `logout`
  unfoldable pub logout : Str → W → Result AppError Unit × W
  unfolding session_by
  logout presented w = elim (session_by refresh_hash (crypto.sha_hex presented) w) [
    | err e ↦ (err e, w)
    | ok none ↦ (ok tt, w)
    | ok (some session) ↦
        let r = db.delete sessions session.id w in
        (elim r.0 [ err _ ↦ err store_error | ok _ ↦ ok tt ], r.1)
  ]
