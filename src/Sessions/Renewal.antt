-- ===== src/Sessions/Renewal.antt =====
-- The store once a session is rotated.
use hakobackend.Base.{
  ℕ, ◌≡◌, refl, ◌∙◌, inl, inr, Bool, true, Option, some, arith, if◌then◌else◌, Bool-cases,
  Option-cases, is_ok, Result-cases, nat_Eq, Str, str, str_eq, str_eq_iff, str_Eq, pair_Eq,
}
use hakobackend.Base.Map
use hakobackend.Base.Map.{
  Map, get-insert, get-remove, Unique, get-retain, insert-Unique, remove-Unique, retain-Unique,
}
use hakobackend.Json.{Number, string}
use hakobackend.Policy.Rule.{Doc}
use hakobackend.Query.{Order}
use hakobackend.Database.{Database}
use hakobackend.Replay.{ReplayCache}
use hakobackend.Sessions.{
  sessions, email_field, refresh_hash, prev_hash, DpopRequest, Crypto, Config, text_of, expired,
  attrs_of,
}
use hakobackend.Sessions.Accounts.{access_claims, bind_dpop}
use hakobackend.Sessions.Refresh.{rotated, reissue, rotate, refresh}
use hakobackend.Coalesce.Extend.{get-extend}
use hakobackend.Database.Memory.{Store, merged, memory}
use hakobackend.Sessions.Revocation.{at_session}

module _ (number_cmp : Number → Number → Option Order) (native : Bool) (crypto : Crypto)
    (cfg : Config) where
  abbrev db : Database Store
  db = memory number_cmp native

  -- the document that `rotate` stores
  abbrev pub renewed : Doc → Str → Str → Doc
  renewed session hash refresh =
      merged true (some session) (rotated db crypto cfg session hash refresh)

  pub get-renewed :
      (f : Str) (session : Doc) (hash refresh : Str)
      → Unique session.contents
      → Map.get f (renewed session hash refresh).contents ≡ (
          if str_eq refresh_hash f
          then some (string (crypto.sha_hex refresh))
          else if str_eq prev_hash f
          then some (string hash)
          else Map.get f session.contents)
  get-renewed f session hash refresh u =
      let inner = Map.insert prev_hash (string hash) session.contents in
      get-extend f session.contents
        (Map.insert refresh_hash (string (crypto.sha_hex refresh)) inner)
        (insert-Unique refresh_hash (string (crypto.sha_hex refresh)) inner
          (insert-Unique prev_hash (string hash) session.contents u))
      ∙ rw
          (
            get-insert refresh_hash f (string (crypto.sha_hex refresh)) inner,
            get-insert prev_hash f (string hash) session.contents,
          )
          (elim (Option-cases (Map.get f session.contents)) [
            | inl e ↦ rw e (ground arith)
            | inr (v, e) ↦ rw e (ground arith)
          ])

  pub text_of-renewed :
      (f : Str) (session : Doc) (hash refresh : Str)
      → Unique session.contents
      → text_of f (renewed session hash refresh) ≡ (
          if str_eq refresh_hash f
          then some (crypto.sha_hex refresh)
          else if str_eq prev_hash f
          then some hash
          else text_of f session)
  unfolding text_of
  text_of-renewed f session hash refresh u =
      rw (get-renewed f session hash refresh u) (ground arith)

  pub reissue-store :
      (session : Doc) (uid : Str) (dpop : Option DpopRequest) (now t : ℕ) (refresh : Str)
      (w : Store) (replay : ReplayCache)
      → (reissue db crypto cfg session uid dpop now t refresh (w, replay)).1.0 ≡ w
  unfolding reissue
  reissue-store session uid dpop now t refresh w replay =
      elim (Option-cases (Map.get (cfg.users_collection, uid) w)) [
        | inl e ↦ rw (e, reissue) refl
        | inr (d, e) ↦ elim (Result-cases (bind_dpop db crypto cfg dpop t replay).0) [
          | inr (_, b) ↦ rw (e, b, reissue) refl
          | inl (cnf, b) ↦
              elim (Option-cases (
                crypto.encode (
                  access_claims db crypto cfg uid (text_of email_field d) cnf (attrs_of cfg.attrs d)
                    now))) [
                      | inl j ↦ rw (e, b, j, reissue) refl
                      | inr (jwt, j) ↦ rw (e, b, j, reissue) refl
                    ]
        ]
      ]

  -- the state once a session is rotated
  abbrev pub renewed_store : Doc → Str → Str → Store → Store
  renewed_store session hash refresh store =
      Map.insert (sessions, session.id) (renewed session hash refresh) store

  pub rotate-store :
      (session : Doc) (hash : Str) (dpop : Option DpopRequest) (now t : ℕ) (refresh : Str)
      (store : Store) (replay : ReplayCache)
      → Map.get (sessions, session.id) store ≡ some session
      → is_ok (rotate db crypto cfg session hash dpop now t refresh (store, replay)).0 ≡ true
      → (rotate db crypto cfg session hash dpop now t refresh (store, replay)).1.0
        ≡ renewed_store session hash refresh store
  unfolding rotate
  rotate-store session hash dpop now t refresh store replay stored h =
      elim (Bool-cases (expired session now)) [
        | inl e ↦ absurd (let h' = rw (e, rotate) at h in ground arith)
        | inr e ↦ elim (Option-cases (text_of (str "uid") session)) [
          | inl u ↦ absurd (let h' = rw (e, u, rotate) at h in ground arith)
          | inr (uid, u) ↦
              rw (e, u, stored, rotate)
                (reissue-store session uid dpop now t refresh
                  (renewed_store session hash refresh store) replay)
        ]
      ]

  pub at_session-renewed_store :
      (p : Doc → Bool) (session : Doc) (hash refresh : Str) (store : Store) (i : Str)
      → at_session p (renewed_store session hash refresh store) i
        ≡ (if str_eq session.id i then p (renewed session hash refresh) else at_session p store i)
  at_session-renewed_store p session hash refresh store i =
      rw
        (
          get-insert (sessions, session.id) (sessions, i) (renewed session hash refresh) store,
          (str_eq_iff sessions sessions).1 refl,
        )
        (elim (Bool-cases (str_eq session.id i)) [ inl e ↦ rw e refl | inr e ↦ rw e refl ])
