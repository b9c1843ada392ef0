-- ===== src/Sessions/Rotation.antt =====
-- A refresh token that was rotated away, shown again, ends the sessions of its user.
use hakobackend.Base.{
  ℕ, ◌≡◌, refl, sym, ap, ◌∙◌, ◌≢◌, inl, inr, Bool, true, false, ◌||◌, Option, none, some, arith,
  Bool-cases, ok, err, is_ok, nat_Eq, Str, str, str_eq, str_eq_iff, str_Eq, pair_eq_iff, pair_Eq,
}
use hakobackend.Base.Map
use hakobackend.Base.Map.{
  Map, get-insert, get-remove, Unique, get-retain, insert-Unique, remove-Unique, retain-Unique,
}
use hakobackend.Json.{Number}
use hakobackend.Policy.Rule.{Doc}
use hakobackend.Query.{Order}
use hakobackend.Database.{Database}
use hakobackend.Replay.{ReplayCache}
use hakobackend.Sessions.{
  sessions, refresh_hash, prev_hash, DpopRequest, Crypto, Config, text_of, reuse_revoked,
}
use hakobackend.Sessions.Refresh.{
  session_by, revoke_user, rotated, rotate, trap, refresh_classified, refresh,
}
use hakobackend.Sessions.Rows.{carries, refresh_hash-IsPlain, prev_hash-IsPlain}
use hakobackend.Database.Keyed.{IsKeyed, insert-IsKeyed, get-IsKeyed}
use hakobackend.Coalesce.Extend.{extend-Unique}
use hakobackend.Database.Memory.{Store, memory}
use hakobackend.Sessions.Revocation.{
  or_left, or_right, at_session, first-alone, first-nowhere, session_by-first, revoke_user-gone,
}
use hakobackend.Sessions.Renewal.{
  renewed, text_of-renewed, renewed_store, rotate-store, at_session-renewed_store,
}

module _ {W : Type 0} (db : Database W) (crypto : Crypto) (cfg : Config) where
  trap-found :
      (hash uid : Str) (session : Doc) (w : W) (replay : ReplayCache)
      → session_by db crypto cfg prev_hash hash w ≡ ok (some session)
      → text_of (str "uid") session ≡ some uid
      → trap db crypto cfg hash (w, replay)
        ≡ (err reuse_revoked, ((revoke_user db crypto cfg uid w).1, replay))
  unfolding trap
  trap-found hash uid session w replay s u = rw (s, u, trap) refl

  refresh_classified-current :
      (presented : Str) (dpop : Option DpopRequest) (now t : ℕ) (refresh : Str) (session : Doc)
      (w : W) (replay : ReplayCache)
      → session_by db crypto cfg refresh_hash (crypto.sha_hex presented) w ≡ ok (some session)
      → refresh_classified db crypto cfg presented dpop now t refresh (w, replay)
        ≡ rotate db crypto cfg session (crypto.sha_hex presented) dpop now t refresh (w, replay)
  unfolding refresh_classified
  refresh_classified-current presented dpop now t refresh session w replay s =
      rw (s, refresh_classified) refl

  refresh_classified-other :
      (presented : Str) (dpop : Option DpopRequest) (now t : ℕ) (refresh : Str) (w : W)
      (replay : ReplayCache)
      → session_by db crypto cfg refresh_hash (crypto.sha_hex presented) w ≡ ok none
      → refresh_classified db crypto cfg presented dpop now t refresh (w, replay)
        ≡ trap db crypto cfg (crypto.sha_hex presented) (w, replay)
  unfolding refresh_classified
  refresh_classified-other presented dpop now t refresh w replay s = rw (s, refresh_classified) refl

module _ (number_cmp : Number → Number → Option Order) (native : Bool) (crypto : Crypto)
    (cfg : Config) where
  abbrev db : Database Store
  db = memory number_cmp native

  -- `session` is the one that carries this hash, as its current one or as its last one.
  pub record IsHolder (hash : Str) (session : Doc) (store : Store) : Type 0 where
    pub stored : Map.get (sessions, session.id) store ≡ some session
    pub current : carries refresh_hash hash session ≡ true
    pub alone :
        (i : Str)
        → at_session (λ d. carries refresh_hash hash d || carries prev_hash hash d) store i ≡ true
        → i ≡ session.id

  module _ (session : Doc) (hash refresh : Str) (store : Store) (k : IsKeyed store)
      (holder : IsHolder hash session store) where
    -- the session and the store after the exchange
    abbrev changed : Doc
    changed = renewed number_cmp native crypto cfg session hash refresh

    abbrev after : Store
    after = renewed_store number_cmp native crypto cfg session hash refresh store

    fields_once : Unique session.contents
    fields_once = (get-IsKeyed sessions session.id session store k holder.stored).1

    renewed_store-IsKeyed : IsKeyed after
    renewed_store-IsKeyed =
        insert-IsKeyed sessions changed store
          (extend-Unique session.contents (rotated db crypto cfg session hash refresh).contents
            fields_once)
          k

    -- no session has the old hash as its current one
    none_current :
        crypto.sha_hex refresh ≢ hash
        → (i : Str) → at_session (carries refresh_hash hash) after i ≡ false
    unfolding str_eq
    none_current fresh i = elim (Bool-cases (str_eq session.id i)) [
      | inl e ↦
          rw
            (
              at_session-renewed_store number_cmp native crypto cfg (carries refresh_hash hash)
                  session hash refresh store i,
              e,
              text_of-renewed number_cmp native crypto cfg refresh_hash session hash refresh
                  fields_once,
            )
            (ground (arith, str_eq_iff (crypto.sha_hex refresh) hash))
      | inr e ↦
          rw
            (
              at_session-renewed_store number_cmp native crypto cfg (carries refresh_hash hash)
                  session hash refresh store i,
              e,
            )
            (ground (
              arith,
              str_eq_iff session.id i,
              holder.alone i,
              or_left (Map.get (sessions, i) store) (carries refresh_hash hash)
                  (carries prev_hash hash),
            ))
    ]

    -- one session has it as its last one
    one_last : (i : Str) → at_session (carries prev_hash hash) after i ≡ true → i ≡ session.id
    one_last i h = elim (Bool-cases (str_eq session.id i)) [
      | inl e ↦ sym ((str_eq_iff session.id i).0 e)
      | inr e ↦
          let h' =
            rw
              (
                at_session-renewed_store number_cmp native crypto cfg (carries prev_hash hash)
                    session hash refresh store i,
                e,
              )
              at h in
          holder.alone i (
            or_right (Map.get (sessions, i) store) (carries refresh_hash hash)
              (carries prev_hash hash) h')
    ]

    stored_renewed : Map.get (sessions, session.id) after ≡ some changed
    stored_renewed =
        rw
          (
            get-insert (sessions, session.id) (sessions, session.id) changed store,
            (pair_eq_iff (sessions, session.id) (sessions, session.id)).1 refl,
          )
          refl

    renewed-last : carries prev_hash hash changed ≡ true
    unfolding str_eq
    renewed-last =
        rw (text_of-renewed number_cmp native crypto cfg prev_hash session hash refresh fields_once)
          ((str_eq_iff hash hash).1 refl)

    session_by-last : session_by db crypto cfg prev_hash hash after ≡ ok (some changed)
    session_by-last =
        session_by-first number_cmp native crypto cfg prev_hash hash after prev_hash-IsPlain
        ∙ ap ok (
            first-alone (carries prev_hash hash) after session.id changed renewed_store-IsKeyed
              (stored_renewed) renewed-last one_last)

    session_by-current :
        crypto.sha_hex refresh ≢ hash → session_by db crypto cfg refresh_hash hash after ≡ ok none
    session_by-current fresh =
        session_by-first number_cmp native crypto cfg refresh_hash hash after refresh_hash-IsPlain
        ∙ ap ok (
            first-nowhere (carries refresh_hash hash) after renewed_store-IsKeyed
              (none_current fresh))

    renewed-uid :
        (uid : Str)
        → text_of (str "uid") session ≡ some uid
        → text_of (str "uid") changed ≡ some uid
    unfolding str_eq
    renewed-uid uid u =
        text_of-renewed number_cmp native crypto cfg (str "uid") session hash refresh fields_once
        ∙ u

    trap-renewed :
        (uid : Str) (replay : ReplayCache)
        → text_of (str "uid") session ≡ some uid
        → trap db crypto cfg hash (after, replay)
          ≡ (err reuse_revoked, ((revoke_user db crypto cfg uid after).1, replay))
    trap-renewed uid replay u =
        trap-found db crypto cfg hash uid changed after replay session_by-last (renewed-uid uid u)

    session_by-holder : session_by db crypto cfg refresh_hash hash store ≡ ok (some session)
    session_by-holder =
        session_by-first number_cmp native crypto cfg refresh_hash hash store refresh_hash-IsPlain
        ∙ ap ok (
            first-alone (carries refresh_hash hash) store session.id session k holder.stored
              holder.current
              (λ i h. holder.alone i (
                or_left (Map.get (sessions, i) store) (carries refresh_hash hash)
                  (carries prev_hash hash) h)))

  -- A refresh token that was exchanged for a new one and is shown again gives `reuse_revoked`, and
  -- then its user has no session left, whatever happens to the proof and whenever it is. The new
  -- token hashes to something else, and no other session carries the hash.
  pub refresh_classified-replayed :
      (presented refresh refresh' uid : Str) (dpop dpop' : Option DpopRequest) (now t now' t' : ℕ)
      (session : Doc) (store : Store) (replay : ReplayCache)
      → IsKeyed store
      → IsHolder (crypto.sha_hex presented) session store
      → text_of (str "uid") session ≡ some uid
      → crypto.sha_hex refresh ≢ crypto.sha_hex presented
      → is_ok (refresh_classified db crypto cfg presented dpop now t refresh (store, replay)).0
        ≡ true
      → let once = refresh_classified db crypto cfg presented dpop now t refresh (store, replay) in
        let twice = refresh_classified db crypto cfg presented dpop' now' t' refresh' once.1 in
        (twice.0 ≡ err reuse_revoked)
        × ((i : Str) → at_session (carries (str "uid") uid) twice.1.0 i ≡ false)
  refresh_classified-replayed presented refresh refresh' uid dpop dpop' now t now' t' session store
        replay k holder u fresh h =
      let hash = crypto.sha_hex presented in
      let first_time =
        refresh_classified-current db crypto cfg presented dpop now t refresh session store replay
          (session_by-holder session hash refresh store k holder) in
      let h' = rw first_time at h in
      let kept =
        ap (λ r. r.1.0) first_time
        ∙ rotate-store number_cmp native crypto cfg session hash dpop now t refresh store replay
            holder.stored h' in
      let replay' =
        (refresh_classified db crypto cfg presented dpop now t refresh (store, replay)).1.1 in
      let after = renewed_store number_cmp native crypto cfg session hash refresh store in
      let second =
        ap (λ w. refresh_classified db crypto cfg presented dpop' now' t' refresh' (w, replay'))
          kept
        ∙ refresh_classified-other db crypto cfg presented dpop' now' t' refresh' after replay'
            (session_by-current session hash refresh store k holder fresh)
        ∙ trap-renewed session hash refresh store k holder uid replay' u in
      (
        ap (λ r. r.0) second,
        λ i.
            ap (λ r. at_session (carries (str "uid") uid) r.1.0 i) second
            ∙ revoke_user-gone number_cmp native crypto cfg uid after i
                (renewed_store-IsKeyed session hash refresh store k holder),
      )
