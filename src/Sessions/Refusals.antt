-- ===== src/Sessions/Refusals.antt =====
-- A login that is refused does not say why.
use hakobackend.Base.{
  ℕ, ◌≡◌, refl, inl, inr, true, false, Option, none, some, List, [], ◌∷◌, ◌++◌, arith, Bool-cases,
  Option-cases, is_some, Result, ok, err, is_ok, Result-cases, nat_Eq, Str, str, str_Eq, pair_Eq,
}
use hakobackend.Base.Map.{Map}
use hakobackend.Json.{Value}
use hakobackend.Policy.Rule.{Doc}
use hakobackend.Query.{QueryOptions}
use hakobackend.Database.{AppError, permission_denied, Database}
use hakobackend.Replay.{ReplayCache}
use hakobackend.Sessions.{
  sessions, password_field, email_field, AccessClaims, Crypto, Config, where_eq, text_of, attrs_of,
}
use hakobackend.Sessions.Accounts.{find_user, access_claims, new_session, mint, bind_dpop, login}
use hakobackend.Sessions.Refresh.{refresh}

data Succeeds {A : Type 0} (r : Result AppError A) : Type 0 where
  succeeds : (a : A) → r ≡ ok a → Succeeds r

succeeded : {A : Type 0} (r : Result AppError A) → is_ok r ≡ true → Succeeds r
succeeded (ok a) h = succeeds a refl
succeeded (err e) h = absurd (ground arith)

-- the tests of `find_user`
data Matches (rows : List Doc) : Type 0 where
  alone : (d : Doc) → rows ≡ d ∷ [] → Matches rows
  nobody : rows ≡ [] → Matches rows
  several : (c d : Doc) (more : List Doc) → rows ≡ c ∷ d ∷ more → Matches rows

matches : (rows : List Doc) → Matches rows
matches [] = nobody refl
matches (d ∷ []) = alone d refl
matches (c ∷ d ∷ more) = several c d more refl

module _ {W : Type 0} (db : Database W) (crypto : Crypto) (cfg : Config) where
  -- Reads do not fail here, nor does the insertion of a session.
  pub record Answers (w : W) : Type 0 where
    pub get : (id : Str) → is_ok (db.get cfg.users_collection id w) ≡ true
    pub list : (q : QueryOptions) → is_ok (db.list cfg.users_collection q w) ≡ true
    pub insert : (d : Doc) → is_ok (db.insert sessions d w).0 ≡ true

  find_user-refused :
      (name : Str) (w : W)
      → Answers w
      → is_ok (find_user db crypto cfg name w) ≡ false
      → find_user db crypto cfg name w ≡ err permission_denied
  unfolding find_user
  find_user-refused name w a h =
      elim (succeeded (db.get cfg.users_collection name w) (a.get name)) [
        | succeeds (some d) e ↦ absurd (let h' = rw (e, find_user) at h in ground arith)
        | succeeds none e ↦
            elim (succeeded (db.list cfg.users_collection (where_eq email_field name (some 2)) w)
              (a.list (where_eq email_field name (some 2)))) [
                | succeeds rows l ↦ elim (matches rows) [
                  | alone d o ↦ absurd (let h' = rw (e, l, o, find_user) at h in ground arith)
                  | nobody o ↦ rw (e, l, o, find_user) refl
                  | several c d more o ↦ rw (e, l, o, find_user) refl
                ]
              ]
      ]

  mint-is_ok :
      (uid ctx_uid : Str) (email cnf : Option Str) (attrs : Map Str Value) (now : ℕ)
      (refresh id : Str) (w : W)
      → Answers w
      → ((c : AccessClaims) → is_some (crypto.encode c) ≡ true)
      → is_ok (mint db crypto cfg uid ctx_uid email cnf attrs now refresh id w).0 ≡ true
  unfolding mint
  mint-is_ok uid ctx_uid email cnf attrs now refresh id w a encodes =
      elim (Option-cases (crypto.encode (access_claims db crypto cfg uid email cnf attrs now))) [
        | inl e ↦ absurd (
            let c = encodes (access_claims db crypto cfg uid email cnf attrs now) in
            let c' = rw e at c in ground arith)
        | inr (jwt, e) ↦
            let d = new_session db crypto cfg id uid ctx_uid refresh now in
            elim (succeeded (db.insert sessions d w).0 (a.insert d)) [
              | succeeds s i ↦ rw (e, i, mint) refl
            ]
      ]

  -- A login without a proof is refused in one way alone, `permission_denied` and the state as it was,
  -- whether there is no such user, the name fits several, the account has no password or another:
  -- the answer does not tell which names exist. The database and the signature do not fail here.
  pub login-refused :
      (name password : Str) (now t : ℕ) (refresh id : Str) (w : W) (replay : ReplayCache)
      → Answers w
      → ((c : AccessClaims) → is_some (crypto.encode c) ≡ true)
      → is_ok (login db crypto cfg name password none now t refresh id (w, replay)).0 ≡ false
      → login db crypto cfg name password none now t refresh id (w, replay)
        ≡ (err permission_denied, (w, replay))
  unfolding login bind_dpop
  login-refused name password now t refresh id w replay a encodes h =
      elim (Result-cases (find_user db crypto cfg name w)) [
        | inr (_, e) ↦ rw (find_user-refused name w a (rw e refl), login) refl
        | inl (d, e) ↦ elim (Option-cases (text_of password_field d)) [
          | inl p ↦ rw (e, p, login) refl
          | inr (stored, p) ↦ elim (Bool-cases (crypto.verify_password password stored)) [
            | inr v ↦ rw (e, p, v, login) refl
            | inl v ↦
                let minted =
                  mint db crypto cfg d.id (str "local:" ++ d.id) (text_of email_field d) none
                    (attrs_of cfg.attrs d) now refresh id w in
                elim (succeeded minted.0 (
                  mint-is_ok d.id (str "local:" ++ d.id) (text_of email_field d) none
                    (attrs_of cfg.attrs d) now refresh id w a encodes)) [
                      | succeeds tokens m ↦
                          absurd (let h' = rw (e, p, v, m, login) at h in ground arith)
                    ]
          ]
        ]
      ]
