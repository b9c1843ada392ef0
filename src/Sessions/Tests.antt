-- ===== src/Sessions/Tests.antt =====
-- Accounts and sessions on concrete stores.
use hakobackend.Base.{
  ◌≡◌, refl, true, false, ◌||◌, Option, none, some, [], ◌∷◌, ◌++◌, arith, any, ok, err, is_ok,
  nat_Eq, Str, str, str_eq, str_eq_iff, str_Eq, pair_Eq,
}
use hakobackend.Base.Map
use hakobackend.Base.Map.{
  Map, get-insert, get-remove, Unique, get-retain, insert-Unique, remove-Unique, retain-Unique,
}
use hakobackend.Json.{Number, pos_int, number, string}
use hakobackend.Policy.Rule.{Doc}
use hakobackend.Query.{Order, doc_matches, matches_cursor, sort_and_limit}
use hakobackend.Database.{AppError, permission_denied, Database}
use hakobackend.Text.{byte_len}
use hakobackend.Base.{Result}
use hakobackend.Sessions.{email_field}
use hakobackend.Sessions.{
  sessions, password_field, refresh_hash, prev_hash, Crypto, Config, text_of, expired, signup_data,
  reuse_revoked, gone,
}
use hakobackend.Sessions.Accounts.{find_user, login, register}
use hakobackend.Sessions.Refresh.{session_by, revoke_user, refresh_classified}
use hakobackend.Sessions.Signup
use hakobackend.Sessions.Refusals
use hakobackend.Sessions.Refusals.{Answers}
use hakobackend.Sessions.Rotation
use hakobackend.Sessions.Revocation
use hakobackend.Sessions.Revocation.{at_session}
use hakobackend.Sessions.Rotation.{IsHolder}
use hakobackend.Sessions.Rows.{carries}
use hakobackend.Database.Keyed.{IsKeyed}
use hakobackend.Database.Memory.{Store, docs_in, select, memory}

program : Unit {0}
unfolding session_by select sort_and_limit doc_matches matches_cursor Map.get str_eq text_of expired
program = tt

-- a digest and a signature that the tests can read
abbrev crypto : Crypto
crypto = record {
  sha_hex = λ s. str "h" ++ s;
  verify_password = λ p h. str_eq p h;
  hash_password = λ p. ok (str "h" ++ p);
  to_text = λ n. n ∷ [];
  encode = λ c. some c.sub;
  verify_proof = λ d. some (str "jkt", d.proof);
}

abbrev cfg : Config
cfg = record {
  access_ttl_secs = 900;
  refresh_ttl_secs = 86400;
  password_min_length = 8;
  users_collection = str "users";
  attrs = str "role" ∷ [];
}

abbrev no_cmp : Number → Number → Option Order
no_cmp a b = none

abbrev db : Database Store
db = memory no_cmp true

abbrev ann : Doc
ann = record { id = str "ann"; contents = (password_field, string (str "secret")) ∷ [] }

abbrev users : Store
users = ((str "users", str "ann"), ann) ∷ []

-- a session whose token is `t`
abbrev session : Doc
session = record {
  id = str "s1";
  contents =
      (str "uid", string (str "ann"))
      ∷ (refresh_hash, string (str "ht"))
      ∷ (str "expires_at", number (pos_int 100))
      ∷ [];
}

abbrev store : Store
store = ((sessions, str "s1"), session) ∷ users

get-signup_data_example :
    Map.get
      (str "role")
      (signup_data (str "role" ∷ []) none (str "hash") ((str "role", string (str "service")) ∷ []))
    ≡ none
unfolding program any
get-signup_data_example =
    Signup.get-signup_data (str "role" ∷ []) none (str "hash")
      ((str "role", string (str "service")) ∷ []) (str "role")

answers : Answers db crypto cfg users
answers = record { get = λ id. refl; list = λ q. refl; insert = λ d. refl }

bob_refused :
    is_ok
      (login db crypto cfg (str "bob") (str "guess") none 10 5 (str "r") (str "s") (users, [])).0
    ≡ false
unfolding program login find_user docs_in
bob_refused = refl

login-refused_example :
    login db crypto cfg (str "bob") (str "guess") none 10 5 (str "r") (str "s") (users, [])
    ≡ (err permission_denied, (users, []))
login-refused_example =
    Refusals.login-refused db crypto cfg (str "bob") (str "guess") 10 5 (str "r") (str "s") users []
      answers (λ c. refl) bob_refused

keyed : IsKeyed store
unfolding program
keyed = (refl, refl, (refl, (refl, (refl, tt))), (refl, refl, (refl, tt), tt))

get-revoke_user_example :
    Map.get (sessions, str "s1") (revoke_user db crypto cfg (str "ann") store).1 ≡ none
unfolding program
get-revoke_user_example =
    Revocation.get-revoke_user no_cmp true crypto cfg (str "ann") sessions (str "s1") store keyed

only_session :
    (i : Str)
    → at_session (λ d. carries refresh_hash (str "ht") d || carries prev_hash (str "ht") d) store i
      ≡ true
    → i ≡ str "s1"
unfolding program
only_session i h = ground (arith, str_eq_iff (str "s1") i)

holder : IsHolder no_cmp true crypto cfg (str "ht") session store
unfolding program
holder = record { stored = refl; current = refl; alone = only_session }

refreshed :
    is_ok (refresh_classified db crypto cfg (str "t") none 10 5 (str "u") (store, [])).0 ≡ true
unfolding program refresh_classified docs_in
refreshed = refl

refresh_classified-replayed_example :
    let once = refresh_classified db crypto cfg (str "t") none 10 5 (str "u") (store, []) in
    let twice = refresh_classified db crypto cfg (str "t") none 20 6 (str "v") once.1 in
    (twice.0 ≡ err reuse_revoked)
    × ((i : Str) → at_session (carries (str "uid") (str "ann")) twice.1.0 i ≡ false)
unfolding program
refresh_classified-replayed_example =
    Rotation.refresh_classified-replayed no_cmp true crypto cfg (str "t") (str "u") (str "v")
      (str "ann") none none 10 5 20 6 session store [] keyed holder refl
      (λ e. absurd (ground (arith, e))) refreshed

-- a token that is two rotations old is taken for an unknown one
old_token :
    let once = refresh_classified db crypto cfg (str "t") none 10 5 (str "u") (store, []) in
    let twice = refresh_classified db crypto cfg (str "u") none 20 6 (str "v") once.1 in
    (refresh_classified db crypto cfg (str "t") none 30 7 (str "w") twice.1).0 ≡ err gone
unfolding program refresh_classified docs_in Map.extend
old_token = refl

-- the account of a victim, who logs in by e-mail
abbrev victim : Doc
victim = record {
  id = str "v";
  contents = (password_field, string (str "hpassword1")) ∷ (email_field, string (str "v@x")) ∷ [];
}

abbrev victims : Store
victims = ((str "users", str "v"), victim) ∷ []

abbrev squatted : Result AppError Doc × Store
squatted = register db crypto cfg (some (str "v@x")) none (str "password2") [] victims

-- Somebody signs up with the victim's e-mail address as his id: then the victim cannot log in by it.
email_squatted :
    (is_ok
        (login db crypto cfg
          (str "v@x")
          (str "hpassword1")
          none
          10
          5
          (str "r")
          (str "s")
          (victims, [])).0
      ≡ true)
    × (is_ok squatted.0 ≡ true)
    × ((login db crypto cfg
          (str "v@x")
          (str "hpassword1")
          none
          10
          5
          (str "r")
          (str "s")
          (squatted.1, [])).0
        ≡ err permission_denied)
unfolding program login register docs_in find_user byte_len
email_squatted = (refl, refl, refl)
