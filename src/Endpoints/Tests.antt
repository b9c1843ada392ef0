-- ===== src/Endpoints/Tests.antt =====
-- The endpoints on concrete requests.
use hakobackend.Base.{
  ℕ, ◌*◌, ◌≡◌, refl, true, false, Option, none, some, [], ◌∷◌, ◌++◌, arith, ok, nat_Eq, Str, str,
  str_eq, str_Eq, pair_Eq,
}
use hakobackend.Base.Map
use hakobackend.Base.Map.{
  Map, get-insert, get-remove, Unique, get-retain, insert-Unique, remove-Unique, retain-Unique,
}
use hakobackend.Text.Order.{str_lt}
use hakobackend.Json.{Number, string, object, insert_field, of_map}
use hakobackend.Policy.Rule.{Doc}
use hakobackend.Database.{Database}
use hakobackend.Guard.{second}
use hakobackend.Sessions.{Crypto, Config, password_field}
use hakobackend.Endpoints.{Settings, login_fail, too_many, Desk, Attempt, log, auth_login}
use hakobackend.Query.{Order}
use hakobackend.Database.Memory.{Store, docs_in, memory}
use hakobackend.Sessions.{DpopRequest}
use hakobackend.Base.{is_some}
use hakobackend.Endpoints.Tokens.{
  require, is_local, enforce_dpop, host_allowed, query_token_allowed,
}
use hakobackend.Endpoints.Proofs
use hakobackend.Replay.{check_all, check}
use hakobackend.Policy.Rule.{AuthContext}
use hakobackend.Endpoints.Lockout
use hakobackend.Endpoints.Lockout.{name_of, Failures, no_more, failed}

program : Unit {0}
unfolding auth_login name_of Map.get Map.insert str_eq insert_field docs_in of_map str_lt
program = tt

-- a digest and a signature that the tests can read
abbrev crypto : Crypto
crypto = record {
  sha_hex = λ s. str "h" ++ s;
  verify_password = λ p h. str_eq p h;
  hash_password = λ p. ok (str "h" ++ p);
  to_text = λ n. n ∷ [];
  encode = λ c. some c.sub;
  verify_proof = λ d. some (str "jkt", d.proof);
}

abbrev cfg : Config
cfg = record {
  access_ttl_secs = 900;
  refresh_ttl_secs = 86400;
  password_min_length = 8;
  users_collection = str "users";
  attrs = str "role" ∷ [];
}

abbrev no_cmp : Number → Number → Option Order
no_cmp a b = none

abbrev db : Database Store
db = memory no_cmp true

abbrev ann : Doc
ann = record { id = str "ann"; contents = (password_field, string (str "secret")) ∷ [] }

abbrev users : Store
users = ((str "users", str "ann"), ann) ∷ []

abbrev settings : Settings
settings = record {
  local_active = true;
  local_register = true;
  local_token_response = false;
  local_cookies = true;
}

abbrev desk : Desk Store
desk = record {
  world = users;
  replay = [];
  guard = record { max_attempts = 2; window = 60 * second; entries = [] };
  tokens = λ j. [];
  audits = [];
  emitted = [];
}

abbrev attempt : Str → ℕ → Attempt
attempt password now = record {
  body =
      object (of_map ((str "login", string (str "ann")) ∷ (str "password", string password) ∷ []));
  dpop = none;
  looked_at = now;
  unix = 10;
  proved_at = now;
  failed_at = now;
  refresh = str "r";
  session_id = str "s";
}

abbrev after : Desk Store
after =
    (auth_login db crypto cfg settings (attempt (str "bad") 2)
      (auth_login db crypto cfg settings (attempt (str "bad") 1) desk).1).1

twice_wrong : Failures db crypto cfg settings (str "ann") (1 ∷ 2 ∷ []) desk after
unfolding program
twice_wrong = failed (attempt (str "bad") 1) (2 ∷ []) desk after refl refl (
    failed (attempt (str "bad") 2) []
      (auth_login db crypto cfg settings (attempt (str "bad") 1) desk).1 after refl refl
      (no_more after))

names_ann : name_of (attempt (str "secret") 3) ≡ some (str "ann")
unfolding program
names_ann = refl

missing : Map.get (str "ann") desk.guard.entries ≡ none
unfolding program
missing = refl

-- the right password comes too late
auth_login-too_many_example :
    (retry : ℕ) × (auth_login db crypto cfg settings (attempt (str "secret") 3) after
      ≡ (too_many retry, log (login_fail (str "ann") true) after))
auth_login-too_many_example =
    Lockout.auth_login-too_many db crypto cfg settings (str "ann") 1 (2 ∷ []) desk after
      (attempt (str "secret") 3) refl (omega arith) tt missing (omega arith, omega arith, tt)
      (omega arith) twice_wrong names_ann (omega arith) (omega arith)

-- a caller of the local issuer
abbrev local_ann : Option AuthContext
local_ann =
    some (record { uid = str "local:ann"; extra = (str "provider", string (str "local")) ∷ [] })

abbrev proof : DpopRequest
proof = record { proof = str "p"; method = str "GET"; uri = str "/x" }

abbrev verify : DpopRequest → Str → Option (Str × Str)
verify d token = some (str "jkt", d.proof)

kept_once :
    is_some
      (enforce_dpop db crypto cfg verify
        (λ t. none)
        true
        require
        (some proof)
        (some (str "t"))
        local_ann
        5
        []).0
    ≡ true
unfolding enforce_dpop Map.get str_eq check
kept_once = refl

ann-is_local : is_local local_ann ≡ true
unfolding is_local Map.get str_eq
ann-is_local = refl

enforce_dpop-replayed_example :
    let once =
      enforce_dpop db crypto cfg verify
        (λ t. none)
        true
        require
        (some proof)
        (some (str "t"))
        local_ann
        5
        [] in
    (enforce_dpop db crypto cfg verify
      (λ t. none)
      true
      require
      (some proof)
      (some (str "t"))
      local_ann
      7
      (check_all once.1 ((str "q", 6) ∷ []))).0
    ≡ none
enforce_dpop-replayed_example =
    Proofs.enforce_dpop-replayed db crypto cfg verify (λ t. none) require proof (str "t")
      (str "jkt") (str "p") local_ann 5 ((str "q", 6) ∷ []) 7 [] refl ann-is_local refl tt kept_once
      ((omega arith, omega arith), tt) (omega arith)

-- A host of the list passes with its port, as does the loopback.
hosts :
    (host_allowed (str "api.test" ∷ []) (some (str "API.test:443")) ≡ true)
    × (host_allowed (str "api.test" ∷ []) (some (str "[::1]:3000")) ≡ true)
    × (host_allowed (str "api.test" ∷ []) (some (str "evil.test")) ≡ false)
unfolding host_allowed
hosts = (refl, refl, refl)

-- The loopback address of IPv6 does not pass where that of IPv4 does.
loopback_missed :
    (query_token_allowed false (some (str "127.0.0.1:3000")) ≡ true)
    × (query_token_allowed false (some (str "[::1]:3000")) ≡ false)
unfolding query_token_allowed
loopback_missed = (refl, refl)
