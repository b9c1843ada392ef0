-- ===== src/TokenCache/Tests.antt =====
-- Runs of the token cache, and its theorems at concrete inputs.
use hakobackend.Base.{
  ◌+◌, ◌*◌, min, ◌≡◌, refl, Option, none, some, [], ◌∷◌, arith, ltb, if◌then◌else◌, nat_Eq, Str,
  str, str_eq, str_Eq, pair_Eq,
}
use hakobackend.Text.{has}
use hakobackend.Json.{Value}
use hakobackend.Policy.Rule.{AuthContext}
use hakobackend.TokenCache.{second, idle, TokenCache, ttl_of, get, put, remove}
use hakobackend.TokenCache.Decode.{b64url_decode, jwt_exp}
use hakobackend.TokenCache.Answers
use hakobackend.TokenCache.Expiry
use hakobackend.TokenCache.Answers.{IsValid}
use hakobackend.TokenCache.Expiry.{get_all}

program : Unit {0}
unfolding get put jwt_exp remove get_all str_eq b64url_decode has
program = tt

-- a hash and a parser: the text itself, and none
abbrev digest : Str → Str
digest s = s

abbrev from_slice : Str → Option Value
from_slice s = none

abbrev empty : TokenCache
empty j = []

abbrev opaque : Str
opaque = str "opaque-token"

abbrev other : Str
other = str "other"

abbrev user : Option AuthContext
user = some (record { uid = str "local:u1"; extra = [] })

abbrev stored : TokenCache
stored = put digest from_slice empty opaque user 0 5

foo : b64url_decode (str "Zm9v") ≡ some (str "foo")
unfolding program
foo = refl

fixed :
    ((get digest stored opaque (59 * second)).0 ≡ some user)
    × ((get digest stored opaque (61 * second)).0 ≡ none)
unfolding program
fixed = (refl, refl)

get-put_example :
    (get digest stored opaque (59 * second)).0 ≡ (elim (ttl_of from_slice opaque user 0) [
      | none ↦ (get digest empty opaque (59 * second)).0
      | some ttl ↦ if ltb (59 * second) (5 + min ttl idle) then some user else none
    ])
get-put_example = Answers.get-put digest from_slice empty opaque user 0 5 (59 * second)

stored-IsValid : IsValid 6 (stored 15)
unfolding program
stored-IsValid = record { unique = (refl, tt); past = λ key e h. ground arith }

get-get_all_example :
    (get digest (get_all digest stored ((opaque, 9) ∷ (opaque, 10) ∷ [])) opaque (3601 * second)).0
    ≡ none
unfolding program
get-get_all_example =
    Expiry.get-get_all digest from_slice empty opaque user 0 5 (60 * second)
      ((opaque, 9) ∷ (opaque, 10) ∷ []) (3601 * second) refl (omega arith)
