-- ===== src/Policy/Tests.antt =====
-- Runs of the policy engine, and its theorems at concrete inputs.
use hakobackend.Base.{
  ℕ, ◌≡◌, refl, ◌↔◌, true, false, Option, none, some, [], ◌∷◌, arith, any, nat_Eq, Str, str, str_eq,
  str_eq_iff, str_Eq, pair_Eq,
}
use hakobackend.Base.Map
use hakobackend.Base.Map.{
  Map, get-insert, get-remove, Unique, get-retain, insert-Unique, remove-Unique, retain-Unique,
}
use hakobackend.Text.{strip_prefix}
use hakobackend.Policy.Parse.{rule_from, deserialize}
use mathlib.Core.List.{Mem}
use hakobackend.Policy.Order
use hakobackend.Policy.Precedence
use hakobackend.Policy.Access
use hakobackend.Policy.Access.{svc_context, strip_write, is_open, remove_all}
use hakobackend.Policy.RuleText
use hakobackend.Policy.RuleText.{IsParsed, IsFields}
use hakobackend.Policy.Rule.{
  public, auth, deny, claim, Method, Defaults, CollectionPolicy, empty_policy, PolicyFile,
  AuthContext, Doc,
}
use hakobackend.Policy.Resolve.{beats, candidate, best_of, find, governing}
use hakobackend.Policy.Decide.{is_self, eval, svc_allows, allow}

program : Unit {0}
unfolding Map.get Map.remove str_eq strip_prefix find best_of beats candidate governing allow eval
    deserialize is_self svc_context strip_write remove_all any
program = tt

abbrev readable : CollectionPolicy
readable = record empty_policy { read = some public }

abbrev writable : CollectionPolicy
writable = record empty_policy { write = some auth }

abbrev one_star : Str
one_star = str "a/*/c"

abbrev two_stars : Str
two_stars = str "*/*/c"

abbrev defaults : Defaults
defaults = record { read = deny; write = deny }

abbrev file : PolicyFile
file = record {
  defaults = defaults;
  collections = (two_stars, writable) ∷ (one_star, readable) ∷ [];
}

abbrev reordered : PolicyFile
reordered = record {
  defaults = defaults;
  collections = (one_star, readable) ∷ (two_stars, writable) ∷ [];
}

file-Unique : Unique file.collections
unfolding program
file-Unique = (refl, (refl, tt))

reordered-Unique : Unique reordered.collections
unfolding program
reordered-Unique = (refl, (refl, tt))

same_entries : (k : Str) → Map.get k file.collections ≡ Map.get k reordered.collections
unfolding Map.get
same_entries k =
    let apart : str_eq two_stars one_star ≡ false = unfold str_eq in refl in
    ground (arith, str_eq_iff one_star k, str_eq_iff two_stars k, str_eq_iff two_stars one_star)

resolves : find file (str "a/1/c") ≡ some readable
unfolding program
resolves = refl

find-order_example : find file (str "a/1/c") ≡ find reordered (str "a/1/c")
find-order_example =
    Order.find-order file reordered (str "a/1/c") file-Unique reordered-Unique same_entries

find_sound_example : Precedence.Resolves file (str "a/1/c") (find file (str "a/1/c"))
find_sound_example = Precedence.find_sound file (str "a/1/c") file-Unique

svc_allows_iff_example :
    (svc_allows (some (svc_context (str "posts:read" ∷ []))) (str "posts") Method.get ≡ true)
    ↔ Mem (str "posts:read") (str "posts:read" ∷ [])
unfolding program
svc_allows_iff_example = Access.svc_allows_iff (str "posts:read" ∷ []) (str "posts") Method.get refl

abbrev caller : AuthContext
caller = record { uid = str "local:u1"; extra = [] }

abbrev profile : Doc
profile = record { id = str "u1"; contents = [] }

abbrev claimed : PolicyFile
claimed = record file {
  collections =
      (
        str "posts",
        record empty_policy {
          write = some (claim (str "role") (str "admin" ∷ []) (str "owner" ∷ []));
        },
      )
      ∷ [];
}

no_float : Str → Option ℕ
no_float s = none

deserialize_sound_example :
    (deny ≡ rule_from no_float (str "nobody"))
    × (deny ≡ deny
        → (strip_prefix (str "claim:") (str "nobody") ≡ none)
          × (strip_prefix (str "fields:") (str "nobody") ≡ none))
unfolding program no_float
deserialize_sound_example = RuleText.deserialize_sound no_float (str "nobody") deny refl
