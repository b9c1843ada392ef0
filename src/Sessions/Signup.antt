-- ===== src/Sessions/Signup.antt =====
-- What a new account holds of the profile that its owner sent.
use hakobackend.Base.{
  ◌≡◌, refl, ◌∙◌, ◌&&◌, Option, none, some, List, [], ◌∷◌, arith, if◌then◌else◌, any, and_then,
  is_some, nat_Eq, Str, str_eq, str_Eq, pair_Eq,
}
use hakobackend.Base.Map
use hakobackend.Base.Map.{
  Map, get-insert, get-remove, Unique, get-retain, insert-Unique, remove-Unique, retain-Unique,
}
use hakobackend.Json.{Value, string}
use hakobackend.Sessions.{password_field, email_field, remove_all, signup_data}

get-remove_all :
    (f : Str) (fs : List Str) (m : Map Str Value)
    → Map.get f (remove_all fs m) ≡ (if any (λ g. str_eq g f) fs then none else Map.get f m)
unfolding any
get-remove_all f [] m = refl
get-remove_all f (g ∷ fs) m =
    get-remove_all f fs (Map.remove g m) ∙ rw (get-remove g f m) (ground arith)

-- A new account holds the hash of its password, the e-mail that was given, none of the fields that
-- become claims, and for the rest the profile: nobody signs up with a role or with a hash of his own.
pub get-signup_data :
    (attrs : List Str) (email : Option Str) (hash : Str) (profile : Map Str Value) (f : Str)
    → Map.get f (signup_data attrs email hash profile) ≡ (
        if str_eq email_field f && is_some email
        then and_then email (λ e. some (string e))
        else if str_eq password_field f
        then some (string hash)
        else if any (λ g. str_eq g f) attrs
        then none
        else Map.get f profile)
unfolding signup_data
get-signup_data attrs none hash profile f =
    let stripped = remove_all attrs (Map.remove password_field profile) in
    get-insert password_field f (string hash) stripped
    ∙ rw
        (
          get-remove_all f attrs (Map.remove password_field profile),
          get-remove password_field f profile,
        )
        (ground arith)
get-signup_data attrs (some e) hash profile f =
    let stripped = remove_all attrs (Map.remove password_field profile) in
    get-insert email_field f (string e) (Map.insert password_field (string hash) stripped)
    ∙ rw
        (
          get-insert password_field f (string hash) stripped,
          get-remove_all f attrs (Map.remove password_field profile),
          get-remove password_field f profile,
        )
        (ground arith)
