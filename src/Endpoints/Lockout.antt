-- ===== src/Endpoints/Lockout.antt =====
-- After enough wrong passwords no password of that account is looked at.
use hakobackend.Base.{
  ℕ, ◌+◌, ◌^◌, ◌≤◌, ◌<◌, ◌≡◌, refl, ap, ◌∙◌, subst, inl, inr, true, Option, none, some, List, [],
  ◌∷◌, arith, Bool-cases, Option-cases, length, and_then, is_some, Result-cases, nat_Eq, Str,
  str_Eq, pair_Eq,
}
use hakobackend.Base.Map
use hakobackend.Base.Map.{
  Map, get-insert, get-remove, Unique, get-retain, insert-Unique, remove-Unique, retain-Unique,
}
use hakobackend.Json.{Fields, to_map, as_object}
use hakobackend.Database.{Database}
use hakobackend.Guard
use hakobackend.Guard.{Guard, second}
use hakobackend.Sessions.{Crypto, Config}
use hakobackend.Sessions.Accounts.{login}
use hakobackend.Endpoints.{
  Settings, login_fail, too_many, invalid_credentials, Desk, Attempt, credentials, log, try_login,
  auth_login,
}
use hakobackend.Guard.Lockout.{fail_all, Within, last_of, locked_secs-fail_all}

-- the name that an attempt is for
unfoldable pub name_of : Attempt → Option Str
unfolding credentials
name_of a = and_then (as_object a.body) (λ fs. and_then (credentials (to_map fs)) (λ c. some c.0))

-- the body that names it
data Named (a : Attempt) (name : Str) : Type 0 where
  named :
      (fs : Fields) (password : Str)
      → as_object a.body ≡ some fs
      → credentials (to_map fs) ≡ some (name, password)
      → Named a name

body_with : (a : Attempt) (name : Str) → name_of a ≡ some name → Named a name
unfolding name_of
body_with a name n = elim (Option-cases (as_object a.body)) [
  | inl o ↦ absurd (let n' = rw o at n in ground arith)
  | inr (fs, o) ↦ elim (Option-cases (credentials (to_map fs))) [
    | inl c ↦ absurd (let n' = rw (o, c) at n in ground arith)
    | inr ((l, password), c) ↦
        let same : l ≡ name = (let n' = rw (o, c) at n in ground arith) in
        named fs password o (subst (λ x. credentials (to_map fs) ≡ some (x, password)) same c)
  ]
]

module _ {W : Type 0} (db : Database W) (crypto : Crypto) (cfg : Config) (settings : Settings) where
  -- attempts for one name, one after the other, that are answered "invalid credentials"; the list
  -- has the times at which they failed
  pub data Failures (name : Str) : List ℕ → Desk W → Desk W → Type 0 where
    no_more : (d : Desk W) → Failures name [] d d
    failed :
        (a : Attempt) (ts : List ℕ) (d e : Desk W)
        → name_of a ≡ some name
        → (auth_login db crypto cfg settings a d).0 ≡ invalid_credentials
        → Failures name ts (auth_login db crypto cfg settings a d).1 e
        → Failures name (a.failed_at ∷ ts) d e

  try_login-fail :
      (a : Attempt) (name password : Str) (d : Desk W)
      → (try_login db crypto cfg settings a name password d).0 ≡ invalid_credentials
      → (try_login db crypto cfg settings a name password d).1.guard
        ≡ (Guard.fail d.guard name a.failed_at).0
  unfolding try_login
  try_login-fail a name password d h =
      elim (Result-cases
        (login db crypto cfg name password a.dpop a.unix a.proved_at a.refresh a.session_id
          (d.world, d.replay)).0) [
            | inl (x, e) ↦ absurd (let h' = rw (e, try_login) at h in cc)
            | inr (_, e) ↦ elim (Option-cases (Guard.fail d.guard name a.failed_at).1) [
              | inl f ↦ rw (e, f, try_login) refl
              | inr (retry, f) ↦ rw (e, f, try_login) refl
            ]
          ]

  auth_login-fail :
      (a : Attempt) (name : Str) (d : Desk W)
      → name_of a ≡ some name
      → (auth_login db crypto cfg settings a d).0 ≡ invalid_credentials
      → (auth_login db crypto cfg settings a d).1.guard ≡ (Guard.fail d.guard name a.failed_at).0
  unfolding auth_login
  auth_login-fail a name d n h = elim (Bool-cases settings.local_active) [
    | inr off ↦ absurd (let h' = rw (off, auth_login) at h in cc)
    | inl on ↦ elim (body_with a name n) [
      | named fs password o c ↦ elim (Option-cases (Guard.locked_secs d.guard name a.looked_at)) [
        | inr (retry, k) ↦ absurd (let h' = rw (on, o, c, k, auth_login) at h in cc)
        | inl k ↦
            let h' = rw (on, o, c, k, auth_login) at h in
            rw (on, o, c, k, auth_login) (try_login-fail a name password d h')
      ]
    ]
  ]

  guard-Failures :
      (name : Str) (ts : List ℕ) (d e : Desk W)
      → Failures name ts d e
      → e.guard ≡ fail_all d.guard name ts
  unfolding fail_all
  guard-Failures name ts d e (no_more _) = refl
  guard-Failures name ts d e (failed a us _ _ n h later) =
      guard-Failures name us (auth_login db crypto cfg settings a d).1 e later
      ∙ ap (λ g. fail_all g name us) (auth_login-fail a name d n h)

  auth_login-locked :
      (a : Attempt) (name : Str) (d : Desk W)
      → settings.local_active ≡ true
      → name_of a ≡ some name
      → is_some (Guard.locked_secs d.guard name a.looked_at) ≡ true
      → (retry : ℕ) × (auth_login db crypto cfg settings a d
          ≡ (too_many retry, log (login_fail name true) d))
  unfolding auth_login
  auth_login-locked a name d on n h = elim (body_with a name n) [
    | named fs password o c ↦ elim (Option-cases (Guard.locked_secs d.guard name a.looked_at)) [
      | inl k ↦ absurd (let h' = rw k at h in ground arith)
      | inr (retry, k) ↦ (retry, rw (on, o, c, k, auth_login) refl)
    ]
  ]

  -- Where a name that the guard does not know fails at these times, each less than a window after
  -- the one before, and at least `max_attempts` times, an attempt for it within a window of the
  -- last failure is answered "too many", whatever its password, and neither the database nor the
  -- replay cache nor the guard changes.
  pub auth_login-too_many :
      (name : Str) (t : ℕ) (ts : List ℕ) (d e : Desk W) (a : Attempt)
      → settings.local_active ≡ true
      → 0 < d.guard.max_attempts
      → Unique d.guard.entries
      → Map.get name d.guard.entries ≡ none
      → Within d.guard.window t ts
      → length ts + 1 < 2 ^ 32
      → Failures name (t ∷ ts) d e
      → name_of a ≡ some name
      → d.guard.max_attempts ≤ length ts + 1
      → a.looked_at < last_of t ts + d.guard.window
      → (retry : ℕ) × (auth_login db crypto cfg settings a e
          ≡ (too_many retry, log (login_fail name true) e))
  auth_login-too_many name t ts d e a on some_limit u new w room failures n enough soon =
      let locked = locked_secs-fail_all d.guard name t ts a.looked_at some_limit u new w room in
      auth_login-locked a name e on n
        (rw (guard-Failures name (t ∷ ts) d e failures, locked) (ground arith))
