-- ===== src/Endpoints/Proofs.antt =====
-- A proof that was accepted with a request is worth nothing with a second one.
use hakobackend.Base.{
  ℕ, ◌+◌, ◌<◌, ◌≡◌, refl, sym, ap, ◌∙◌, inl, inr, Bool, true, false, not, Option, none, some, List,
  arith, if◌then◌else◌, Bool-cases, is_some, is_some_and, nat_Eq, Str, str_eq, str_Eq, pair_Eq,
}
use hakobackend.Base.Map.{Unique}
use hakobackend.Policy.Rule.{AuthContext}
use hakobackend.Database.{Database}
use hakobackend.Replay.{ReplayCache}
use hakobackend.Sessions.{DpopRequest, Crypto, Config}
use hakobackend.Sessions.Accounts.{check_dpop}
use hakobackend.Replay
use hakobackend.Replay.{During, check_all, replay_ttl, check-replayed}
use hakobackend.Endpoints.Tokens.{
  DpopMode, off, accept, require, is_off, is_local, proved, enforce_dpop,
}

kept : (b : Bool) (ctx : Option AuthContext) → is_some (if b then ctx else none) ≡ true → b ≡ true
kept b ctx h = ground arith

module _ {W : Type 0} (db : Database W) (crypto : Crypto) (cfg : Config)
    (verify_access_proof : DpopRequest → Str → Option (Str × Str))
    (bound_jkt : Str → Option Str) where
  enforce_dpop-proved :
      (mode : DpopMode) (d : DpopRequest) (token : Str) (ctx : Option AuthContext) (t : ℕ)
      (replay : ReplayCache)
      → is_off mode ≡ false
      → is_local ctx ≡ true
      → enforce_dpop db crypto cfg verify_access_proof bound_jkt true mode
          (some d)
          (some token)
          ctx
          t
          replay
        ≡ (let r =
              proved db crypto cfg verify_access_proof bound_jkt mode (some d) token t replay in
            ((if r.0 then ctx else none), r.1))
  unfolding enforce_dpop
  enforce_dpop-proved off d token ctx t replay m h = absurd (ground arith)
  enforce_dpop-proved accept d token ctx t replay m h = rw (h, enforce_dpop) refl
  enforce_dpop-proved require d token ctx t replay m h = rw (h, enforce_dpop) refl

  proved-check :
      (mode : DpopMode) (d : DpopRequest) (token jkt jti : Str) (t : ℕ) (replay : ReplayCache)
      → is_off mode ≡ false
      → verify_access_proof d token ≡ some (jkt, jti)
      → (proved db crypto cfg verify_access_proof bound_jkt mode (some d) token t replay).0 ≡ true
      → ((Replay.check replay jti t).0 ≡ true)
        × ((proved db crypto cfg verify_access_proof bound_jkt mode (some d) token t replay).1
            ≡ (Replay.check replay jti t).1)
  unfolding proved check_dpop
  proved-check mode d token jkt jti t replay m v h =
      elim (Bool-cases (is_some_and (bound_jkt token) (λ e. not (str_eq jkt e)))) [
        | inl b ↦ absurd (let h' = rw (m, v, b, proved, check_dpop) at h in ground arith)
        | inr b ↦ elim (Bool-cases (Replay.check replay jti t).0) [
          | inr c ↦ absurd (let h' = rw (m, v, b, c, proved, check_dpop) at h in ground arith)
          | inl c ↦ (c, rw (m, v, b, proved, check_dpop) refl)
        ]
      ]

  proved-refused :
      (mode : DpopMode) (d : DpopRequest) (token jkt jti : Str) (t : ℕ) (replay : ReplayCache)
      → is_off mode ≡ false
      → verify_access_proof d token ≡ some (jkt, jti)
      → (Replay.check replay jti t).0 ≡ false
      → (proved db crypto cfg verify_access_proof bound_jkt mode (some d) token t replay).0 ≡ false
  proved-refused mode d token jkt jti t replay m v c =
      elim (Bool-cases
        (proved db crypto cfg verify_access_proof bound_jkt mode (some d) token t replay).0) [
          | inl h ↦
              absurd
                (let seen = (proved-check mode d token jkt jti t replay m v h).0 in ground arith)
          | inr h ↦ h
        ]

  -- Unless proofs are off: where the local issuer's caller was kept for his proof, the same request
  -- with the same proof is anonymous for as long as the replay cache remembers, whatever other
  -- proofs come in between.
  pub enforce_dpop-replayed :
      (mode : DpopMode) (d : DpopRequest) (token jkt jti : Str) (ctx : Option AuthContext) (t : ℕ)
      (checks : List (Str × ℕ)) (later : ℕ) (replay : ReplayCache)
      → is_off mode ≡ false
      → is_local ctx ≡ true
      → verify_access_proof d token ≡ some (jkt, jti)
      → Unique replay
      → is_some
          (enforce_dpop db crypto cfg verify_access_proof bound_jkt true mode
            (some d)
            (some token)
            ctx
            t
            replay).0
        ≡ true
      → During t checks
      → later < t + replay_ttl
      → let once =
          enforce_dpop db crypto cfg verify_access_proof bound_jkt true mode
            (some d)
            (some token)
            ctx
            t
            replay in
        (enforce_dpop db crypto cfg verify_access_proof bound_jkt true mode
          (some d)
          (some token)
          ctx
          later
          (check_all once.1 checks)).0
        ≡ none
  enforce_dpop-replayed mode d token jkt jti ctx t checks later replay m l v u h during soon =
      let p = proved db crypto cfg verify_access_proof bound_jkt mode (some d) token t replay in
      let first_time = enforce_dpop-proved mode d token ctx t replay m l in
      let accepted : p.0 ≡ true = kept p.0 ctx (ap (λ r. is_some r.0) (sym first_time) ∙ h) in
      let seen = proved-check mode d token jkt jti t replay m v accepted in
      let cache = check_all (Replay.check replay jti t).1 checks in
      let no =
        proved-refused mode d token jkt jti later cache m v
          (check-replayed replay jti t checks later u seen.0 during soon) in
      ap
        (λ c.
          (enforce_dpop db crypto cfg verify_access_proof bound_jkt true mode (some d) (some token)
            ctx later (check_all c checks)).0)
        (ap (λ r. r.1) first_time ∙ seen.1)
      ∙ ap (λ r. r.0) (enforce_dpop-proved mode d token ctx later cache m l)
      ∙ rw no refl
