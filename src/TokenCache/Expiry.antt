-- ===== src/TokenCache/Expiry.antt =====
-- How long the token cache remembers an outcome, whatever is looked up in between.
use hakobackend.Base.{
  ℕ, ◌+◌, ◌≤◌, min, ◌≡◌, refl, sym, ap, ◌∙◌, inl, inr, true, Option, none, some, List, [], ◌∷◌,
  arith, Bool-cases, Option-cases, nat_Eq, Str, str_eq, str_eq_iff, str_Eq, pair_Eq,
}
use hakobackend.Base.Map
use hakobackend.Base.Map.{
  Map, get-insert, get-remove, Unique, get-retain, insert-Unique, remove-Unique, retain-Unique,
}
use hakobackend.Json.{Value}
use hakobackend.Policy.Rule.{AuthContext}
use hakobackend.TokenCache.Decode.{jwt_exp}
use hakobackend.TokenCache.{max_ttl, Entry, TokenCache, shard, is_stale, ttl_of, get, put}
use hakobackend.TokenCache.Answers.{lookup, get-answer, lookup-change, lookup-put}

module _ (digest : Str → Str) where
  -- Lookups, as they come.
  unfoldable pub get_all : TokenCache → List (Str × ℕ) → TokenCache
  get_all c [] = c
  get_all c ((token, now) ∷ hits) = get_all (get digest c token now).1 hits

  abbrev Ends : TokenCache → Str → ℕ → Type 0
  Ends c token limit = (e : Entry) → lookup digest c token ≡ some e → e.exp_at ≤ limit

  lookup-same :
      (c : TokenCache) (token other : Str)
      → str_eq (digest other) (digest token) ≡ true
      → lookup digest c other ≡ lookup digest c token
  lookup-same c token other e = rw ((str_eq_iff (digest other) (digest token)).0 e) refl

  exp_of : Option Entry → ℕ
  exp_of none = 0
  exp_of (some e) = e.exp_at

  ttl_of-le :
      (from_slice : Str → Option Value) (token : Str) (ctx : Option AuthContext) (unix ttl : ℕ)
      → ttl_of from_slice token ctx unix ≡ some ttl
      → ttl ≤ max_ttl
  unfolding ttl_of
  ttl_of-le from_slice token none unix ttl h = ground arith
  ttl_of-le from_slice token (some ctx) unix ttl h =
      elim (Option-cases (jwt_exp from_slice token)) [
        | inl e ↦ let h' = rw (e, ttl_of) at h in ground arith
        | inr (exp, e) ↦ let h' = rw (e, ttl_of) at h in ground arith
      ]

  get-Ends :
      (c : TokenCache) (token other : Str) (now limit : ℕ)
      → Ends c token limit
      → Ends (get digest c other now).1 token limit
  unfolding get
  get-Ends c token other now limit h = elim (Option-cases (lookup digest c other)) [
    | inl e ↦ rw (e, get) h
    | inr (w, e) ↦ elim (Bool-cases (is_stale now w)) [
      | inl stale ↦
          rw (e, stale, get)
            (λ e' found. ground (
              arith,
              h e',
              sym (
                    lookup-change digest c other token
                      (Map.remove (digest other) (c (shard (digest other))))
                      (λ d.
                        get-remove (digest other) (digest token) (c (shard (digest other)))
                        ∙ rw d refl))
                  ∙ found,
              get-remove (digest other) (digest token) (c (shard (digest other))),
            ))
      | inr fresh ↦
          rw (e, fresh, get)
            (λ e' found.
              let w' : Entry = record w { last = now } in
              ground (
                arith,
                h e',
                h w,
                e,
                lookup-same c token other,
                sym (
                      lookup-change digest c other token
                        (Map.insert (digest other) w' (c (shard (digest other))))
                        (λ d.
                          get-insert (digest other) (digest token) w' (c (shard (digest other)))
                          ∙ rw d refl))
                    ∙ found,
                get-insert (digest other) (digest token) w' (c (shard (digest other))),
              ))
    ]
  ]

  get_all-Ends :
      (c : TokenCache) (token : Str) (hits : List (Str × ℕ)) (limit : ℕ)
      → Ends c token limit
      → Ends (get_all c hits) token limit
  unfolding get_all
  get_all-Ends c token [] limit h = h
  get_all-Ends c token ((other, now) ∷ hits) limit h =
      get_all-Ends (get digest c other now).1 token hits limit (get-Ends c token other now limit h)

  -- However often a token is asked for, its stored outcome is forgotten once its time to live is over,
  -- which is an hour at most.
  pub get-get_all :
      (from_slice : Str → Option Value) (c : TokenCache) (token : Str) (ctx : Option AuthContext)
      (unix now ttl : ℕ) (hits : List (Str × ℕ)) (later : ℕ)
      → ttl_of from_slice token ctx unix ≡ some ttl
      → now + min ttl max_ttl ≤ later
      → (get digest (get_all (put digest from_slice c token ctx unix now) hits) token later).0
        ≡ none
  unfolding exp_of
  get-get_all from_slice c token ctx unix now ttl hits later h le =
      let c' = put digest from_slice c token ctx unix now in
      let stored = lookup-put digest from_slice c token ctx unix now ttl h in
      let ends = get_all-Ends c' token hits later (λ e found.
        omega (arith, ap exp_of (sym stored ∙ found), ttl_of-le from_slice token ctx unix ttl h)) in
      get-answer digest (get_all c' hits) token later
      ∙ elim (Option-cases (lookup digest (get_all c' hits) token)) [
        | inl e ↦ rw e refl
        | inr (e, found) ↦ let over = ends e found in rw found (ground arith)
      ]
