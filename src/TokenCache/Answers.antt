-- ===== src/TokenCache/Answers.antt =====
-- What the token cache answers: after a store, an eviction, a removal and a flush.
use hakobackend.Base.{
  ℕ, ◌+◌, ◌-◌, ◌*◌, ◌/◌, ◌≤◌, min, max, ◌≡◌, refl, sym, ap, ◌∙◌, ◌≢◌, inl, inr, false, not, ◌&&◌,
  Option, none, some, arith, ltb, leb, nat_eq, if◌then◌else◌, nat_eq_iff, Bool-cases, Option-cases,
  length, and_then, keep_if, eq_refl, nat_Eq, Str, str_eq, str_eq_iff, str_Eq, pair_Eq,
}
use hakobackend.Base.Map
use hakobackend.Base.Map.{
  Map, get-insert, get-remove, Unique, get-retain, insert-Unique, remove-Unique, retain-Unique,
}
use hakobackend.Json.{Value}
use hakobackend.Policy.Rule.{AuthContext}
use hakobackend.TokenCache.{
  second, idle, cap, shard_count, Entry, Shard, TokenCache, shard, set_shard, is_stale, ttl_of,
  evict, get, put, remove,
}

-- No key twice in a shard, and no entry used in the future.
pub record IsValid (now : ℕ) (s : Shard) : Type 0 where
  pub unique : Unique s
  pub past : (key : Str) (e : Entry) → Map.get key s ≡ some e → e.last ≤ now

module _ (digest : Str → Str) where
  -- the entry of a token
  abbrev pub lookup : TokenCache → Str → Option Entry
  lookup c token = Map.get (digest token) (c (shard (digest token)))

  -- what `get` answers for an entry
  abbrev pub answer : ℕ → Option Entry → Option (Option AuthContext)
  answer now found = and_then (keep_if (λ e. not (is_stale now e)) found) (λ e. some e.ctx)

  pub get-answer :
      (c : TokenCache) (token : Str) (now : ℕ)
      → (get digest c token now).0 ≡ answer now (lookup c token)
  unfolding get
  get-answer c token now = elim (Option-cases (lookup c token)) [
    | inl e ↦ rw (e, get) refl
    | inr (e, found) ↦ rw (found, get) (ground arith)
  ]

  get-evict_self :
      (key : Str) (now : ℕ) (s : Shard) → Unique s → Map.get key (evict key now s) ≡ Map.get key s
  unfolding evict
  get-evict_self key now s u =
      ground (arith, get-retain (λ _ (e : Entry). ltb (now - e.last) (600 * second)) key s u)

  answer-evict :
      (key other : Str) (now later : ℕ) (s : Shard)
      → IsValid now s
      → now ≤ later
      → answer later (Map.get other (evict key now s)) ≡ answer later (Map.get other s)
  unfolding evict
  answer-evict key other now later s v le =
      elim (Bool-cases (not (Map.contains key s) && leb (max (cap / shard_count) 1) (length s))) [
        | inr c ↦ rw c refl
        | inl c ↦
            rw (c, get-retain (λ _ (e : Entry). ltb (now - e.last) (600 * second)) other s v.unique)
              (elim (Option-cases (Map.get other s)) [
                | inl e ↦ rw e refl
                | inr (e, found) ↦ let p = v.past other e found in rw found (ground arith)
              ])
      ]

  -- A shard that is put back reads the same where it is the same.
  at_shard :
      {R : Type 0} (f : Option Entry → R) (i j : ℕ) (k : Str) (s : Shard) (c : TokenCache)
      → f (Map.get k s) ≡ f (Map.get k (c i))
      → f (Map.get k (set_shard i s c j)) ≡ f (Map.get k (c j))
  at_shard f i j k s c h = elim (Bool-cases (nat_eq i j)) [
    | inl e ↦ rw e (h ∙ ap (λ n. f (Map.get k (c n))) ((nat_eq_iff i j).0 e))
    | inr e ↦ rw e refl
  ]

  -- A shard that is put back with another entry for one token.
  pub lookup-change :
      (c : TokenCache) (token other : Str) (s : Shard)
      → (str_eq (digest token) (digest other) ≡ false
          → Map.get (digest other) s ≡ Map.get (digest other) (c (shard (digest token))))
      → lookup (set_shard (shard (digest token)) s c) other ≡ (
          if str_eq (digest token) (digest other) then Map.get (digest other) s else lookup c other)
  lookup-change c token other s h = elim (Bool-cases (str_eq (digest token) (digest other))) [
    | inl e ↦
        rw
          (
            e,
            ← (str_eq_iff (digest token) (digest other)).0 e,
            (nat_eq_iff (shard (digest token)) (shard (digest token))).1 refl,
          )
          refl
    | inr e ↦
        rw e
          (at_shard (λ o. o) (shard (digest token)) (shard (digest other)) (digest other) s c (h e))
  ]

  pub lookup-put :
      (from_slice : Str → Option Value) (c : TokenCache) (token : Str) (ctx : Option AuthContext)
      (unix now ttl : ℕ)
      → ttl_of from_slice token ctx unix ≡ some ttl
      → lookup (put digest from_slice c token ctx unix now) token
        ≡ some (record { ctx = ctx; exp_at = now + ttl; last = now })
  unfolding put
  lookup-put from_slice c token ctx unix now ttl h =
      let key = digest token in
      let e : Entry = record { ctx = ctx; exp_at = now + ttl; last = now } in
      let s = evict key now (c (shard key)) in
      rw (h, put, (nat_eq_iff (shard key) (shard key)).1 refl, get-insert key key e s, eq_refl key)
        refl

  module _ (from_slice : Str → Option Value) (c : TokenCache) (token : Str)
      (ctx : Option AuthContext) (unix now : ℕ) where
    -- A stored outcome is answered until its time to live or the idle window has passed. An outcome
    -- that is not stored, a positive one that has expired already, changes no answer.
    pub get-put :
        (later : ℕ)
        → (get digest (put digest from_slice c token ctx unix now) token later).0
          ≡ (elim (ttl_of from_slice token ctx unix) [
            | none ↦ (get digest c token later).0
            | some ttl ↦ if ltb later (now + min ttl idle) then some ctx else none
          ])
    get-put later = elim (Option-cases (ttl_of from_slice token ctx unix)) [
      | inl e ↦ unfold put in rw (e, put) refl
      | inr (ttl, e) ↦
          get-answer (put digest from_slice c token ctx unix now) token later
          ∙ rw (lookup-put from_slice c token ctx unix now ttl e, e) (ground arith)
    ]

    -- A store, with the eviction that it may start, changes the answer for no other token, now or later.
    pub get-put_ne :
        (other : Str) (later : ℕ)
        → IsValid now (c (shard (digest token)))
        → digest token ≢ digest other
        → now ≤ later
        → (get digest (put digest from_slice c token ctx unix now) other later).0
          ≡ (get digest c other later).0
    unfolding put
    get-put_ne other later v ne le =
        get-answer (put digest from_slice c token ctx unix now) other later
        ∙ go
        ∙ sym (get-answer c other later)
      where
        apart : str_eq (digest token) (digest other) ≡ false
        apart = ground (arith, (str_eq_iff (digest token) (digest other)).0)

        go :
            answer later (lookup (put digest from_slice c token ctx unix now) other)
            ≡ answer later (lookup c other)
        go = elim (Option-cases (ttl_of from_slice token ctx unix)) [
          | inl e ↦ rw (e, put) refl
          | inr (ttl, e) ↦
              let key = digest token in
              let s = evict key now (c (shard key)) in
              let w : Entry = record { ctx = ctx; exp_at = now + ttl; last = now } in
              rw (e, put)
                (at_shard (answer later) (shard key) (shard (digest other)) (digest other)
                  (Map.insert key w s) c
                  (rw (get-insert key (digest other) w s, apart)
                    (answer-evict key (digest other) now later (c (shard key)) v le)))
        ]

  -- A removal, the logout, makes a token unknown and changes the answer for no other.
  pub get-removed :
      (c : TokenCache) (token other : Str) (now : ℕ)
      → (get digest (remove digest c token) other now).0
        ≡ (if str_eq (digest token) (digest other) then none else (get digest c other now).0)
  unfolding remove
  get-removed c token other now =
      let key = digest token in
      get-answer (remove digest c token) other now
      ∙ rw
          (
            lookup-change c token other (Map.remove key (c (shard key)))
                (λ e. get-remove key (digest other) (c (shard key)) ∙ rw e refl),
            get-remove key (digest other) (c (shard key)),
            get-answer c other now,
          )
          (ground arith)
