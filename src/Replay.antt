-- ===== src/Replay.antt =====
-- crates/hakobackend-auth-local/src/dpop.rs: the cache that refuses a DPoP proof seen before.
-- Instants are nanoseconds; the caller holds the lock around `check`.
mod Tests
use hakobackend.Base.{
  ℕ, zero, suc, ◌+◌, ◌-◌, ◌*◌, ◌/◌, ◌%◌, ◌^◌, ◌≤◌, ◌<◌, min, max, ◌≡◌, refl, sym, ap, ◌∙◌, subst,
  ◌≢◌, ◌↔◌, ◌⊎◌, inl, inr, Bool, true, false, not, ◌&&◌, ◌||◌, Option, none, some, List, [], ◌∷◌,
  ◌++◌, map, arith, ltb, leb, nat_eq, if◌then◌else◌, ltb→lt, lt→ltb, leb→le, le→leb, nat_eq_iff,
  tests, Bool-cases, Option-cases, length, any, all, keep, take, drop, length-append,
  length-keep-le, any-append, all-append, length-drop-le, All, filter_map, and_then, is_some,
  is_some_and, unwrap_or, or_else, keep_if, first, Result, ok, err, ◌>>=◌, ◌>>◌, guard, is_ok, Eq,
  ◌==◌, eq_refl, nat_Eq, Str, str, str_eq, str_eq_iff, str_Eq, pair_eq, pair_eq_iff, pair_Eq,
}
use hakobackend.Base.Map
use hakobackend.Base.Map.{
  Map, get-insert, get-remove, Unique, get-retain, insert-Unique, remove-Unique, retain-Unique,
}
use hakobackend.Text.{
  has, strip_prefix, starts_with, push_first, split, split_once, join, is_empty, byte_len,
  is_alphanumeric, is_whitespace, split_whitespace, trim, trim_matches,
}
use hakobackend.Text.Split.{
  join-split, split_of_free, split-append, split-join, split_once-append, split_once_sound,
  strip_prefix_sound, strip_prefix-append,
}
use hakobackend.Text.Order.{
  str_lt, str_lt_irrefl, str_lt_trans, str_lt_antisymm, str_lt_asymm, not_str_lt_trans,
}
use hakobackend.Json.{
  Number, pos_int, neg_int, float, Value, null, bool, number, string, array, object, Items, Fields,
  to_list, of_list, to_map, get_field, insert_field, remove_field, of_map, as_str, as_array,
  as_object, as_i64, is_array, is_object, number_eq, value_eq, items_eq, fields_eq,
}
use hakobackend.Json.Int.{ℤ, pos, negsuc, pos_part, neg_part, leb_ℤ}
use hakobackend.Json.Laws.{get_field-insert_field, get_field-remove_field, get_field-of_map}

-- `REPLAY_CAP`
abbrev pub replay_cap : ℕ
replay_cap = 10_000

-- `IAT_PAST_SECS` and `IAT_FUTURE_SECS`
abbrev pub iat_past_secs : ℕ
iat_past_secs = 300

abbrev pub iat_future_secs : ℕ
iat_future_secs = 30

-- `REPLAY_TTL`
abbrev pub replay_ttl : ℕ
replay_ttl = (iat_past_secs + 60) * 1_000_000_000

-- `ReplayCache`: the end of each proof's memory
abbrev pub ReplayCache : Type 0
ReplayCache = Map Str ℕ

-- the memory that is not over
unfoldable pub live : ℕ → ReplayCache → ReplayCache
unfolding Map.retain
live now seen = Map.retain (λ _ t. ltb now t) seen

-- `ReplayCache::check`: whether the proof is accepted, and the cache after it
unfoldable pub check : ReplayCache → Str → ℕ → Bool × ReplayCache
unfolding live Map.get Map.insert
check seen jti now =
    if leb replay_cap (length (live now seen))
    then (false, live now seen)
    else (not (Map.contains jti (live now seen)), Map.insert jti (now + replay_ttl) (live now seen))

-- checks, as they come
unfoldable pub check_all : ReplayCache → List (Str × ℕ) → ReplayCache
unfolding check
check_all seen [] = seen
check_all seen ((jti, now) ∷ checks) = check_all (check seen jti now).1 checks

-- What the cache knows of a proof until `limit`.
record IsKnown (jti : Str) (limit : ℕ) (seen : ReplayCache) : Type 0 where
  unique : Unique seen
  until : ℕ
  entry : Map.get jti seen ≡ some until
  long : limit ≤ until

live-IsKnown :
    (jti : Str) (limit now : ℕ) (seen : ReplayCache)
    → now < limit
    → IsKnown jti limit seen
    → IsKnown jti limit (live now seen)
unfolding live
live-IsKnown jti limit now seen h k = record {
  unique = retain-Unique (λ _ t. ltb now t) seen k.unique;
  until = k.until;
  entry =
      let later : ltb now k.until ≡ true = ground (arith, k.long) in
      get-retain (λ _ t. ltb now t) jti seen k.unique ∙ rw (k.entry, later) refl;
  long = k.long;
}

insert-IsKnown :
    (jti other : Str) (limit t : ℕ) (seen : ReplayCache)
    → limit ≤ t
    → IsKnown jti limit seen
    → IsKnown jti limit (Map.insert other t seen)
insert-IsKnown jti other limit t seen h k = elim (Bool-cases (str_eq other jti)) [
  | inl same ↦ record {
    unique = insert-Unique other t seen k.unique;
    until = t;
    entry = get-insert other jti t seen ∙ rw same refl;
    long = h;
  }
  | inr differ ↦ record {
    unique = insert-Unique other t seen k.unique;
    until = k.until;
    entry = get-insert other jti t seen ∙ rw differ k.entry;
    long = k.long;
  }
]

check-IsKnown :
    (jti other : Str) (start now : ℕ) (seen : ReplayCache)
    → start ≤ now
    → now < start + replay_ttl
    → IsKnown jti (start + replay_ttl) seen
    → IsKnown jti (start + replay_ttl) (check seen other now).1
unfolding check
check-IsKnown jti other start now seen le h k =
    let k' = live-IsKnown jti (start + replay_ttl) now seen h k in
    elim (Bool-cases (leb replay_cap (length (live now seen)))) [
      | inl full ↦ rw full k'
      | inr room ↦ rw room (
          insert-IsKnown jti other (start + replay_ttl) (now + replay_ttl) (live now seen)
            (omega arith) k')
    ]

-- Each of the checks comes at `start` or later, and less than the cache's memory later.
abbrev pub During : ℕ → List (Str × ℕ) → Type 0
During start checks = All (λ (c : Str × ℕ). (start ≤ c.1) × (c.1 < start + replay_ttl)) checks

check_all-IsKnown :
    (jti : Str) (start : ℕ) (seen : ReplayCache) (checks : List (Str × ℕ))
    → During start checks
    → IsKnown jti (start + replay_ttl) seen
    → IsKnown jti (start + replay_ttl) (check_all seen checks)
unfolding check_all
check_all-IsKnown jti start seen [] d k = k
check_all-IsKnown jti start seen ((other, now) ∷ checks) d k =
    check_all-IsKnown jti start (check seen other now).1 checks d.1
      (check-IsKnown jti other start now seen d.0.0 d.0.1 k)

accepted-IsKnown :
    (jti : Str) (start : ℕ) (seen : ReplayCache)
    → Unique seen
    → (check seen jti start).0 ≡ true
    → IsKnown jti (start + replay_ttl) (check seen jti start).1
unfolding check live
accepted-IsKnown jti start seen u accepted =
    elim (Bool-cases (leb replay_cap (length (live start seen)))) [
      | inl full ↦ absurd (ground arith)
      | inr room ↦
          unfold check in
          rw (room, check)
            (record {
              unique =
                  insert-Unique jti (start + replay_ttl) (live start seen)
                    (retain-Unique (λ _ t. ltb start t) seen u);
              until = start + replay_ttl;
              entry =
                  get-insert jti jti (start + replay_ttl) (live start seen) ∙ rw (eq_refl jti) refl;
              long = omega arith;
            })
    ]

-- A proof that was accepted is refused for as long as the cache's memory lasts, whatever other
-- proofs come in between and even when the cache is full.
pub check-replayed :
    (seen : ReplayCache) (jti : Str) (start : ℕ) (checks : List (Str × ℕ)) (later : ℕ)
    → Unique seen
    → (check seen jti start).0 ≡ true
    → During start checks
    → later < start + replay_ttl
    → (check (check_all (check seen jti start).1 checks) jti later).0 ≡ false
check-replayed seen jti start checks later u accepted d h =
    let k =
      check_all-IsKnown jti start (check seen jti start).1 checks d
        (accepted-IsKnown jti start seen u accepted) in
    let k' =
      live-IsKnown jti (start + replay_ttl) later (check_all (check seen jti start).1 checks) h k in
    unfold check in
    elim (Bool-cases
      (leb replay_cap (length (live later (check_all (check seen jti start).1 checks))))) [
        | inl full ↦ rw full refl
        | inr room ↦ rw (room, k'.entry) refl
      ]

-- `u64::saturating_add`
abbrev pub saturating_add : ℕ → ℕ → ℕ
saturating_add a b = min (a + b) (2 ^ 64 - 1)

-- the `iat` test of `verify_proof`, at the second `now`
abbrev pub is_fresh : ℕ → ℕ → Bool
is_fresh iat now =
    not (ltb (saturating_add now iat_future_secs) iat || ltb (saturating_add iat iat_past_secs) now)

-- `now_secs()` on a clock whose zero is `epoch` nanoseconds after the Unix epoch
abbrev pub unix : ℕ → ℕ → ℕ
unix epoch t = (t + epoch) / 1_000_000_000

-- The cache remembers a proof for longer than its `iat` passes.
fresh-window :
    (iat epoch start later : ℕ)
    → iat + iat_past_secs < 2 ^ 64
    → is_fresh iat (unix epoch start) ≡ true
    → is_fresh iat (unix epoch later) ≡ true
    → later < start + replay_ttl
fresh-window iat epoch start later small h h' = ground arith

-- A proof passes once: when its `iat` passes at two times and it was accepted at the first, it is
-- refused at the second, whatever other proofs came in between.
pub check-once :
    (seen : ReplayCache) (jti : Str) (iat epoch start : ℕ) (checks : List (Str × ℕ)) (later : ℕ)
    → Unique seen
    → iat + iat_past_secs < 2 ^ 64
    → is_fresh iat (unix epoch start) ≡ true
    → (check seen jti start).0 ≡ true
    → During start checks
    → is_fresh iat (unix epoch later) ≡ true
    → (check (check_all (check seen jti start).1 checks) jti later).0 ≡ false
check-once seen jti iat epoch start checks later u small h accepted d h' =
    check-replayed seen jti start checks later u accepted d
      (fresh-window iat epoch start later small h h')
