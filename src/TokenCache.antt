-- ===== src/TokenCache.antt =====
-- crates/hakobackend-server/src/tokcache.rs: the cache of resolved tokens. Instants and durations
-- are nanoseconds, and `duration_since` stops at 0. Each operation holds the lock of one shard
-- from its first read to its last write.
pub mod Decode
pub mod Answers
pub mod Expiry
mod Tests
use hakobackend.Base.{
  ℕ, zero, suc, ◌+◌, ◌-◌, ◌*◌, ◌/◌, ◌%◌, ◌^◌, ◌≤◌, ◌<◌, min, max, ◌≡◌, refl, sym, ap, ◌∙◌, subst,
  ◌≢◌, ◌↔◌, ◌⊎◌, inl, inr, Bool, true, false, not, ◌&&◌, ◌||◌, Option, none, some, List, [], ◌∷◌,
  ◌++◌, map, arith, ltb, leb, nat_eq, if◌then◌else◌, ltb→lt, lt→ltb, leb→le, le→leb, nat_eq_iff,
  tests, Bool-cases, Option-cases, length, any, all, keep, take, drop, length-append,
  length-keep-le, any-append, all-append, length-drop-le, All, filter_map, and_then, is_some,
  is_some_and, unwrap_or, or_else, keep_if, first, Result, ok, err, ◌>>=◌, ◌>>◌, guard, is_ok, Eq,
  ◌==◌, eq_refl, nat_Eq, Str, str, str_eq, str_eq_iff, str_Eq, pair_eq, pair_eq_iff, pair_Eq,
}
use hakobackend.Base.Map
use hakobackend.Base.Map.{
  Map, get-insert, get-remove, Unique, get-retain, insert-Unique, remove-Unique, retain-Unique,
}
use hakobackend.Text.{
  has, strip_prefix, starts_with, push_first, split, split_once, join, is_empty, byte_len,
  is_alphanumeric, is_whitespace, split_whitespace, trim, trim_matches,
}
use hakobackend.Text.Split.{
  join-split, split_of_free, split-append, split-join, split_once-append, split_once_sound,
  strip_prefix_sound, strip_prefix-append,
}
use hakobackend.Text.Order.{
  str_lt, str_lt_irrefl, str_lt_trans, str_lt_antisymm, str_lt_asymm, not_str_lt_trans,
}
use hakobackend.Json.{
  Number, pos_int, neg_int, float, Value, null, bool, number, string, array, object, Items, Fields,
  to_list, of_list, to_map, get_field, insert_field, remove_field, of_map, as_str, as_array,
  as_object, as_i64, is_array, is_object, number_eq, value_eq, items_eq, fields_eq,
}
use hakobackend.Json.Int.{ℤ, pos, negsuc, pos_part, neg_part, leb_ℤ}
use hakobackend.Json.Laws.{get_field-insert_field, get_field-remove_field, get_field-of_map}
use hakobackend.Policy.Rule.{AuthContext}
use hakobackend.TokenCache.Decode.{jwt_exp}

abbrev pub second : ℕ
second = 1_000_000_000

abbrev pub max_ttl : ℕ
max_ttl = 3600 * second

abbrev pub fixed_ttl : ℕ
fixed_ttl = 60 * second

abbrev pub neg_ttl : ℕ
neg_ttl = 30 * second

abbrev pub idle : ℕ
idle = 300 * second

abbrev pub cap : ℕ
cap = 50_000

abbrev pub shard_count : ℕ
shard_count = 16

pub record Entry : Type 0 where
  pub ctx : Option AuthContext
  pub exp_at : ℕ
  pub last : ℕ

abbrev pub Shard : Type 0
Shard = Map Str Entry

-- `TokenCache`, less the clock: the array of the shards
abbrev pub TokenCache : Type 0
TokenCache = ℕ → Shard

-- `shard(key)`: the first byte of the hash
abbrev pub shard : Str → ℕ
shard key = unwrap_or (first key) 0 % shard_count

-- `self.shards[i] = s`
abbrev pub set_shard : ℕ → Shard → TokenCache → TokenCache
set_shard i s c j = if nat_eq i j then s else c j

-- too old, or idle for too long
abbrev pub is_stale : ℕ → Entry → Bool
is_stale now e = leb e.exp_at now || leb idle (now - e.last)

-- the time to live of an outcome: none for a positive one that has expired already; `unix` is
-- `now_unix()`
unfoldable pub ttl_of : (Str → Option Value) → Str → Option AuthContext → ℕ → Option ℕ
ttl_of from_slice token none unix = some neg_ttl
ttl_of from_slice token (some ctx) unix = elim (jwt_exp from_slice token) [
  | none ↦ some fixed_ttl
  | some exp ↦ if leb exp unix then none else some (min ((exp - unix) * second) max_ttl)
]

-- lazy eviction under pressure: entries idle for ten minutes
unfoldable pub evict : Str → ℕ → Shard → Shard
unfolding Map.get Map.retain
evict key now s =
    if not (Map.contains key s) && leb (max (cap / shard_count) 1) (length s)
    then Map.retain (λ _ e. ltb (now - e.last) (600 * second)) s
    else s

-- `digest` is SHA-256 and `from_slice` the JSON parser, from other crates.
module _ (digest : Str → Str) where
  -- `TokenCache::get`: the answer, and the cache after it
  unfoldable pub get : TokenCache → Str → ℕ → Option (Option AuthContext) × TokenCache
  unfolding Map.get Map.insert Map.remove
  get c token now =
      let key = digest token in
      let s = c (shard key) in
      elim (Map.get key s) [
        | none ↦ (none, c)
        | some e ↦
            if is_stale now e
            then (none, set_shard (shard key) (Map.remove key s) c)
            else (some e.ctx, set_shard (shard key) (Map.insert key (record e { last = now }) s) c)
      ]

  -- `TokenCache::remove`
  unfoldable pub remove : TokenCache → Str → TokenCache
  unfolding Map.remove
  remove c token =
      let key = digest token in set_shard (shard key) (Map.remove key (c (shard key))) c

  -- `TokenCache::put`
  unfoldable pub put :
      (Str → Option Value) → TokenCache → Str → Option AuthContext → ℕ → ℕ → TokenCache
  unfolding ttl_of evict Map.insert
  put from_slice c token ctx unix now = elim (ttl_of from_slice token ctx unix) [
    | none ↦ c
    | some ttl ↦
        let key = digest token in
        let s = evict key now (c (shard key)) in
        set_shard (shard key)
          (Map.insert key (record { ctx = ctx; exp_at = now + ttl; last = now }) s) c
  ]

-- `TokenCache::clear`
abbrev pub clear : TokenCache → TokenCache
clear c j = []
