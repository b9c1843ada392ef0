-- ===== src/Guard.antt =====
-- crates/hakobackend-server/src/loginguard.rs: the lockout of an account after repeated failed
-- logins. Instants and durations are nanoseconds; `duration_since` stops at 0. Each operation
-- holds the lock from its first read to its last write and reads the clock once, at `now`.
pub mod Safety
pub mod Lockout
pub mod Capacity
mod Tests
use hakobackend.Base.{
  ℕ, zero, suc, ◌+◌, ◌-◌, ◌*◌, ◌/◌, ◌%◌, ◌^◌, ◌≤◌, ◌<◌, min, max, ◌≡◌, refl, sym, ap, ◌∙◌, subst,
  ◌≢◌, ◌↔◌, ◌⊎◌, inl, inr, Bool, true, false, not, ◌&&◌, ◌||◌, Option, none, some, List, [], ◌∷◌,
  ◌++◌, map, arith, ltb, leb, nat_eq, if◌then◌else◌, ltb→lt, lt→ltb, leb→le, le→leb, nat_eq_iff,
  tests, Bool-cases, Option-cases, length, any, all, keep, take, drop, length-append,
  length-keep-le, any-append, all-append, length-drop-le, All, filter_map, and_then, is_some,
  is_some_and, unwrap_or, or_else, keep_if, first, Result, ok, err, ◌>>=◌, ◌>>◌, guard, is_ok, Eq,
  ◌==◌, eq_refl, nat_Eq, Str, str, str_eq, str_eq_iff, str_Eq, pair_eq, pair_eq_iff, pair_Eq,
}
use hakobackend.Base.Map
use hakobackend.Base.Map.{
  Map, get-insert, get-remove, Unique, get-retain, insert-Unique, remove-Unique, retain-Unique,
}
use hakobackend.Text.{
  has, strip_prefix, starts_with, push_first, split, split_once, join, is_empty, byte_len,
  is_alphanumeric, is_whitespace, split_whitespace, trim, trim_matches,
}
use hakobackend.Text.Split.{
  join-split, split_of_free, split-append, split-join, split_once-append, split_once_sound,
  strip_prefix_sound, strip_prefix-append,
}
use hakobackend.Text.Order.{
  str_lt, str_lt_irrefl, str_lt_trans, str_lt_antisymm, str_lt_asymm, not_str_lt_trans,
}
use hakobackend.Json.{
  Number, pos_int, neg_int, float, Value, null, bool, number, string, array, object, Items, Fields,
  to_list, of_list, to_map, get_field, insert_field, remove_field, of_map, as_str, as_array,
  as_object, as_i64, is_array, is_object, number_eq, value_eq, items_eq, fields_eq,
}
use hakobackend.Json.Int.{ℤ, pos, negsuc, pos_part, neg_part, leb_ℤ}
use hakobackend.Json.Laws.{get_field-insert_field, get_field-remove_field, get_field-of_map}

-- `CAP`
abbrev pub cap : ℕ
cap = 50_000

-- one second
abbrev pub second : ℕ
second = 1_000_000_000

pub record Entry : Type 0 where
  pub fails : ℕ
  pub last : ℕ
  pub locked_until : Option ℕ

-- `LoginGuard`, less the clock
pub record Guard : Type 0 where
  pub max_attempts : ℕ
  pub window : ℕ
  pub entries : Map Str Entry

-- `LoginGuard::with_clock`
unfoldable pub with_clock : ℕ → ℕ → Guard
with_clock max_attempts lockout_secs = record {
  max_attempts = max_attempts;
  window = max lockout_secs 1 * second;
  entries = [];
}

abbrev pub is_off : Guard → Bool
is_off g = nat_eq g.max_attempts 0

abbrev pub window_secs : Guard → ℕ
window_secs g = g.window / second

-- `locked_until.is_some_and(|u| u > now)`
abbrev pub is_locked_at : ℕ → Option ℕ → Bool
is_locked_at now locked_until = is_some_and locked_until (λ until. ltb now until)

-- the chain of `locked_secs` behind the lookup
unfoldable pub secs_left : ℕ → Option ℕ → Option ℕ
secs_left now locked_until =
    and_then (keep_if (λ until. ltb now until) locked_until)
      (λ until. some (max ((until - now) / second) 1))

unfoldable pub locked_secs : Guard → Str → ℕ → Option ℕ
unfolding Map.get secs_left
locked_secs g login now =
    if is_off g
    then none
    else secs_left now (and_then (Map.get login g.entries) (λ e. e.locked_until))

-- entries that the eviction keeps
abbrev pub is_warm : ℕ → ℕ → Entry → Bool
is_warm window now e = ltb (now - e.last) window

-- lazy eviction under pressure
unfoldable pub evict : Guard → Str → ℕ → Map Str Entry
unfolding Map.get Map.retain
evict g login now =
    if not (Map.contains login g.entries) && leb cap (length g.entries)
    then Map.retain (λ _ e. is_warm g.window now e) g.entries
    else g.entries

abbrev pub fresh : ℕ → Entry
fresh now = record { fails = 0; last = now; locked_until = none }

-- the window slid past: a fresh count
unfoldable pub slide : ℕ → ℕ → Entry → Entry
slide window now e =
    if leb window (now - e.last) then record e { fails = 0; locked_until = none } else e

-- one more failure (`fails` is a `u32`), and the lock at the threshold
unfoldable pub strike : ℕ → ℕ → ℕ → Entry → Entry
strike max_attempts window now e =
    let fails = (e.fails + 1) % 2 ^ 32 in
    record {
      fails = fails;
      last = now;
      locked_until = if leb (max max_attempts 1) fails then some (now + window) else e.locked_until;
    }

-- the edge from open to locked
unfoldable pub edge : ℕ → ℕ → Entry → Entry → Option ℕ
edge window now before after =
    if not (is_locked_at now before.locked_until) && is_locked_at now after.locked_until
    then some (window / second)
    else none

-- the entry of `login` once the window has been looked at
unfoldable pub current : Guard → Str → ℕ → Entry
unfolding evict slide
current g login now = slide g.window now (unwrap_or (Map.get login (evict g login now)) (fresh now))

-- `LoginGuard::fail`: the guard after it, and what it returns
unfoldable pub fail : Guard → Str → ℕ → Guard × Option ℕ
unfolding current strike edge Map.insert
fail g login now =
    if is_off g
    then (g, none)
    else let e = current g login now in
      let e' = strike g.max_attempts g.window now e in
      (record g { entries = Map.insert login e' (evict g login now) }, edge g.window now e e')

-- `LoginGuard::clear`
unfoldable pub clear : Guard → Str → Guard
unfolding Map.remove
clear g login = if is_off g then g else record g { entries = Map.remove login g.entries }
