-- ===== src/Coalesce.antt =====
-- crates/hakobackend-server/src/coalesce.rs: PATCH bodies to one document are merged into one
-- stored write per window. Instants are nanoseconds. The flusher gives up the lock while a write
-- runs: its atomic steps are `take_due`, then one of `written` and `refused` for each entry.
pub mod Extend
pub mod Memory
pub mod Exact
pub mod Runs
pub mod Drain
pub mod Reads
pub mod Gap
mod Tests
use hakobackend.Base.{
  ℕ, zero, suc, ◌+◌, ◌-◌, ◌*◌, ◌/◌, ◌%◌, ◌^◌, ◌≤◌, ◌<◌, min, max, ◌≡◌, refl, sym, ap, ◌∙◌, subst,
  ◌≢◌, ◌↔◌, ◌⊎◌, inl, inr, Bool, true, false, not, ◌&&◌, ◌||◌, Option, none, some, List, [], ◌∷◌,
  ◌++◌, map, arith, ltb, leb, nat_eq, if◌then◌else◌, ltb→lt, lt→ltb, leb→le, le→leb, nat_eq_iff,
  tests, Bool-cases, Option-cases, length, any, all, keep, take, drop, length-append,
  length-keep-le, any-append, all-append, length-drop-le, All, filter_map, and_then, is_some,
  is_some_and, unwrap_or, or_else, keep_if, first, Result, ok, err, ◌>>=◌, ◌>>◌, guard, is_ok, Eq,
  ◌==◌, eq_refl, nat_Eq, Str, str, str_eq, str_eq_iff, str_Eq, pair_eq, pair_eq_iff, pair_Eq,
}
use hakobackend.Base.Map
use hakobackend.Base.Map.{
  Map, get-insert, get-remove, Unique, get-retain, insert-Unique, remove-Unique, retain-Unique,
}
use hakobackend.Text.{
  has, strip_prefix, starts_with, push_first, split, split_once, join, is_empty, byte_len,
  is_alphanumeric, is_whitespace, split_whitespace, trim, trim_matches,
}
use hakobackend.Text.Split.{
  join-split, split_of_free, split-append, split-join, split_once-append, split_once_sound,
  strip_prefix_sound, strip_prefix-append,
}
use hakobackend.Text.Order.{
  str_lt, str_lt_irrefl, str_lt_trans, str_lt_antisymm, str_lt_asymm, not_str_lt_trans,
}
use hakobackend.Json.{
  Number, pos_int, neg_int, float, Value, null, bool, number, string, array, object, Items, Fields,
  field, no_fields, to_list, of_list, to_map, get_field, insert_field, remove_field, of_map, as_str,
  as_array, as_object, as_i64, is_array, is_object, number_eq, value_eq, items_eq, fields_eq,
}
use hakobackend.Json.Int.{ℤ, pos, negsuc, pos_part, neg_part, leb_ℤ}
use hakobackend.Json.Laws.{get_field-insert_field, get_field-remove_field, get_field-of_map}

abbrev pub Body : Type 0
Body = Map Str Value

-- a collection and a document
abbrev pub Key : Type 0
Key = Str × Str

-- `COALESCE_WINDOW`
abbrev pub window : ℕ
window = 100_000_000

-- `MAX_FLUSH_FAILS`
abbrev pub max_flush_fails : ℕ
max_flush_fails = 10

pub record Pending : Type 0 where
  pub body : Body
  pub first_at : ℕ
  pub fails : ℕ

-- `Coalescer`
abbrev pub Coalescer : Type 0
Coalescer = Map Key Pending

-- `is_empty()`, of a map
abbrev pub is_idle {ℓ} : {K V : Type ℓ} → Map K V → Bool
is_idle [] = true
is_idle (_ ∷ _) = false

-- `Coalescer::has`
abbrev pub has_pending : Coalescer → Key → Bool
has_pending pending key = Map.contains key pending

-- `s.contains(pat)`
unfoldable pub contains_str : Str → Str → Bool
unfolding starts_with
contains_str pat [] = starts_with pat []
contains_str pat (c ∷ s) = starts_with pat (c ∷ s) || contains_str pat s

-- `obj.keys().any(|k| k.contains('.'))`
unfoldable pub any_dotted : Fields → Bool
unfolding has
any_dotted no_fields = false
any_dotted (field k v fs) = has b'.' k || any_dotted fs

-- `Coalescer::eligible`; `to_text` is `serde_json::to_string`
unfoldable pub eligible : (Value → Option Str) → Value → Bool
unfolding any_dotted contains_str
eligible to_text body = elim (as_object body) [
  | none ↦ false
  | some fs ↦
      if any_dotted fs
      then false
      else not (is_some_and (to_text body) (contains_str (str "__type__")))
]

abbrev pub new_pending : ℕ → Pending
new_pending now = record { body = []; first_at = now; fails = 0 }

-- `Coalescer::merge`
unfoldable pub merge : Key → Body → ℕ → Coalescer → Coalescer
unfolding Map.get Map.insert Map.extend
merge key body now pending =
    let p = unwrap_or (Map.get key pending) (new_pending now) in
    Map.insert key (record p { body = Map.extend p.body body }) pending

-- `Coalescer::overlay`
unfoldable pub overlay : Key → Option Body → Coalescer → Option Body
unfolding Map.get Map.extend
overlay key stored pending =
    and_then (Map.get key pending) (λ p. some (Map.extend (unwrap_or stored []) p.body))

-- an entry on its way to the store: its body and its failures
abbrev pub Due : Type 0
Due = Body × ℕ

abbrev pub is_due : ℕ → Pending → Bool
is_due now p = leb window (now - p.first_at)

unfoldable pub due_of : ℕ → Coalescer → Map Key Due
due_of now [] = []
due_of now ((key, p) ∷ pending) =
    let rest = due_of now pending in if is_due now p then (key, (p.body, p.fails)) ∷ rest else rest

-- the first step of `flush_due`: what is due, and what waits on
unfoldable pub take_due : ℕ → Coalescer → Map Key Due × Coalescer
unfolding due_of Map.retain
take_due now pending = (due_of now pending, Map.retain (λ _ p. not (is_due now p)) pending)

-- the step after a failed write
unfoldable pub refused : Key → Due → ℕ → Coalescer → Coalescer
unfolding Map.get Map.insert Map.extend
refused key (body, fails) now pending = elim (Map.get key pending) [
  | some p ↦
      Map.insert key (record p { fails = (p.fails + 1) % 2 ^ 32; body = Map.extend body p.body })
        pending
  | none ↦
      if ltb fails max_flush_fails
      then Map.insert key (record { body = body; first_at = now; fails = fails + 1 }) pending
      else pending
]

-- The databases behind the closure `write` of `spawn_flusher`: what a field of a document is, and a
-- merging `set` of a body, at the handle that the collection's name gives. Its laws are those of a
-- `set` that may fail. `now_iso` is the text that `atomics::now_iso` gives at an instant.
pub record Store (W : Type 0) : Type 0 where
  pub read : W → Key → Str → Option Value
  pub set : Key → Body → W → Bool × W
  pub now_iso : ℕ → Str
  pub read-ok :
      (key : Key) (body : Body) (w : W) (other : Key) (f : Str)
      → Unique body
      → (set key body w).0 ≡ true
      → read (set key body w).1 other f
        ≡ (if key == other then or_else (Map.get f body) (read w other f) else read w other f)
  pub read-err :
      (key : Key) (body : Body) (w : W) (other : Key) (f : Str)
      → (set key body w).0 ≡ false
      → read (set key body w).1 other f ≡ read w other f

abbrev pub updated_at : Str
updated_at = str "updatedAt"

-- the body that is stored: `body.insert("updatedAt", now_iso())`
unfoldable pub stamped : Str → Body → Body
unfolding Map.insert
stamped iso body = Map.insert updated_at (string iso) body

-- the coalescer, the loop of `flush_due` and the store
pub record System (W : Type 0) : Type 0 where
  pub pending : Coalescer
  pub in_flight : Map Key Due
  pub flushed : ℕ
  pub world : W

-- what happens, each at a time: a PATCH, the first step of a flush, and one round of its loop
pub data Event : Type 0 where
  patched : Key → Body → ℕ → Event
  taken : ℕ → Event
  settled : ℕ → Event

module _ {W : Type 0} (store : Store W) where
  -- the closure `write` of `spawn_flusher`
  unfoldable pub write : ℕ → Key → Body → W → Bool × W
  unfolding stamped
  write now key body w = store.set key (stamped (store.now_iso now) body) w

  -- one round of the loop of `flush_due`
  unfoldable pub settle : ℕ → Key → Due → Map Key Due → System W → System W
  unfolding refused write
  settle now key (body, fails) rest sys =
      if is_idle body
      then record sys { in_flight = rest }
      else let r = write now key body sys.world in
        if r.0
        then record sys { in_flight = rest; flushed = sys.flushed + 1; world = r.1 }
        else record sys {
          in_flight = rest;
          pending = refused key (body, fails) now sys.pending;
          world = r.1;
        }

  -- One flusher: the next flush starts when the last one is done.
  unfoldable pub step : Event → System W → System W
  unfolding merge take_due settle
  step (patched key body now) sys = record sys { pending = merge key body now sys.pending }
  step (taken now) sys = elim sys.in_flight [
    | [] ↦ let due = take_due now sys.pending in record sys { in_flight = due.0; pending = due.1 }
    | _ ∷ _ ↦ sys
  ]
  step (settled now) sys = elim sys.in_flight [
    | [] ↦ sys
    | (key, due) ∷ rest ↦ settle now key due rest sys
  ]

  unfoldable pub run : List Event → System W → System W
  run [] sys = sys
  run (event ∷ events) sys = run events (step event sys)
