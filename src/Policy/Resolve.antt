-- ===== src/Policy/Resolve.antt =====
-- Which rule governs a method on a collection: `CollectionPolicy::slot` and `PolicyFile::find`.
use hakobackend.Base.{
  ℕ, Bool, true, ◌&&◌, ◌||◌, Option, none, some, List, [], ◌∷◌, ltb, nat_eq, if◌then◌else◌, length,
  keep, and_then, unwrap_or, first, nat_Eq, Str, str, str_eq, str_Eq, pair_Eq,
}
use hakobackend.Base.Map
use hakobackend.Base.Map.{
  Map, get-insert, get-remove, Unique, get-retain, insert-Unique, remove-Unique, retain-Unique,
}
use hakobackend.Text.{has, split}
use hakobackend.Text.Order.{str_lt}
use hakobackend.Policy.Rule.{Rule, Method, Defaults, CollectionPolicy, empty_policy, PolicyFile}

-- the rule of the method itself
unfoldable pub specific : Method → CollectionPolicy → Option Rule
specific Method.get p = p.get
specific Method.list p = p.list
specific Method.create p = p.create
specific Method.update p = p.update
specific Method.delete p = p.delete

-- the rule of its class, `read` or `write`, or the default of that class
unfoldable pub general : Method → CollectionPolicy → Defaults → Rule
general Method.get p d = unwrap_or p.read d.read
general Method.list p d = unwrap_or p.read d.read
general Method.create p d = unwrap_or p.write d.write
general Method.update p d = unwrap_or p.write d.write
general Method.delete p d = unwrap_or p.write d.write

-- `CollectionPolicy::slot`
unfoldable pub slot : CollectionPolicy → Method → Defaults → Rule
unfolding specific general
slot p method defaults = unwrap_or (specific method p) (general method p defaults)

abbrev pub star : Str
star = str "*"

-- `parts.iter().zip(segments).all(|(pat, seg)| *pat == "*" || pat == seg)`
unfoldable pub zip_match : List Str → List Str → Bool
zip_match [] segs = true
zip_match (pat ∷ pats) [] = true
zip_match (pat ∷ pats) (seg ∷ segs) = (str_eq pat star || str_eq pat seg) && zip_match pats segs

-- the guards of the loop over the patterns
unfoldable pub applies : List Str → Str → Bool
unfolding has zip_match split
applies segments pattern =
    let parts = split b'/' pattern in
    has b'*' pattern && nat_eq (length parts) (length segments) && zip_match parts segments

-- `parts.iter().filter(|p| **p == "*").count()`
unfoldable pub wilds : Str → ℕ
unfolding keep split
wilds pattern = length (keep (λ p. str_eq p star) (split b'/' pattern))

-- what `best` holds
pub record Candidate : Type 0 where
  pub wilds : ℕ
  pub pattern : Str
  pub policy : CollectionPolicy

-- `(candidate.0, candidate.1) < (b.0, b.1)`
unfoldable pub beats : Candidate → Candidate → Bool
unfolding str_lt
beats a b = ltb a.wilds b.wilds || (nat_eq a.wilds b.wilds && str_lt a.pattern b.pattern)

unfoldable pub candidate : Str → CollectionPolicy → Candidate
unfolding wilds
candidate pattern policy = record { wilds = wilds pattern; pattern = pattern; policy = policy }

-- `best.is_none_or(|b| candidate < b)`
unfoldable pub better : Candidate → Option Candidate → Option Candidate
unfolding beats
better c none = some c
better c (some b) = if beats c b then some c else some b

-- the loop over the collections, in the order of their iteration
unfoldable pub best_of : List Str → Map Str CollectionPolicy → Option Candidate → Option Candidate
unfolding applies better candidate
best_of segments [] best = best
best_of segments ((pattern, policy) ∷ m) best =
    best_of segments m
      (if applies segments pattern then better (candidate pattern policy) best else best)

-- the last resort: the collection at the root of the path
unfoldable pub root_policy : Str → Map Str CollectionPolicy → Option CollectionPolicy
unfolding Map.get has split
root_policy collection collections =
    if has b'/' collection
    then and_then (first (split b'/' collection)) (λ root. Map.get root collections)
    else none

-- `PolicyFile::find`
unfoldable pub find : PolicyFile → Str → Option CollectionPolicy
unfolding Map.get best_of root_policy split
find file collection = elim (Map.get collection file.collections) [
  | some p ↦ some p
  | none ↦ elim (best_of (split b'/' collection) file.collections none) [
    | some best ↦ some best.policy
    | none ↦ root_policy collection file.collections
  ]
]

-- The rule that a request meets: `find`, then `slot`.
unfoldable pub governing : PolicyFile → Str → Method → Rule
unfolding find slot
governing file collection method =
    slot (unwrap_or (find file collection) empty_policy) method file.defaults
