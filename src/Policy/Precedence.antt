-- ===== src/Policy/Precedence.antt =====
-- What `find` resolves a collection to: exact name, then wildcard, then root.
use hakobackend.Base.{
  Option, ◌≤◌, ◌≡◌, ◌⊎◌, inl, inr, true, false, none, some, arith, Bool-cases, Option-cases, first,
  nat_Eq, Str, str_Eq, pair_Eq,
}
use hakobackend.Base.Map
use hakobackend.Base.Map.{
  Map, get-insert, get-remove, Unique, get-retain, insert-Unique, remove-Unique, retain-Unique,
}
use hakobackend.Text.{has, split}
use hakobackend.Policy.Rule.{CollectionPolicy, PolicyFile}
use hakobackend.Policy.Resolve.{
  applies, wilds, Candidate, beats, candidate, best_of, root_policy, find,
}
use hakobackend.Policy.Order.{best_of-IsEntry, best_of-least}

module _ (file : PolicyFile) (collection : Str) where
  -- a wildcard pattern that applies, with no more wildcards than any other that applies
  pub record IsWildcard (p : CollectionPolicy) : Type 0 where
    pub pattern : Str
    pub present : Map.get pattern file.collections ≡ some p
    pub applicable : applies (split b'/' collection) pattern ≡ true
    pub fewest :
        (k : Str) (q : CollectionPolicy)
        → Map.get k file.collections ≡ some q
        → applies (split b'/' collection) k ≡ true
        → wilds pattern ≤ wilds k

  -- the root of a path that no pattern applies to
  pub record IsRoot (p : CollectionPolicy) : Type 0 where
    pub root : Str
    pub nested : has b'/' collection ≡ true
    pub at_root : first (split b'/' collection) ≡ some root
    pub present : Map.get root file.collections ≡ some p
    pub no_pattern :
        (k : Str) (q : CollectionPolicy)
        → Map.get k file.collections ≡ some q
        → applies (split b'/' collection) k ≡ false

  root_sound :
      (p : CollectionPolicy)
      → root_policy collection file.collections ≡ some p
      → (root : Str) × (has b'/' collection ≡ true)
        × (first (split b'/' collection) ≡ some root)
        × (Map.get root file.collections ≡ some p)
  unfolding root_policy
  root_sound p h = elim (Option-cases (first (split b'/' collection))) [
    | inl e ↦ absurd (ground arith)
    | inr (root, e) ↦ (root, ground arith, e, ground arith)
  ]

  none-applies :
      best_of (split b'/' collection) file.collections none ≡ none
      → (k : Str) (q : CollectionPolicy) → Map.get k file.collections ≡ some q
      → applies (split b'/' collection) k ≡ false
  none-applies e k q h = elim (Bool-cases (applies (split b'/' collection) k)) [
    | inl yes_ ↦
        let (c, e', _) = best_of-least (split b'/' collection) file.collections none k q h yes_ in
        absurd (ground arith)
    | inr no_ ↦ no_
  ]

  fewest_wilds :
      (c : Candidate) (k : Str) (q : CollectionPolicy)
      → c.wilds ≡ wilds c.pattern
      → beats (candidate k q) c ≡ false
      → wilds c.pattern ≤ wilds k
  unfolding beats candidate
  fewest_wilds c k q e h = ground arith

  wildcard :
      (c : Candidate)
      → Unique file.collections
      → best_of (split b'/' collection) file.collections none ≡ some c
      → IsWildcard c.policy
  wildcard c u e =
      let entry = best_of-IsEntry (split b'/' collection) file.collections c u e in
      record {
        pattern = c.pattern;
        present = entry.present;
        applicable = entry.applicable;
        fewest = λ k q h a.
            let (d, e', le) = best_of-least (split b'/' collection) file.collections none k q h a in
            let same : d ≡ c = ground arith in fewest_wilds c k q entry.counted (rw same at le);
      }

  root_complete :
      root_policy collection file.collections ≡ none
      → has b'/' collection ≡ true
      → (root : Str) → first (split b'/' collection) ≡ some root
      → Map.get root file.collections ≡ none
  unfolding root_policy
  root_complete h nested root e = let h' = rw (nested, e, root_policy) at h in ground (arith, h')

  -- what `find` may answer, given what the file has
  abbrev pub Resolves : Option CollectionPolicy → Type 0
  Resolves (some p) =
      (Map.get collection file.collections ≡ some p)
      ⊎ ((Map.get collection file.collections ≡ none) × (IsWildcard p ⊎ IsRoot p))
  Resolves none =
      (Map.get collection file.collections ≡ none)
      × ((k : Str) (q : CollectionPolicy)
          → Map.get k file.collections ≡ some q
          → applies (split b'/' collection) k ≡ false)
      × (has b'/' collection ≡ true
          → (root : Str) → first (split b'/' collection) ≡ some root
          → Map.get root file.collections ≡ none)

  -- A collection resolves to the entry of its own name; failing that to a wildcard entry that
  -- applies and has the fewest wildcards of those; failing both, for a nested collection, to the
  -- entry of its root; and to none only where the file has none of the three.
  pub find_sound : Unique file.collections → Resolves (find file collection)
  unfolding find
  find_sound u = elim (Option-cases (Map.get collection file.collections)) [
    | inr (q, e) ↦ rw (e, find) (inl e)
    | inl e ↦ elim (Option-cases (best_of (split b'/' collection) file.collections none)) [
      | inr (c, e') ↦ rw (e, e', find) (inr (e, inl (wildcard c u e')))
      | inl e' ↦ elim (Option-cases (root_policy collection file.collections)) [
        | inl r ↦ rw (e, e', r, find) (e, none-applies e', root_complete r)
        | inr (p, r) ↦
            let (root, nested, at_root, present) = root_sound p r in
            rw (e, e', r, find)
              (inr (
                e,
                inr (record {
                  root = root;
                  nested = nested;
                  at_root = at_root;
                  present = present;
                  no_pattern = none-applies e';
                }),
              ))
      ]
    ]
  ]
