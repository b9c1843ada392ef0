-- ===== src/Policy/Order.antt =====
-- `find` on a `HashMap`: the order in which the collections are iterated over does not matter.
use hakobackend.Base.{
  ◌≡◌, refl, sym, ap, ◌∙◌, subst, ◌⊎◌, inl, inr, true, false, Option, none, some, List, [], ◌∷◌,
  arith, if◌then◌else◌, Bool-cases, Option-cases, first, eq_refl, nat_Eq, Str, str_eq, str_eq_iff,
  str_Eq, pair_Eq,
}
use hakobackend.Base.Map
use hakobackend.Base.Map.{
  Map, get-insert, get-remove, Unique, get-retain, insert-Unique, remove-Unique, retain-Unique,
}
use hakobackend.Text.{split}
use hakobackend.Text.Order.{str_lt_irrefl, str_lt_antisymm, str_lt_asymm, not_str_lt_trans}
use hakobackend.Policy.Rule.{CollectionPolicy, PolicyFile}
use hakobackend.Policy.Resolve.{
  applies, wilds, Candidate, beats, candidate, better, best_of, root_policy, find,
}

module _ (a b : Candidate) where
  not_beats_trans : (c : Candidate) → beats a b ≡ false → beats b c ≡ false → beats a c ≡ false
  unfolding beats
  not_beats_trans c h k = ground (arith, not_str_lt_trans a.pattern b.pattern c.pattern)

  beats_asymm : beats a b ≡ true → beats b a ≡ false
  unfolding beats
  beats_asymm h = ground (arith, str_lt_asymm a.pattern b.pattern)

  same_pattern : beats a b ≡ false → beats b a ≡ false → a.pattern ≡ b.pattern
  unfolding beats
  same_pattern h k = str_lt_antisymm a.pattern b.pattern (ground arith) (ground arith)

beats_irrefl : (a : Candidate) → beats a a ≡ false
unfolding beats
beats_irrefl a = ground (arith, str_lt_irrefl a.pattern)

-- One candidate more: the result is not beaten by it, nor by what was best before.
better-new :
    (c : Candidate) (best : Option Candidate)
    → (d : Candidate) × (better c best ≡ some d) × (beats c d ≡ false)
unfolding better
better-new c none = (c, refl, beats_irrefl c)
better-new c (some b) = elim (Bool-cases (beats c b)) [
  | inl e ↦ (c, rw e refl, beats_irrefl c)
  | inr e ↦ (b, rw e refl, e)
]

better-old :
    (c a : Candidate) → (d : Candidate) × (better c (some a) ≡ some d) × (beats a d ≡ false)
unfolding better
better-old c a = elim (Bool-cases (beats c a)) [
  | inl e ↦ (c, rw e refl, beats_asymm c a e)
  | inr e ↦ (a, rw e refl, beats_irrefl a)
]

module _ (segments : List Str) where
  -- What was best before the loop does not beat the result.
  best_of-start :
      (m : Map Str CollectionPolicy) (a : Candidate)
      → (c : Candidate) × (best_of segments m (some a) ≡ some c) × (beats a c ≡ false)
  unfolding best_of
  best_of-start [] a = (a, refl, beats_irrefl a)
  best_of-start ((k, p) ∷ m) a = elim (Bool-cases (applies segments k)) [
    | inl e ↦
        let (d, q, h) = better-old (candidate k p) a in
        let (c, r, h') = best_of-start m d in (c, rw (e, q) r, not_beats_trans a d c h h')
    | inr e ↦ let (c, r, h) = best_of-start m a in (c, rw e r, h)
  ]

  -- No entry that applies beats the result.
  pub best_of-least :
      (m : Map Str CollectionPolicy) (start : Option Candidate) (k : Str) (p : CollectionPolicy)
      → Map.get k m ≡ some p
      → applies segments k ≡ true
      → (c : Candidate) × (best_of segments m start ≡ some c) × (beats (candidate k p) c ≡ false)
  unfolding best_of Map.get
  best_of-least [] start k p h e = absurd (ground arith)
  best_of-least ((j, q) ∷ m) start k p h e = elim (Bool-cases (str_eq j k)) [
    | inl same ↦
        let here : j ≡ k = (str_eq_iff j k).0 same in
        let (d, r, le) = better-new (candidate j q) start in
        let (c, r', le') = best_of-start m d in
        (
          c,
          rw (here, e) (rw (← here) (rw r r')),
          not_beats_trans (candidate k p) d c (rw (← here) le) le',
        )
    | inr other ↦
        best_of-least m (if applies segments j then better (candidate j q) start else start) k p
          (ground arith) e
  ]

-- An entry that applies, with its count of wildcards.
pub record IsEntry (segments : List Str) (m : Map Str CollectionPolicy) (c : Candidate)
    : Type 0 where
  pub present : Map.get c.pattern m ≡ some c.policy
  pub applicable : applies segments c.pattern ≡ true
  pub counted : c.wilds ≡ wilds c.pattern

module _ (segments : List Str) (j : Str) (q : CollectionPolicy) (m : Map Str CollectionPolicy) where
  IsEntry-there :
      {c : Candidate} → Map.get j m ≡ none → IsEntry segments m c → IsEntry segments ((j, q) ∷ m) c
  unfolding Map.get
  IsEntry-there {c} u h = record {
    present = ground (arith, str_eq_iff j c.pattern);
    applicable = h.applicable;
    counted = h.counted;
  }

  IsEntry-here : applies segments j ≡ true → IsEntry segments ((j, q) ∷ m) (candidate j q)
  unfolding Map.get candidate
  IsEntry-here e = record { present = rw (eq_refl j) refl; applicable = e; counted = refl }

better_sound :
    (c : Candidate) (best : Option Candidate) (d : Candidate)
    → better c best ≡ some d
    → (best ≡ some d) ⊎ (c ≡ d)
unfolding better
better_sound c none d h = inr (ground arith)
better_sound c (some b) d h = elim (Bool-cases (beats c b)) [
  | inl e ↦ inr (ground arith)
  | inr e ↦ inl (ground arith)
]

-- The result of the loop is the start value, or an entry that applies.
best_of_sound :
    (segments : List Str) (m : Map Str CollectionPolicy) (start : Option Candidate) (c : Candidate)
    → Unique m
    → best_of segments m start ≡ some c
    → (start ≡ some c) ⊎ IsEntry segments m c
unfolding best_of
best_of_sound segments [] start c u h = inl h
best_of_sound segments ((j, q) ∷ m) start c u h = elim (Bool-cases (applies segments j)) [
  | inl e ↦ elim (best_of_sound segments m (better (candidate j q) start) c u.1 (rw e at h)) [
    | inl started ↦ elim (better_sound (candidate j q) start c started) [
      | inl old ↦ inl old
      | inr new ↦ inr (subst (IsEntry segments ((j, q) ∷ m)) new (IsEntry-here segments j q m e))
    ]
    | inr later ↦ inr (IsEntry-there segments j q m u.0 later)
  ]
  | inr e ↦ elim (best_of_sound segments m start c u.1 (rw e at h)) [
    | inl started ↦ inl started
    | inr later ↦ inr (IsEntry-there segments j q m u.0 later)
  ]
]

-- From no start value the result is an entry that applies.
pub best_of-IsEntry :
    (segments : List Str) (m : Map Str CollectionPolicy) (c : Candidate)
    → Unique m
    → best_of segments m none ≡ some c
    → IsEntry segments m c
best_of-IsEntry segments m c u h = elim (best_of_sound segments m none c u h) [
  | inl started ↦ absurd (ground arith)
  | inr entry ↦ entry
]

candidate_eta : (c : Candidate) → c.wilds ≡ wilds c.pattern → candidate c.pattern c.policy ≡ c
unfolding candidate
candidate_eta c h = ground arith

-- An entry of one map is not better than what the loop finds in another with the same entries.
module _ (segments : List Str) (m n : Map Str CollectionPolicy)
    (same : (k : Str) → Map.get k m ≡ Map.get k n) where
  not_better :
      (c : Candidate)
      → IsEntry segments m c
      → (d : Candidate) × (best_of segments n none ≡ some d) × (beats c d ≡ false)
  not_better c h =
      let (d, e, le) =
        best_of-least segments n none c.pattern c.policy (sym (same c.pattern) ∙ h.present)
          h.applicable in
      (d, e, rw (candidate_eta c h.counted) at le)

same_candidate :
    (segments : List Str) (m n : Map Str CollectionPolicy) (c d : Candidate)
    → ((k : Str) → Map.get k m ≡ Map.get k n)
    → IsEntry segments m c
    → IsEntry segments n d
    → beats c d ≡ false
    → beats d c ≡ false
    → c ≡ d
same_candidate segments m n c d same h k le le' =
    let e : c.pattern ≡ d.pattern = same_pattern c d le le' in
    ground (
      arith,
      h.present,
      k.present,
      same c.pattern,
      h.counted,
      k.counted,
      ap wilds e,
      ap (λ (x : Str). Map.get x n) e,
    )

best_of_same :
    (segments : List Str) (m n : Map Str CollectionPolicy)
    → Unique m
    → Unique n
    → ((k : Str) → Map.get k m ≡ Map.get k n)
    → best_of segments m none ≡ best_of segments n none
best_of_same segments m n u v same = elim (Option-cases (best_of segments m none)) [
  | inl e ↦ elim (Option-cases (best_of segments n none)) [
    | inl e' ↦ cc
    | inr (d, e') ↦
        let (c, r, _) =
          not_better segments n m (λ k. sym (same k)) d (best_of-IsEntry segments n d v e') in
        absurd (ground arith)
  ]
  | inr (c, e) ↦
      let entry = best_of-IsEntry segments m c u e in
      let (d, e', le) = not_better segments m n same c entry in
      let entry' = best_of-IsEntry segments n d v e' in
      let (c', e'', le') = not_better segments n m (λ k. sym (same k)) d entry' in
      let back : c' ≡ c = ground arith in
      e ∙ ap some (same_candidate segments m n c d same entry entry' le (rw back at le')) ∙ sym e'
]

root_policy_same :
    (collection : Str) (m n : Map Str CollectionPolicy)
    → ((k : Str) → Map.get k m ≡ Map.get k n)
    → root_policy collection m ≡ root_policy collection n
unfolding root_policy
root_policy_same collection m n same = elim (Option-cases (first (split b'/' collection))) [
  | inl e ↦ ground arith
  | inr (root, e) ↦ ground (arith, same root)
]

-- Two policy files with the same collections, however the maps that hold them are iterated over,
-- resolve every collection to the same policy.
pub find-order :
    (f g : PolicyFile) (collection : Str)
    → Unique f.collections
    → Unique g.collections
    → ((k : Str) → Map.get k f.collections ≡ Map.get k g.collections)
    → find f collection ≡ find g collection
unfolding find
find-order f g collection u v same = ground (
  arith,
  same collection,
  best_of_same (split b'/' collection) f.collections g.collections u v same,
  root_policy_same collection f.collections g.collections same,
)
