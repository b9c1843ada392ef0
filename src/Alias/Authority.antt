-- ===== src/Alias/Authority.antt =====
-- The alias is the authority over the database that a query names.
use hakobackend.Base.{
  ℕ, ◌≡◌, refl, ◌∙◌, ◌≢◌, inl, inr, Bool, true, false, not, ◌||◌, Option, List, [], ◌∷◌, ◌++◌, map,
  arith, nat_eq, Bool-cases, any, all, keep, all-append, unwrap_or, nat_Eq, Str, str_eq, str_Eq,
  pair_Eq,
}
use hakobackend.Text.{has, push_first, split, join, is_empty}
use hakobackend.Text.Split.{split-join}
use mathlib.Core.List.{append-nil}
use hakobackend.Alias.{key_of, is_db, merge_query}

free-push_first :
    (sep c : ℕ) (segs : List Str)
    → nat_eq c sep ≡ false
    → all (λ s. not (has sep s)) segs ≡ true
    → all (λ s. not (has sep s)) (push_first c segs) ≡ true
unfolding all push_first has any
free-push_first sep c [] h e = ground arith
free-push_first sep c (seg ∷ segs) h e = ground arith

-- The parts of a text do not hold the separator.
split-free : (sep : ℕ) (s : Str) → all (λ p. not (has sep p)) (split sep s) ≡ true
unfolding split all has any
split-free sep [] = refl
split-free sep (c ∷ s) = elim (Bool-cases (nat_eq c sep)) [
  | inl same ↦ rw (same, split) (split-free sep s)
  | inr differ ↦ rw (differ, split) (free-push_first sep c (split sep s) differ (split-free sep s))
]

all-keep : (p q : Str → Bool) (xs : List Str) → all p xs ≡ true → all p (keep q xs) ≡ true
unfolding all keep
all-keep p q [] h = refl
all-keep p q (x ∷ xs) h = ground (arith, all-keep p q xs)

keep-append : (p : Str → Bool) (xs ys : List Str) → keep p (xs ++ ys) ≡ keep p xs ++ keep p ys
unfolding keep
keep-append p [] ys = refl
keep-append p (x ∷ xs) ys = ground (arith, keep-append p xs ys)

keep-keep :
    (p q : Str → Bool) (xs : List Str)
    → ((x : Str) → p x ≡ true → q x ≡ true)
    → keep p (keep q xs) ≡ keep p xs
unfolding keep
keep-keep p q [] h = refl
keep-keep p q (x ∷ xs) h = ground (arith, keep-keep p q xs h, h x)

keep-none :
    (p q : Str → Bool) (xs : List Str)
    → ((x : Str) → q x ≡ true → p x ≡ false)
    → keep p (keep q xs) ≡ []
unfolding keep
keep-none p q [] h = refl
keep-none p q (x ∷ xs) h = ground (arith, keep-none p q xs h, h x)

any-keep : (p : Str → Bool) (xs : List Str) → any p xs ≡ true → keep p xs ≢ []
unfolding keep any
any-keep p [] h e = absurd (ground arith)
any-keep p (x ∷ xs) h e = ground (arith, any-keep p xs)

module _ (alias_q req_q : Str) (pins : any is_db (split b'&' alias_q) ≡ true) where
  keys : List Str
  keys = map key_of (split b'&' req_q)

  -- the pairs of the alias that survive, and those of the request
  kept : List Str
  unfolding keys
  kept = keep (λ p. is_db p || not (any (λ k. str_eq k (key_of p)) keys)) (split b'&' alias_q)

  own : List Str
  own = keep (λ p. not true || not (is_db p)) (split b'&' req_q)

  kept-db : keep is_db kept ≡ keep is_db (split b'&' alias_q)
  unfolding kept
  kept-db = keep-keep is_db _ (split b'&' alias_q) (λ x h. ground arith)

  own-db : keep is_db own ≡ []
  unfolding own
  own-db = keep-none is_db _ (split b'&' req_q) (λ x h. ground arith)

  -- What joins and splits again.
  pairs-db :
      (xs : List Str)
      → all (λ p. not (has b'&' p)) xs ≡ true
      → xs ≢ []
      → keep is_db (split b'&' (join b'&' xs)) ≡ keep is_db xs
  pairs-db [] free ne = absurd (ne refl)
  pairs-db (x ∷ xs) free ne = rw (split-join b'&' x xs free) refl

  kept-nonempty : kept ++ own ≢ []
  kept-nonempty = go kept own (rw kept-db (any-keep is_db (split b'&' alias_q) pins))
    where
      go : (xs ys : List Str) → keep is_db xs ≢ [] → xs ++ ys ≢ []
      go [] ys ne e = ne (unfold keep in refl)
      go (x ∷ xs) ys ne e = absurd (ground arith)

  merged-db : keep is_db (split b'&' (join b'&' (kept ++ own))) ≡ keep is_db (split b'&' alias_q)
  merged-db =
      pairs-db (kept ++ own)
        (unfold kept own in
          (all-append (λ p. not (has b'&' p)) kept own
            ∙ rw
                (
                  all-keep (λ p. not (has b'&' p))
                      (λ p. is_db p || not (any (λ k. str_eq k (key_of p)) keys))
                      (split b'&' alias_q) (split-free b'&' alias_q),
                  all-keep (λ p. not (has b'&' p)) (λ p. not true || not (is_db p))
                      (split b'&' req_q) (split-free b'&' req_q),
                )
                refl))
        kept-nonempty
      ∙ keep-append is_db kept own
      ∙ rw (kept-db, own-db) (append-nil (keep is_db (split b'&' alias_q)))

empty-no_db : (s : Str) → is_empty s ≡ true → any is_db (split b'&' s) ≡ false
unfolding any split key_of str_eq
empty-no_db [] h = refl
empty-no_db (c ∷ s) h = cc

-- An alias that pins a database has the only `db` pairs of the merged query: those that the request
-- brings, spelled `db`, are dropped.
pub merge_query-db :
    (alias_q : Str) (req : Option Str)
    → any is_db (split b'&' alias_q) ≡ true
    → keep is_db (split b'&' (merge_query alias_q req)) ≡ keep is_db (split b'&' alias_q)
unfolding merge_query
merge_query-db alias_q req pins = elim (Bool-cases (is_empty alias_q)) [
  | inl e ↦ absurd (let nothing = empty-no_db alias_q e in ground arith)
  | inr e ↦ elim (Bool-cases (is_empty (unwrap_or req []))) [
    | inl e' ↦ rw (e, e', merge_query) refl
    | inr e' ↦
        rw (e, e', merge_query, pins)
          (unfold kept own keys in merged-db alias_q (unwrap_or req []) pins)
  ]
]
