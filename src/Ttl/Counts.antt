-- ===== src/Ttl/Counts.antt =====
-- The native count and the one over the list agree.
use hakobackend.Base.{
  ℕ, ◌+◌, ◌-◌, ◌≤◌, min, ◌≡◌, refl, ap, ◌∙◌, inl, inr, Bool, true, false, not, ◌&&◌, Option, none,
  some, List, [], ◌∷◌, arith, ltb, if◌then◌else◌, Bool-cases, length, keep, keep_same, keep-keep,
  all-append, and_then, and_then-some, is_some_and, ok, nat_Eq, Str, str_Eq, pair_Eq,
}
use hakobackend.Base.Map
use hakobackend.Base.Map.{
  Map, get-insert, get-remove, Unique, get-retain, insert-Unique, remove-Unique, retain-Unique,
}
use hakobackend.Json.{
  Number, pos_int, neg_int, float, Value, null, bool, number, string, array, object, as_i64,
}
use hakobackend.Policy.Rule.{Doc}
use hakobackend.Paths.Wire.{gt, lte}
use hakobackend.Query.{
  Order, QueryOptions, nested, is_nil, apply_cursor, filter_matches, doc_matches, matches_cursor,
  sort_and_limit,
}
use hakobackend.Query.{
  is_greater, less, same, greater, nested, is_nil, apply_cursor, filter_matches, sort_by, insert_by,
  cmp_docs, compares, cmp_json,
}
use hakobackend.Database.Memory.{Store, docs_in, select, memory}
use hakobackend.Ttl.{ttl_field, is_past, is_expired, unpaged, expired_query, is_live, count}

-- the largest number below which a double holds each whole number
abbrev pub exact : ℕ
exact = 9_007_199_254_740_992

-- Whole numbers that a double holds exactly are compared as numbers.
abbrev pub ComparesNat : (Number → Number → Option Order) → Type 0
ComparesNat number_cmp =
    (a b : ℕ)
    → a ≤ exact
    → b ≤ exact
    → number_cmp (pos_int a) (pos_int b)
      ≡ some (if ltb a b then less else if ltb b a then greater else same)

length-insert_by :
    (p : Doc → Bool) (cmp : Doc → Doc → Order) (d : Doc) (docs : List Doc)
    → length (keep p (insert_by cmp d docs)) ≡ length (keep p (d ∷ docs))
unfolding keep insert_by
length-insert_by p cmp d [] = refl
length-insert_by p cmp d (e ∷ docs) = ground (arith, length-insert_by p cmp d docs)

-- an order changes no count
length-sort_by :
    (p : Doc → Bool) (cmp : Doc → Doc → Order) (docs : List Doc)
    → length (keep p (sort_by cmp docs)) ≡ length (keep p docs)
unfolding keep sort_by
length-sort_by p cmp [] = refl
length-sort_by p cmp (d ∷ docs) =
    length-insert_by p cmp d (sort_by cmp docs) ∙ ground (arith, length-sort_by p cmp docs)

length-both :
    (p q : Doc → Bool) (docs : List Doc)
    → length (keep p docs)
      ≡ length (keep (λ d. p d && q d) docs) + length (keep (λ d. p d && not (q d)) docs)
unfolding keep
length-both p q [] = refl
length-both p q (d ∷ docs) = ground (arith, length-both p q docs)

test_between : (a b c e : Bool) → (a && e) ≡ (b && e) → (a && (c && e)) ≡ ((b && c) && e)
test_between a b c e h = ground arith

and_assoc : (a b c : Bool) → (a && (b && c)) ≡ ((a && b) && c)
and_assoc a b c = ground arith

-- what passes a test, and of that what passes another and what does not
length-split :
    (p q : Doc → Bool) (docs : List Doc)
    → length (keep p docs) - length (keep (λ d. p d && q d) docs)
      ≡ length (keep (λ d. p d && not (q d)) docs)
length-split p q docs = omega (arith, length-both p q docs)

module _ (number_cmp : Number → Number → Option Order) (now : ℕ) (early : now ≤ exact) where
  -- a stamp that is past is above zero and not above the clock
  past-compares :
      ComparesNat number_cmp
      → (v : Option Value) → is_some_and (and_then v as_i64) (is_past now) ≡ true
      → (compares number_cmp v (number (pos_int 0)) is_greater
          && compares number_cmp v (number (pos_int now)) (λ o. not (is_greater o)))
        ≡ true
  unfolding cmp_json
  past-compares nat none h = h
  past-compares nat (some (number (pos_int n))) h =
      let small : n ≤ exact = ground arith in
      rw (nat n 0 small (omega arith), nat n now small early) (ground arith)
  past-compares nat (some (number (neg_int n))) h = absurd (ground arith)
  past-compares nat (some (number (float n))) h = absurd (ground arith)
  past-compares nat (some null) h = absurd (ground arith)
  past-compares nat (some (bool b)) h = absurd (ground arith)
  past-compares nat (some (string s)) h = absurd (ground arith)
  past-compares nat (some (array vs)) h = absurd (ground arith)
  past-compares nat (some (object fs)) h = absurd (ground arith)

  -- a document past its expiry passes the two filters of `expired_query`
  expired_query-is_expired :
      ComparesNat number_cmp
      → (d : Doc) (q : QueryOptions)
      → (doc_matches number_cmp d (expired_query now q).filters && is_expired now d)
        ≡ (doc_matches number_cmp d q.filters && is_expired now d)
  unfolding doc_matches is_expired filter_matches nested
  expired_query-is_expired nat d q =
      let v = Map.get ttl_field d.contents in
      rw
        (
          all-append (filter_matches number_cmp d) q.filters (
              (record { field = ttl_field; op = gt; value = number (pos_int 0) })
              ∷ (record { field = ttl_field; op = lte; value = number (pos_int now) })
              ∷ []),
          and_then-some v,
        )
        (ground (arith, past-compares nat v))

  -- a count over a listing without a page
  length-listed :
      (p : Doc → Bool) (docs : List Doc) (q : QueryOptions)
      → length (keep p (sort_and_limit number_cmp docs (unpaged q)))
        ≡ length (keep (λ d. matches_cursor number_cmp d q && p d) docs)
  unfolding sort_and_limit apply_cursor matches_cursor
  length-listed p docs q =
      let cursor = λ (d : Doc). matches_cursor number_cmp d q in
      let sorted =
        if is_nil q.order_by then docs else sort_by (cmp_docs number_cmp q.order_by) docs in
      let none_skipped : min 0 (length (keep cursor sorted)) ≡ 0 = ground arith in
      rw (none_skipped, keep-keep p cursor sorted)
        (elim (Bool-cases (is_nil q.order_by)) [
          | inl e ↦ rw e refl
          | inr e ↦
              rw e (length-sort_by (λ d. cursor d && p d) (cmp_docs number_cmp q.order_by) docs)
        ])

  live_count :
      ComparesNat number_cmp
      → (c : Str) (q : QueryOptions) (store : Store)
      → length (keep (λ d. matches_cursor number_cmp d q) (select number_cmp c q store))
          - length (
              keep (is_expired now) (
                sort_and_limit number_cmp
                  (select number_cmp c (expired_query now q) store)
                  (expired_query now q)))
        ≡ length (
            keep
              (is_live now)
              (sort_and_limit number_cmp (select number_cmp c (unpaged q) store) (unpaged q)))
  unfolding select matches_cursor
  live_count nat c q store =
      let docs = docs_in c store in
      let fits = λ (d : Doc). doc_matches number_cmp d q.filters in
      let cursor = λ (d : Doc). matches_cursor number_cmp d q in
      let dead = λ (d : Doc). doc_matches number_cmp d (expired_query now q).filters in
      rw
        (
          length-listed (is_expired now) (keep dead docs) (expired_query now q),
          length-listed (is_live now) (keep fits docs) q,
          keep-keep cursor fits docs,
          keep-keep (λ d. cursor d && is_expired now d) dead docs,
          keep-keep (λ d. cursor d && is_live now d) fits docs,
          keep_same (λ d. dead d && (cursor d && is_expired now d))
              (λ d. (fits d && cursor d) && is_expired now d) docs
              (λ d.
                test_between (dead d) (fits d) (cursor d) (is_expired now d)
                  (expired_query-is_expired nat d q)),
          keep_same (λ d. fits d && (cursor d && is_live now d))
              (λ d. (fits d && cursor d) && not (is_expired now d)) docs
              (λ d. and_assoc (fits d) (cursor d) (is_live now d)),
        )
        (length-split (λ d. fits d && cursor d) (is_expired now) docs)

  -- The count of a driver with native aggregation, its total less the dead, is the number of
  -- documents alive that the query fits, which is what the count without native aggregation finds
  -- where the query has no page; the clock is at most 2^53, up to where doubles are exact.
  pub count-native :
      ComparesNat number_cmp
      → (c : Str) (q : QueryOptions) (store : Store)
      → count now (memory number_cmp true) c q store
        ≡ count now (memory number_cmp false) c (unpaged q) store
  unfolding count matches_cursor select
  count-native nat c q store = ap ok (live_count nat c q store)
