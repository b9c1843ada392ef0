-- ===== src/Query/Paging.antt =====
-- Pages: consecutive slices of one ordered list.
use hakobackend.Base.{
  ℕ, zero, suc, ◌+◌, ◌≤◌, min, ◌≡◌, refl, sym, ap, ◌∙◌, inl, inr, Option, none, some, subst, keep,
  All, List, [], ◌∷◌, ◌++◌, arith, leb, if◌then◌else◌, Bool-cases, length, take, drop, nat_Eq,
  str_Eq, pair_Eq,
}
use hakobackend.Json.{Number}
use hakobackend.Policy.Rule.{Doc}
use native.Mathlib.Nat.{zero-add, suc-add}
use hakobackend.Query.{
  is_nil, Order, OrderBy, QueryOptions, apply_offset_limit, cursor_value, matches_cursor,
  apply_cursor, cmp_docs, sort_by, sort_and_limit,
}
use hakobackend.Query.Sorting.{IsSorted, InOrder, IsKey, whole, sort_and_limit-IsSorted}
use mathlib.Core.List.{Perm}

module _ {ℓ} {A : Type ℓ} where
  drop-nil : (n : ℕ) → drop {A = A} n [] ≡ []
  drop-nil zero = refl
  drop-nil (suc n) = refl

  drop-min : (n : ℕ) (xs : List A) → drop (min n (length xs)) xs ≡ drop n xs
  drop-min n xs = elim (Bool-cases (leb n (length xs))) [
    | inl le ↦ let e : min n (length xs) ≡ n = ground arith in rw e refl
    | inr short ↦
        let e : min n (length xs) ≡ length xs = ground arith in rw e (drop_all n xs (ground arith))
  ]
    where
      drop_all : (n : ℕ) (xs : List A) → length xs ≤ n → drop (length xs) xs ≡ drop n xs
      drop_all zero [] h = refl
      drop_all (suc n) [] h = refl
      drop_all zero (x ∷ xs) h = absurd (omega arith)
      drop_all (suc n) (x ∷ xs) h = drop_all n xs (omega arith)

  take-drop_all : (n : ℕ) (xs : List A) → take n xs ++ drop n xs ≡ xs
  take-drop_all zero xs = refl
  take-drop_all (suc n) [] = refl
  take-drop_all (suc n) (x ∷ xs) = ap (◌∷◌ x) (take-drop_all n xs)

  drop-drop : (k n : ℕ) (xs : List A) → drop n (drop k xs) ≡ drop (k + n) xs
  drop-drop zero n xs = rw zero-add refl
  drop-drop (suc k) n [] = drop-nil n ∙ sym (drop-nil (suc k + n))
  drop-drop (suc k) n (x ∷ xs) = rw suc-add (drop-drop k n xs)

abbrev pub page : QueryOptions → ℕ → ℕ → QueryOptions
page q offset limit = record q { offset = some offset; limit = some limit }

-- the documents from an offset on
abbrev pub from : QueryOptions → ℕ → QueryOptions
from q offset = record q { offset = some offset; limit = none }

-- What is paged: the documents in their order, those that pass the cursor.
pub listed : (Number → Number → Option Order) → List Doc → QueryOptions → List Doc
unfolding sort_by cmp_docs
listed number_cmp docs q =
    let sorted =
      if is_nil q.order_by then docs else sort_by (cmp_docs number_cmp q.order_by) docs in
    apply_cursor number_cmp sorted q

module _ (number_cmp : Number → Number → Option Order) (docs : List Doc) (q : QueryOptions) where
  page-listed :
      (k n : ℕ)
      → sort_and_limit number_cmp docs (page q k n) ≡ take n (drop k (listed number_cmp docs q))
  unfolding sort_and_limit listed apply_cursor matches_cursor cursor_value apply_offset_limit
  page-listed k n = rw (drop-min k (listed number_cmp docs q)) refl

  rest-listed :
      (k : ℕ) → sort_and_limit number_cmp docs (from q k) ≡ drop k (listed number_cmp docs q)
  unfolding sort_and_limit listed apply_cursor matches_cursor cursor_value apply_offset_limit
  rest-listed k = drop-min k (listed number_cmp docs q)

  whole-listed : sort_and_limit number_cmp docs (whole q) ≡ listed number_cmp docs q
  unfolding sort_and_limit listed apply_cursor matches_cursor cursor_value apply_offset_limit
  whole-listed = drop-min 0 (listed number_cmp docs q)

  -- A listing that is fetched page by page, from an offset on, the last page without a limit.
  unfoldable pub pages : ℕ → List ℕ → List Doc
  unfolding sort_and_limit
  pages k [] = sort_and_limit number_cmp docs (from q k)
  pages k (n ∷ sizes) = sort_and_limit number_cmp docs (page q k n) ++ pages (k + n) sizes

  pages-listed : (k : ℕ) (sizes : List ℕ) → pages k sizes ≡ drop k (listed number_cmp docs q)
  unfolding pages
  pages-listed k [] = rest-listed k
  pages-listed k (n ∷ sizes) =
      let all_of = listed number_cmp docs q in
      rw (page-listed k n, pages-listed (k + n) sizes, ← drop-drop k n all_of)
        (take-drop_all n (drop k all_of))

  -- A listing by a key that can order the documents, fetched page by page in pages of any sizes, is
  -- in the order of the key, and holds each document that passes the cursor as often as it is
  -- stored: no page repeats or skips one.
  pub pages-Perm :
      (P : Doc → Type 0) (o : OrderBy) (order : List OrderBy) (sizes : List ℕ)
      → q.order_by ≡ o ∷ order
      → IsKey number_cmp P o
      → All P docs
      → IsSorted (InOrder number_cmp o) (pages 0 sizes)
        × Perm (pages 0 sizes) (keep (λ d. matches_cursor number_cmp d q) docs)
  unfolding matches_cursor
  pages-Perm P o order sizes e k ps =
      let one = pages-listed 0 sizes ∙ sym whole-listed in
      let sorted = sort_and_limit-IsSorted number_cmp P docs (whole q) o order e k ps in
      (
        subst (IsSorted (InOrder number_cmp o)) (sym one) sorted.0,
        subst (λ ds. Perm ds (keep (λ d. matches_cursor number_cmp d q) docs)) (sym one) sorted.1,
      )
