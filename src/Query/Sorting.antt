-- ===== src/Query/Sorting.antt =====
-- The order of a listing.
use hakobackend.Base.{
  ℕ, zero, suc, min, ◌≡◌, refl, sym, subst, inl, inr, Bool, true, false, Option, none, some, List,
  [], ◌∷◌, arith, if◌then◌else◌, Bool-cases, Option-cases, length, keep, take, drop, All, unwrap_or,
  nat_Eq, Str, str, str_eq, str_Eq, pair_Eq,
}
use mathlib.Core.List.{Perm}
use mathlib.Core.List.Perm
use hakobackend.Json.{Number, number, string, value_eq}
use hakobackend.Policy.Rule.{Doc}
use hakobackend.Query.{
  is_nil, Order, less, same, greater, is_same, is_less, is_greater, asc, OrderBy, QueryOptions,
  nested, skip, apply_offset_limit, cmp_json, matches_cursor, apply_cursor, cmp_field, cmp_key,
  cmp_docs, insert_by, sort_by, sort_and_limit,
}

abbrev pub IsSorted : (Doc → Doc → Type 0) → List Doc → Type 0
IsSorted R [] = Unit
IsSorted R (x ∷ xs) = All (R x) xs × IsSorted R xs

-- A comparison that decides, among documents of a kind, a transitive relation, or one finer than it.
pub record Decides (P : Doc → Type 0) (R : Doc → Doc → Type 0) (cmp : Doc → Doc → Order)
    : Type 0 where
  pub trans : (a b c : Doc) → P a → P b → P c → R a b → R b c → R a c
  pub above : (a b : Doc) → P a → P b → is_greater (cmp a b) ≡ true → R b a
  pub below : (a b : Doc) → P a → P b → is_greater (cmp a b) ≡ false → R a b

module _ (P : Doc → Type 0) (R : Doc → Doc → Type 0) (cmp : Doc → Doc → Order)
    (d : Decides P R cmp) where
  All-le : (x y : Doc) (ys : List Doc) → P x → P y → All P ys → R x y → All (R y) ys → All (R x) ys
  All-le x y [] px py ps r h = tt
  All-le x y (z ∷ zs) px py ps r h =
      (d.trans x y z px py ps.0 r h.0, All-le x y zs px py ps.1 r h.1)

  insert_by-All :
      (Q : Doc → Type 0) (x : Doc) (ys : List Doc) → Q x → All Q ys → All Q (insert_by cmp x ys)
  unfolding insert_by
  insert_by-All Q x [] r h = (r, tt)
  insert_by-All Q x (y ∷ ys) r h = elim (Bool-cases (is_greater (cmp x y))) [
    | inl e ↦ rw e (h.0, insert_by-All Q x ys r h.1)
    | inr e ↦ rw e (r, h)
  ]

  insert_by-IsSorted :
      (x : Doc) (ys : List Doc) → P x → All P ys → IsSorted R ys → IsSorted R (insert_by cmp x ys)
  unfolding insert_by
  insert_by-IsSorted x [] px ps s = (tt, tt)
  insert_by-IsSorted x (y ∷ ys) px ps s = elim (Bool-cases (is_greater (cmp x y))) [
    | inl e ↦
        rw e (
          insert_by-All (R y) x ys (d.above x y px ps.0 e) s.0,
          insert_by-IsSorted x ys px ps.1 s.1,
        )
    | inr e ↦ let le = d.below x y px ps.0 e in rw e ((le, All-le x y ys px ps.0 ps.1 le s.0), s)
  ]

  sort_by-All : (xs : List Doc) → All P xs → All P (sort_by cmp xs)
  unfolding sort_by
  sort_by-All [] ps = tt
  sort_by-All (x ∷ xs) ps = insert_by-All P x (sort_by cmp xs) ps.0 (sort_by-All xs ps.1)

  sort_by-IsSorted : (xs : List Doc) → All P xs → IsSorted R (sort_by cmp xs)
  unfolding sort_by
  sort_by-IsSorted [] ps = tt
  sort_by-IsSorted (x ∷ xs) ps =
      insert_by-IsSorted x (sort_by cmp xs) ps.0 (sort_by-All xs ps.1) (sort_by-IsSorted xs ps.1)

module _ (p : Doc → Bool) (cmp : Doc → Doc → Order) where
  insert_by-perm : (x : Doc) (ys : List Doc) → Perm (keep p (insert_by cmp x ys)) (keep p (x ∷ ys))
  unfolding keep insert_by
  insert_by-perm x [] = Perm.rfl
  insert_by-perm x (y ∷ ys) = elim (Bool-cases (is_greater (cmp x y))) [
    | inr e ↦ rw e Perm.rfl
    | inl e ↦
        let rest = insert_by-perm x ys in
        elim (Bool-cases (p y)) [
          | inr out ↦ let rest' = rest in rw (e, out) rest'
          | inl in_ ↦ elim (Bool-cases (p x)) [
            | inl both ↦
                let rest' = rw both at rest in
                rw (e, in_, both) (Perm.trans (Perm.cons y rest') (Perm.swap x y (keep p ys)))
            | inr one ↦ let rest' = rw one at rest in rw (e, in_, one) (Perm.cons y rest')
          ]
        ]
  ]

  sort_by-perm : (xs : List Doc) → Perm (keep p (sort_by cmp xs)) (keep p xs)
  unfolding sort_by keep
  sort_by-perm [] = Perm.rfl
  sort_by-perm (x ∷ xs) =
      let rest = sort_by-perm xs in
      Perm.trans (insert_by-perm x (sort_by cmp xs))
        (elim (Bool-cases (p x)) [ inl e ↦ rw e (Perm.cons x rest) | inr e ↦ rw e rest ])

module _ (R : Doc → Doc → Type 0) where
  keep-All : (p : Doc → Bool) (w : Doc) (xs : List Doc) → All (R w) xs → All (R w) (keep p xs)
  unfolding keep
  keep-All p w [] h = tt
  keep-All p w (x ∷ xs) h = elim (Bool-cases (p x)) [
    | inl e ↦ rw e (h.0, keep-All p w xs h.1)
    | inr e ↦ rw e (keep-All p w xs h.1)
  ]

  keep-IsSorted : (p : Doc → Bool) (xs : List Doc) → IsSorted R xs → IsSorted R (keep p xs)
  unfolding keep
  keep-IsSorted p [] s = tt
  keep-IsSorted p (x ∷ xs) s = elim (Bool-cases (p x)) [
    | inl e ↦ rw e (keep-All p x xs s.0, keep-IsSorted p xs s.1)
    | inr e ↦ rw e (keep-IsSorted p xs s.1)
  ]

  drop-IsSorted : (n : ℕ) (xs : List Doc) → IsSorted R xs → IsSorted R (drop n xs)
  drop-IsSorted zero xs s = s
  drop-IsSorted (suc n) [] s = s
  drop-IsSorted (suc n) (x ∷ xs) s = drop-IsSorted n xs s.1

  take-All : (w : Doc) (n : ℕ) (xs : List Doc) → All (R w) xs → All (R w) (take n xs)
  take-All w zero xs h = tt
  take-All w (suc n) [] h = tt
  take-All w (suc n) (x ∷ xs) h = (h.0, take-All w n xs h.1)

  take-IsSorted : (n : ℕ) (xs : List Doc) → IsSorted R xs → IsSorted R (take n xs)
  take-IsSorted zero xs s = tt
  take-IsSorted (suc n) [] s = tt
  take-IsSorted (suc n) (x ∷ xs) s = (take-All x n xs s.0, take-IsSorted n xs s.1)

  apply_offset_limit-IsSorted :
      (xs : List Doc) (q : QueryOptions) → IsSorted R xs → IsSorted R (apply_offset_limit xs q)
  unfolding apply_offset_limit
  apply_offset_limit-IsSorted xs q s =
      let rest = drop-IsSorted (min (unwrap_or q.offset 0) (length xs)) xs s in
      elim (Option-cases q.limit) [
        | inl e ↦ rw e rest
        | inr (n, e) ↦ rw e (take-IsSorted n (skip (unwrap_or q.offset 0) xs) rest)
      ]

-- the query without its page
abbrev pub whole : QueryOptions → QueryOptions
whole q = record q { offset = none; limit = none }

skip_none : {A : Type 0} → (xs : List A) → skip 0 xs ≡ xs
skip_none xs = let e : min 0 (length xs) ≡ 0 = ground arith in rw e refl

module _ (number_cmp : Number → Number → Option Order) where
  -- in the order of the first key, or equal in it
  abbrev pub InOrder : OrderBy → Doc → Doc → Type 0
  InOrder o a b = is_greater (cmp_key number_cmp o a b) ≡ false

  -- A key by which documents of a kind can be ordered: of two of which the first is not below the
  -- second, the swapped ones are in order, and the order is transitive.
  pub record IsKey (P : Doc → Type 0) (o : OrderBy) : Type 0 where
    pub swap : (a b : Doc) → P a → P b → is_less (cmp_key number_cmp o a b) ≡ false → InOrder o b a
    pub trans : (a b c : Doc) → P a → P b → P c → InOrder o a b → InOrder o b c → InOrder o a c

  first_above : (k r : Order) → is_greater (if is_same k then r else k) ≡ true → is_less k ≡ false
  first_above less r h = sym h
  first_above same r h = refl
  first_above greater r h = refl

  first_below :
      (k r : Order) → is_greater (if is_same k then r else k) ≡ false → is_greater k ≡ false
  first_below less r h = refl
  first_below same r h = refl
  first_below greater r h = h

  cmp_docs-Decides :
      (P : Doc → Type 0) (o : OrderBy) (order : List OrderBy)
      → IsKey P o
      → Decides P (InOrder o) (cmp_docs number_cmp (o ∷ order))
  unfolding cmp_docs
  cmp_docs-Decides P o order k = record {
    trans = k.trans;
    above = λ a b pa pb e.
        k.swap a b pa pb (first_above (cmp_key number_cmp o a b) (cmp_docs number_cmp order a b) e);
    below = λ a b pa pb e. first_below (cmp_key number_cmp o a b) (cmp_docs number_cmp order a b) e;
  }

  -- A listing of documents that a key can order comes in its order, whatever the further keys, the
  -- cursor and the page; without a page it is the documents that pass the cursor, rearranged.
  pub sort_and_limit-IsSorted :
      (P : Doc → Type 0) (docs : List Doc) (q : QueryOptions) (o : OrderBy) (order : List OrderBy)
      → q.order_by ≡ o ∷ order
      → IsKey P o
      → All P docs
      → IsSorted (InOrder o) (sort_and_limit number_cmp docs q)
        × Perm
            (sort_and_limit number_cmp docs (whole q))
            (keep (λ d. matches_cursor number_cmp d q) docs)
  unfolding sort_and_limit apply_cursor apply_offset_limit matches_cursor
  sort_and_limit-IsSorted P docs q o order e k ps =
      let cmp = cmp_docs number_cmp (o ∷ order) in
      let passes = λ (d : Doc). matches_cursor number_cmp d q in
      let sorted = sort_by-IsSorted P (InOrder o) cmp (cmp_docs-Decides P o order k) docs ps in
      (
        apply_offset_limit-IsSorted (InOrder o) _ q (
            keep-IsSorted (InOrder o) passes _ (
              subst
                (λ os.
                  IsSorted (InOrder o)
                    (if is_nil os then docs else sort_by (cmp_docs number_cmp os) docs))
                (sym e) sorted)),
        subst
            (λ os.
              Perm
                (skip 0
                  (keep passes (if is_nil os then docs else sort_by (cmp_docs number_cmp os) docs)))
                (keep passes docs))
            (sym e)
            (rw (skip_none (keep passes (sort_by cmp docs))) (sort_by-perm passes cmp docs)),
      )

  -- Fields of several types are no such key: of two numbers and a text between them, which compares
  -- equal to both, the order is not transitive, and `sort_by` is given no order at all.
  pub mixed-not-IsKey :
      (P : Doc → Type 0) (field : Str) (a b c : Doc) (x y : Number) (t : Str)
      → P a
      → P b
      → P c
      → str_eq field (str "id") ≡ false
      → nested a.contents field ≡ some (number x)
      → nested b.contents field ≡ some (string t)
      → nested c.contents field ≡ some (number y)
      → number_cmp x y ≡ some greater
      → ¬ IsKey P (record { field = field; direction = asc })
  unfolding cmp_field cmp_json value_eq
  mixed-not-IsKey P field a b c x y t pa pb pc plain ha hb hc out k =
      let ab : cmp_field number_cmp field a b ≡ same = rw (plain, ha, hb, cmp_field) refl in
      let bc : cmp_field number_cmp field b c ≡ same = rw (plain, hb, hc, cmp_field) refl in
      let ac : cmp_field number_cmp field a c ≡ greater = rw (plain, ha, hc, cmp_field, out) refl in
      let wrong = k.trans a b c pa pb pc (rw ab refl) (rw bc refl) in
      let wrong' = rw ac at wrong in absurd (ground arith)
