-- ===== src/Paths/Documents.antt =====
-- What a document path is split into.
use hakobackend.Base.{
  ℕ, zero, suc, ◌-◌, ◌%◌, ◌<◌, ◌≡◌, refl, sym, ap, ◌∙◌, ◌⊎◌, inl, inr, Bool, true, false, not, ◌&&◌,
  List, [], ◌∷◌, ◌++◌, arith, nat_eq, if◌then◌else◌, nat_eq_iff, Bool-cases, length, all, keep,
  take, drop, unwrap_or, first, nat_Eq, Str, str_Eq, pair_Eq,
}
use hakobackend.Text.{has, push_first, split, join, is_empty, trim_matches}
use mathlib.Core.List.{append_assoc}
use hakobackend.Paths.{PathKind, document, collection, segments, parse_collection_path}

abbrev is_full : Str → Bool
is_full seg = not (is_empty seg)

abbrev is_free : ℕ → Str → Bool
is_free sep seg = not (has sep seg)

abbrev is_segment : Str → Bool
is_segment seg = is_full seg && is_free b'/' seg

odd_of : (n : ℕ) → nat_eq (n % 2) 0 ≡ false → n % 2 ≡ 1
odd_of n h = ground (arith, h)

join-last :
    (x y : Str) (xs : List Str)
    → join b'/' (x ∷ y ∷ xs)
      ≡ join b'/' (take (suc (length xs)) (x ∷ y ∷ xs))
        ++ b'/' ∷ unwrap_or (first (drop (suc (length xs)) (x ∷ y ∷ xs))) []
unfolding join
join-last x y [] = refl
join-last x y (z ∷ xs) =
    ap (λ t. x ++ b'/' ∷ t) (join-last y z xs)
    ∙ sym (
        append_assoc x (b'/' ∷ join b'/' (take (suc (length xs)) (y ∷ z ∷ xs)))
          (b'/' ∷ unwrap_or (first (drop (suc (length xs)) (y ∷ z ∷ xs))) []))

last-segment :
    (xs : List Str) (n : ℕ)
    → n < length xs
    → all is_segment xs ≡ true
    → is_segment (unwrap_or (first (drop n xs)) []) ≡ true
unfolding all
last-segment [] n h e = absurd (omega arith)
last-segment (x ∷ xs) zero h e = ground arith
last-segment (x ∷ xs) (suc n) h e = last-segment xs n (omega arith) (ground arith)

all-push_first :
    (sep c : ℕ) (segs : List Str)
    → nat_eq c sep ≡ false
    → all (is_free sep) segs ≡ true
    → all (is_free sep) (push_first c segs) ≡ true
unfolding push_first all has
all-push_first sep c [] e h = ground arith
all-push_first sep c (seg ∷ segs) e h = ground arith

split-free : (sep : ℕ) (s : Str) → all (is_free sep) (split sep s) ≡ true
unfolding split all has
split-free sep [] = refl
split-free sep (c ∷ s) = elim (Bool-cases (nat_eq c sep)) [
  | inl e ↦ rw e (split-free sep s)
  | inr e ↦ rw e (all-push_first sep c (split sep s) e (split-free sep s))
]

keep-segments :
    (xs : List Str) → all (is_free b'/') xs ≡ true → all is_segment (keep is_full xs) ≡ true
unfolding all keep has
keep-segments [] h = refl
keep-segments ([] ∷ xs) h = keep-segments xs (ground arith)
keep-segments ((c ∷ x) ∷ xs) h = ground (arith, keep-segments xs)

-- what a path names, by the number of its segments
abbrev pub Describes : Str → PathKind → Type 0
Describes raw (document c id) =
    let segs = segments (trim_matches b'/' raw) in
    (length segs % 2 ≡ 0)
    × (nat_eq (length segs) 0 ≡ false)
    × (join b'/' segs ≡ c ++ b'/' ∷ id)
    × (is_empty id ≡ false)
    × (has b'/' id ≡ false)
Describes raw (collection c) =
    let segs = segments (trim_matches b'/' raw) in
    ((length segs % 2 ≡ 1) ⊎ (length segs ≡ 0)) × (c ≡ trim_matches b'/' raw)

-- A path with an even number of segments, one at least, names a document; any other path names the
-- collection of its text without the slashes around it. A document's id is not empty and holds no
-- slash, and its collection and its id are the segments put together again.
pub parse_collection_path_sound : (raw : Str) → Describes raw (parse_collection_path raw)
unfolding parse_collection_path
parse_collection_path_sound raw =
    go (segments (trim_matches b'/' raw))
      (unfold segments in
        keep-segments (split b'/' (trim_matches b'/' raw))
          (split-free b'/' (trim_matches b'/' raw)))
      refl
  where
    go :
        (segs : List Str)
        → all is_segment segs ≡ true
        → segments (trim_matches b'/' raw) ≡ segs
        → Describes raw (
            let n = length segs in
            if nat_eq (n % 2) 0 && not (nat_eq n 0)
            then document (join b'/' (take (n - 1) segs)) (unwrap_or (first (drop (n - 1) segs)) [])
            else collection (trim_matches b'/' raw))
    go [] full e = (inr (rw e refl), refl)
    go (x ∷ []) full e = (inl (rw e refl), refl)
    go (x ∷ y ∷ xs) full e =
        let shorter : suc (suc (length xs)) - 1 ≡ suc (length xs) = omega arith in
        let some_left : nat_eq (length (x ∷ y ∷ xs)) 0 ≡ false = ground arith in
        let id = unwrap_or (first (drop (suc (length xs)) (x ∷ y ∷ xs))) [] in
        let last = last-segment (x ∷ y ∷ xs) (suc (length xs)) (omega arith) full in
        elim (Bool-cases (nat_eq (length (x ∷ y ∷ xs) % 2) 0)) [
          | inr odd ↦ rw odd (inl (rw e (omega (arith, odd_of (length (x ∷ y ∷ xs)) odd))), refl)
          | inl even ↦
              rw (even, some_left, shorter)
                (
                  rw e ((nat_eq_iff (length (x ∷ y ∷ xs) % 2) 0).0 even),
                  rw e some_left,
                  rw e (join-last x y xs),
                  (ground (arith, last)),
                  (ground (arith, last)),
                )
        ]
