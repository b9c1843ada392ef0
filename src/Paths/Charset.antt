-- ===== src/Paths/Charset.antt =====
-- The characters of a valid collection path.
use hakobackend.Base.{
  ℕ, ◌≡◌, refl, sym, ◌∙◌, inl, inr, Bool, true, false, not, ◌&&◌, ◌||◌, List, [], ◌∷◌, arith,
  nat_eq, Bool-cases, all, keep, nat_Eq, Str, str_Eq, pair_Eq,
}
use hakobackend.Text.{push_first, split, is_empty}
use hakobackend.Paths.{segments, is_name_char, valid_segment, valid_collection_path}

all-keep :
    (p : Str → Bool) (xs : List Str)
    → p [] ≡ true
    → all p (keep (λ seg. not (is_empty seg)) xs) ≡ all p xs
unfolding all keep
all-keep p [] h = refl
all-keep p ([] ∷ xs) h = ground (arith, all-keep p xs h)
all-keep p ((c ∷ seg) ∷ xs) h = ground (arith, all-keep p xs h)

all_le :
    (p q : Str → Bool) (xs : List Str)
    → ((x : Str) → p x ≡ true → q x ≡ true)
    → all p xs ≡ true
    → all q xs ≡ true
unfolding all
all_le p q [] h e = refl
all_le p q (x ∷ xs) h e = ground (arith, h x, all_le p q xs h)

all-push_first :
    (p : ℕ → Bool) (c : ℕ) (segs : List Str)
    → all (all p) (push_first c segs) ≡ (p c && all (all p) segs)
unfolding all push_first
all-push_first p c [] = ground arith
all-push_first p c (seg ∷ segs) = ground arith

-- The characters of the parts and the separators make up the text.
all-split :
    (p : ℕ → Bool) (sep : ℕ) (s : Str)
    → all (all p) (split sep s) ≡ true
    → all (λ c. p c || nat_eq c sep) s ≡ true
unfolding all split
all-split p sep [] h = refl
all-split p sep (c ∷ s) h = elim (Bool-cases (nat_eq c sep)) [
  | inl same ↦ let h' = rw (same, split) at h in ground (arith, all-split p sep s)
  | inr differ ↦
      let h' = rw (differ, split, all-push_first p c (split sep s)) at h in
      ground (arith, all-split p sep s)
]

valid_segment-chars : (seg : Str) → valid_segment seg ≡ true → all is_name_char seg ≡ true
unfolding valid_segment
valid_segment-chars seg h = ground arith

-- A valid collection path is not empty, and has no characters but letters, digits, `_`, `-` and the
-- separator `/`: no dots, no control characters, nothing beyond ASCII.
pub valid_collection_path_sound :
    (s : Str)
    → valid_collection_path s ≡ true
    → (is_empty s ≡ false) × (all (λ c. is_name_char c || nat_eq c b'/') s ≡ true)
unfolding valid_collection_path segments
valid_collection_path_sound s h = (
  ground arith,
  all-split is_name_char b'/' s (
      sym (all-keep (all is_name_char) (split b'/' s) refl)
      ∙ all_le valid_segment (all is_name_char) (segments s) valid_segment-chars (ground arith)),
)
