-- ===== src/Text/Split.antt =====
-- `split`, `split_once` and `join` undo one another.
use hakobackend.Base.{
  ℕ, ◌≡◌, refl, ap, ◌≢◌, true, false, some, List, [], ◌∷◌, ◌++◌, Str, arith, nat_eq, all, not,
  Bool-cases, Option-cases, inl, inr, nat_eq_iff,
}
use hakobackend.Text.{has, split, push_first, split_once, join, strip_prefix}

pub split-ne-nil : (sep : ℕ) (s : Str) → split sep s ≢ []
unfolding split
split-ne-nil sep [] h = cc
split-ne-nil sep (c ∷ s) h = ground (arith, split-ne-nil sep s)

join-push_first :
    (sep c : ℕ) (segs : List Str) → segs ≢ [] → join sep (push_first c segs) ≡ c ∷ join sep segs
unfolding join push_first
join-push_first sep c [] h = absurd (h refl)
join-push_first sep c (seg ∷ []) h = refl
join-push_first sep c (seg ∷ seg' ∷ segs) h = refl

join-nil-cons : (sep : ℕ) (segs : List Str) → segs ≢ [] → join sep ([] ∷ segs) ≡ sep ∷ join sep segs
unfolding join
join-nil-cons sep [] h = absurd (h refl)
join-nil-cons sep (seg ∷ segs) h = refl

-- Joining the segments of a text gives the text back.
pub join-split : (sep : ℕ) (s : Str) → join sep (split sep s) ≡ s
unfolding split
join-split sep [] = unfold join in refl
join-split sep (c ∷ s) = elim (Bool-cases (nat_eq c sep)) [
  | inl e ↦ rw e (
      rw
        (
          join-nil-cons sep (split sep s) (split-ne-nil sep s),
          join-split sep s,
          (nat_eq_iff c sep).0 e,
        )
        refl)
  | inr e ↦
      rw e (rw (join-push_first sep c (split sep s) (split-ne-nil sep s), join-split sep s) refl)
]

-- A text without the separator is one segment.
pub split_of_free : (sep : ℕ) (s : Str) → has sep s ≡ false → split sep s ≡ s ∷ []
unfolding split has push_first
split_of_free sep [] h = refl
split_of_free sep (c ∷ s) h = ground (arith, split_of_free sep s)

pub split-append :
    (sep : ℕ) (a s : Str) → has sep a ≡ false → split sep (a ++ sep ∷ s) ≡ a ∷ split sep s
unfolding split has push_first
split-append sep [] s h = ground arith
split-append sep (c ∷ a) s h = ground (arith, split-append sep a s)

-- Splitting a join of segments without the separator gives the segments back.
pub split-join :
    (sep : ℕ) (seg : Str) (segs : List Str)
    → all (λ s. not (has sep s)) (seg ∷ segs) ≡ true
    → split sep (join sep (seg ∷ segs)) ≡ seg ∷ segs
unfolding join all
split-join sep seg [] h = split_of_free sep seg (ground arith)
split-join sep seg (seg' ∷ segs) h =
    rw (split-append sep seg (join sep (seg' ∷ segs)) (ground arith))
      (ap (◌∷◌ seg) (split-join sep seg' segs (ground arith)))

-- `split_once` cuts at the first separator.
pub split_once-append :
    (sep : ℕ) (a s : Str) → has sep a ≡ false → split_once sep (a ++ sep ∷ s) ≡ some (a, s)
unfolding split_once has
split_once-append sep [] s h = ground arith
split_once-append sep (c ∷ a) s h = ground (arith, split_once-append sep a s)

pub split_once_sound :
    (sep : ℕ) (s a b : Str)
    → split_once sep s ≡ some (a, b)
    → (s ≡ a ++ sep ∷ b) × (has sep a ≡ false)
unfolding split_once has
split_once_sound sep [] a b h = absurd (ground arith)
split_once_sound sep (c ∷ s) a b h = elim (Option-cases (split_once sep s)) [
  | inl e ↦ ground arith
  | inr (x, e) ↦ ground (arith, split_once_sound sep s x.0 x.1)
]

-- `strip_prefix` takes off exactly the prefix.
pub strip_prefix_sound : (p s t : Str) → strip_prefix p s ≡ some t → s ≡ p ++ t
unfolding strip_prefix
strip_prefix_sound [] s t h = ground arith
strip_prefix_sound (a ∷ p) [] t h = absurd (ground arith)
strip_prefix_sound (a ∷ p) (b ∷ s) t h = ground (arith, strip_prefix_sound p s t)

pub strip_prefix-append : (p t : Str) → strip_prefix p (p ++ t) ≡ some t
unfolding strip_prefix
strip_prefix-append [] t = refl
strip_prefix-append (a ∷ p) t = ground (arith, strip_prefix-append p t)
