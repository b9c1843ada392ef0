-- ===== src/Text/Order.antt =====
-- The lexicographic order of texts (`Ord for str`): UTF-8 keeps the order of code points.
use hakobackend.Base.{◌≡◌, refl, Bool, true, false, ◌&&◌, ◌||◌, [], ◌∷◌, Str, arith, nat_eq, ltb}

unfoldable pub str_lt : Str → Str → Bool
str_lt [] [] = false
str_lt [] (b ∷ t) = true
str_lt (a ∷ s) [] = false
str_lt (a ∷ s) (b ∷ t) = ltb a b || (nat_eq a b && str_lt s t)

pub str_lt_irrefl : (s : Str) → str_lt s s ≡ false
unfolding str_lt
str_lt_irrefl [] = refl
str_lt_irrefl (a ∷ s) = ground (arith, str_lt_irrefl s)

pub str_lt_trans : (s t u : Str) → str_lt s t ≡ true → str_lt t u ≡ true → str_lt s u ≡ true
unfolding str_lt
str_lt_trans [] [] u h k = absurd (ground arith)
str_lt_trans [] (b ∷ t) [] h k = k
str_lt_trans [] (b ∷ t) (c ∷ u) h k = refl
str_lt_trans (a ∷ s) [] u h k = absurd (ground arith)
str_lt_trans (a ∷ s) (b ∷ t) [] h k = k
str_lt_trans (a ∷ s) (b ∷ t) (c ∷ u) h k = ground (arith, str_lt_trans s t u)

-- Two texts neither of which is below the other are equal.
pub str_lt_antisymm : (s t : Str) → str_lt s t ≡ false → str_lt t s ≡ false → s ≡ t
unfolding str_lt
str_lt_antisymm [] [] h k = refl
str_lt_antisymm [] (b ∷ t) h k = cc
str_lt_antisymm (a ∷ s) [] h k = cc
str_lt_antisymm (a ∷ s) (b ∷ t) h k = ground (arith, str_lt_antisymm s t)

-- The order is total: not being below is transitive.
pub not_str_lt_trans : (s t u : Str) → str_lt s t ≡ false → str_lt t u ≡ false → str_lt s u ≡ false
unfolding str_lt
not_str_lt_trans [] [] u h k = k
not_str_lt_trans [] (b ∷ t) u h k = absurd (ground arith)
not_str_lt_trans (a ∷ s) [] [] h k = refl
not_str_lt_trans (a ∷ s) [] (c ∷ u) h k = absurd (ground arith)
not_str_lt_trans (a ∷ s) (b ∷ t) [] h k = refl
not_str_lt_trans (a ∷ s) (b ∷ t) (c ∷ u) h k = ground (arith, not_str_lt_trans s t u)

pub str_lt_asymm : (s t : Str) → str_lt s t ≡ true → str_lt t s ≡ false
unfolding str_lt
str_lt_asymm [] [] h = absurd (ground arith)
str_lt_asymm [] (b ∷ t) h = refl
str_lt_asymm (a ∷ s) [] h = absurd (ground arith)
str_lt_asymm (a ∷ s) (b ∷ t) h = ground (arith, str_lt_asymm s t)
