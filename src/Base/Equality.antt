-- ===== src/Base/Equality.antt =====
-- Boolean equality as an interface (Rust's `Eq`), with instances for numbers, texts and
-- pairs. A text is a list of numbers.
use mathlib.Core.Path.{◌≡◌, refl, ap}
use mathlib.Core.Logic.{◌↔◌}
use mathlib.Core.Bool.{Bool, true, false, ◌&&◌}
use mathlib.Core.List.{List, [], ◌∷◌}
use Prim.Native.Nat.{ℕ}
use Prim.Native.Char.{code}
use Prim.Native.String.{String}
use native.Mathlib.Omega.{arith}
use hakobackend.Base.Tests.{nat_eq, nat_eq_iff}

pub record Eq {ℓ} (K : Type ℓ) : Type ℓ where
  pub equal : (j k : K) → Bool
  pub equal_iff : (j k : K) → (equal j k ≡ true) ↔ (j ≡ k)

module _ {ℓ} {K : Type ℓ} ⦃e : Eq K⦄ where
  infix 50 ◌==◌
  abbrev pub ◌==◌ : (j k : K) → Bool
  j == k = e.equal j k

pub eq_refl {ℓ} : {A : Type ℓ} ⦃e : Eq A⦄ (a : A) → (a == a) ≡ true
eq_refl ⦃e⦄ a = (e.equal_iff a a).1 refl

instance abbrev pub nat_Eq : Eq ℕ
nat_Eq = record { equal = nat_eq; equal_iff = nat_eq_iff }

-- `&str` and `String`, as code points, and `[u8]`.
abbrev pub Str : Type 0
Str = List ℕ

-- The bytes of an ASCII literal.
abbrev pub str : String → Str
str String.[] = []
str (String.◌∷◌ c s) = code c ∷ str s

unfoldable pub str_eq : Str → Str → Bool
str_eq [] [] = true
str_eq (a ∷ s) (b ∷ t) = nat_eq a b && str_eq s t
str_eq _ _ = false

str_eq_refl : (s : Str) → str_eq s s ≡ true
unfolding str_eq
str_eq_refl [] = refl
str_eq_refl (a ∷ s) = ground (arith, str_eq_refl s)

str_eq→eq : (s t : Str) → str_eq s t ≡ true → s ≡ t
unfolding str_eq
str_eq→eq [] [] h = refl
str_eq→eq (a ∷ s) (b ∷ t) h = ground (arith, str_eq→eq s t)
str_eq→eq [] (b ∷ t) h = cc
str_eq→eq (a ∷ s) [] h = cc

pub str_eq_iff : (s t : Str) → (str_eq s t ≡ true) ↔ (s ≡ t)
str_eq_iff s t = (str_eq→eq s t, λ e. rw (← e) (str_eq_refl s))

instance abbrev pub str_Eq : Eq Str
str_Eq = record { equal = str_eq; equal_iff = str_eq_iff }

abbrev pub pair_eq : Str × Str → Str × Str → Bool
pair_eq a b = str_eq a.0 b.0 && str_eq a.1 b.1

pub pair_eq_iff : (a b : Str × Str) → (pair_eq a b ≡ true) ↔ (a ≡ b)
pair_eq_iff (a, c) (b, d) = (
  ground (arith, (str_eq_iff a b).0, (str_eq_iff c d).0),
  λ e. ground (arith, (str_eq_iff a b).1 (ap (λ p. p.0) e), (str_eq_iff c d).1 (ap (λ p. p.1) e)),
)

-- Keys that are two texts.
instance abbrev pub pair_Eq : Eq (Str × Str)
pair_Eq = record { equal = pair_eq; equal_iff = pair_eq_iff }
