-- ===== src/Atomics/Arrays.antt =====
-- The elements of an array after an array sentinel: two values are the same element if their texts are.
use hakobackend.Base.{
  ◌≡◌, refl, ◌∙◌, true, not, ◌&&◌, ◌||◌, List, [], ◌∷◌, arith, any, keep, any-append, nat_Eq,
  str_eq, str_eq_iff, str_Eq, pair_Eq,
}
use hakobackend.Json.{Value}
use hakobackend.Atomics.Update.{Externals, has_text, array_union, array_remove}

module _ (x : Externals) (v : Value) where
  same_text :
      (u w : Value) (us : List Value)
      → str_eq (x.to_text u) (x.to_text w) ≡ true
      → has_text x u us ≡ has_text x w us
  unfolding has_text
  same_text u w us h = rw ((str_eq_iff (x.to_text u) (x.to_text w)).0 h) refl

  has_text-keep :
      (arr els : List Value)
      → (has_text x v arr || has_text x v (keep (λ el. not (has_text x el arr)) els))
        ≡ (has_text x v arr || has_text x v els)
  unfolding any keep has_text
  has_text-keep arr [] = refl
  has_text-keep arr (el ∷ els) = ground (arith, has_text-keep arr els, same_text el v arr)

  -- An array union has the elements of the array and those of the sentinel, and no others.
  pub has_text-array_union :
      (arr els : List Value)
      → has_text x v (array_union x arr els) ≡ (has_text x v arr || has_text x v els)
  unfolding array_union
  has_text-array_union arr els =
      unfold has_text in
      (any-append (λ w. str_eq (x.to_text w) (x.to_text v)) arr
          (keep (λ el. not (has_text x el arr)) els)
        ∙ has_text-keep arr els)

  -- An array removal leaves the elements of the array that the sentinel does not name.
  pub has_text-array_remove :
      (arr gone : List Value)
      → has_text x v (array_remove x arr gone) ≡ (has_text x v arr && not (has_text x v gone))
  unfolding array_remove has_text keep any
  has_text-array_remove [] gone = refl
  has_text-array_remove (w ∷ arr) gone =
      ground (arith, has_text-array_remove arr gone, same_text w v gone)
