-- ===== src/Coalesce/Extend.antt =====
-- What a map has after `extend`.
use hakobackend.Base.{
  ◌≡◌, refl, ◌∙◌, subst, inl, inr, Bool, some, [], ◌∷◌, arith, Bool-cases, All, or_else, Eq, ◌==◌,
  nat_Eq, str_Eq, pair_Eq,
}
use hakobackend.Base.Map
use hakobackend.Base.Map.{
  Map, get-insert, get-remove, Unique, get-retain, insert-Unique, remove-Unique, retain-Unique,
}

module _ {ℓ} {K V : Type ℓ} ⦃e : Eq K⦄ where
  -- The later map wins.
  pub get-extend :
      (k : K) (a b : Map K V)
      → Unique b
      → Map.get k (Map.extend a b) ≡ or_else (Map.get k b) (Map.get k a)
  unfolding Map.get Map.extend
  get-extend k a [] u = refl
  get-extend k a ((j, v) ∷ b) u =
      get-extend k (Map.insert j v a) b u.1
      ∙ rw (get-insert j k v a) (elim (Bool-cases (j == k)) [
        | inl same ↦ rw (same, (rw ((e.equal_iff j k).0 same) at u.0)) refl
        | inr differ ↦ rw differ refl
      ])

  pub extend-Unique : (a b : Map K V) → Unique a → Unique (Map.extend a b)
  unfolding Map.extend
  extend-Unique a [] u = u
  extend-Unique a ((k, v) ∷ b) u = extend-Unique (Map.insert k v a) b (insert-Unique k v a u)

  -- A property of every value of a map.
  abbrev pub Every : (V → Type ℓ) → Map K V → Type ℓ
  Every P m = All (λ (x : K × V). P x.1) m

  pub get-Every :
      (P : V → Type ℓ) (k : K) (m : Map K V) (v : V) → Every P m → Map.get k m ≡ some v → P v
  unfolding Map.get
  get-Every P k [] v h found = absurd (ground arith)
  get-Every P k ((j, w) ∷ m) v h found = elim (Bool-cases (j == k)) [
    | inl same ↦ subst P (ground arith) h.0
    | inr differ ↦ get-Every P k m v h.1 (ground arith)
  ]

  pub insert-Every :
      (P : V → Type ℓ) (k : K) (v : V) (m : Map K V) → P v → Every P m → Every P (Map.insert k v m)
  unfolding Map.insert
  insert-Every P k v [] p h = (p, tt)
  insert-Every P k v ((j, w) ∷ m) p h = elim (Bool-cases (j == k)) [
    | inl same ↦ rw same (p, h.1)
    | inr differ ↦ rw differ (h.0, insert-Every P k v m p h.1)
  ]

  pub retain-Every :
      (P : V → Type ℓ) (q : K → V → Bool) (m : Map K V) → Every P m → Every P (Map.retain q m)
  unfolding Map.retain
  retain-Every P q [] h = tt
  retain-Every P q ((j, w) ∷ m) h = elim (Bool-cases (q j w)) [
    | inl keeps ↦ rw keeps (h.0, retain-Every P q m h.1)
    | inr drops ↦ rw drops (retain-Every P q m h.1)
  ]
