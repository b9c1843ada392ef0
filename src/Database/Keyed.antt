-- ===== src/Database/Keyed.antt =====
-- Stores in which an id names one document.
use hakobackend.Base.{
  ◌≡◌, refl, sym, ap, ◌∙◌, inl, inr, Bool, true, false, none, some, [], ◌∷◌, arith, Bool-cases, any,
  keep, is_some_and, first, nat_Eq, Str, str_eq, str_eq_iff, str_Eq, pair_eq, pair_eq_iff, pair_Eq,
}
use hakobackend.Base.Map
use hakobackend.Base.Map.{
  Map, get-insert, get-remove, Unique, get-retain, insert-Unique, remove-Unique, retain-Unique,
}
use hakobackend.Policy.Rule.{Doc}
use hakobackend.Database.Memory.{Store, docs_in}

-- An id names one document, the one that has it, and a document has no field twice.
abbrev pub IsKeyed : Store → Type 0
IsKeyed [] = Unit
IsKeyed ((key, d) ∷ store) =
    (d.id ≡ key.1) × (Map.get key store ≡ none) × Unique d.contents × IsKeyed store

pub same_key :
    (key : Str × Str) (c i : Str) (store : Store)
    → Map.get key store ≡ none
    → pair_eq key (c, i) ≡ true
    → Map.get (c, i) store ≡ none
same_key key c i store new h = rw (← (pair_eq_iff key (c, i)).0 h) new

pub insert-IsKeyed :
    (c : Str) (d : Doc) (store : Store)
    → Unique d.contents
    → IsKeyed store
    → IsKeyed (Map.insert (c, d.id) d store)
unfolding Map.insert Map.get
insert-IsKeyed c d [] u k = (refl, refl, u, tt)
insert-IsKeyed c d ((key, e) ∷ store) u (id, new, v, k) =
    elim (Bool-cases (pair_eq key (c, d.id))) [
      | inl h ↦ rw h (sym (ap (λ k. k.1) ((pair_eq_iff key (c, d.id)).0 h)), new, u, k)
      | inr h ↦
          let other : pair_eq (c, d.id) key ≡ false =
            ground (arith, pair_eq_iff key (c, d.id), pair_eq_iff (c, d.id) key) in
          rw h
            (id, rw (get-insert (c, d.id) key d store, other) new, v, insert-IsKeyed c d store u k)
    ]

pub remove-IsKeyed : (c i : Str) (store : Store) → IsKeyed store → IsKeyed (Map.remove (c, i) store)
unfolding Map.remove Map.get
remove-IsKeyed c i [] k = tt
remove-IsKeyed c i ((key, e) ∷ store) (id, new, v, k) = elim (Bool-cases (pair_eq key (c, i))) [
  | inl h ↦ rw h (remove-IsKeyed c i store k)
  | inr h ↦
      rw h (id, rw (get-remove (c, i) key store, new) (ground arith), v, remove-IsKeyed c i store k)
]

pub get-IsKeyed :
    (c i : Str) (d : Doc) (store : Store)
    → IsKeyed store
    → Map.get (c, i) store ≡ some d
    → (d.id ≡ i) × Unique d.contents
unfolding Map.get
get-IsKeyed c i d [] k h = absurd (ground arith)
get-IsKeyed c i d ((key, e) ∷ store) (id, new, v, k) h = elim (Bool-cases (pair_eq key (c, i))) [
  | inl s ↦
      let same : e ≡ d = ground (arith, h) in
      rw (← same) (id ∙ ap (λ k. k.1) ((pair_eq_iff key (c, i)).0 s), v)
  | inr s ↦ get-IsKeyed c i d store k (let h' = rw s at h in h')
]

-- A document that passes is among those listed under its id, and no other.
pub any-docs_in :
    (c i : Str) (p : Doc → Bool) (store : Store)
    → IsKeyed store
    → any (λ d. str_eq d.id i) (keep p (docs_in c store)) ≡ is_some_and (Map.get (c, i) store) p
unfolding docs_in keep any Map.get
any-docs_in c i p [] k = refl
any-docs_in c i p ((key, e) ∷ store) (id, new, v, k) =
    let rest = any-docs_in c i p store k in
    elim (Bool-cases (str_eq key.0 c)) [
      | inr f ↦ rw f rest
      | inl f ↦ elim (Bool-cases (str_eq key.1 i)) [
        | inl g ↦
            let none_left = same_key key c i store new (rw (f, g) refl) in
            let rest' = rw none_left at rest in
            elim (Bool-cases (p e)) [
              | inl h ↦ rw (f, g, h, id, g) refl
              | inr h ↦ rw (f, g, h) rest'
            ]
        | inr g ↦ elim (Bool-cases (p e)) [
          | inl h ↦ rw (f, g, h, id, g) rest
          | inr h ↦ rw (f, g, h) rest
        ]
      ]
    ]

-- The document that a listing gives first is one of the store, and it passes.
pub first-docs_in :
    (c : Str) (p : Doc → Bool) (d : Doc) (store : Store)
    → IsKeyed store
    → first (keep p (docs_in c store)) ≡ some d
    → (Map.get (c, d.id) store ≡ some d) × (p d ≡ true)
unfolding docs_in keep Map.get
first-docs_in c p d [] k h = absurd (ground arith)
first-docs_in c p d ((key, e) ∷ store) (id, new, v, k) h =
    let rest = first-docs_in c p d store k in
    elim (Bool-cases (str_eq key.0 c)) [
      | inr f ↦ let h' = rw f at h in rw f (rest h')
      | inl f ↦ elim (Bool-cases (p e)) [
        | inl passes ↦
            let h' = rw (f, passes) at h in
            let same : e ≡ d = ground (arith, h') in
            let g : str_eq key.1 d.id ≡ true =
              (str_eq_iff key.1 d.id).1 (sym id ∙ ap (λ x. x.id) same) in
            (rw (f, g, same) refl, rw (← same) passes)
        | inr fails ↦
            let h' = rw (f, fails) at h in
            let found = rest h' in
            elim (Bool-cases (str_eq key.1 d.id)) [
              | inl g ↦ absurd (
                  let lost = same_key key c d.id store new (rw (f, g) refl) in
                  let found' = rw lost at found.0 in ground arith)
              | inr g ↦ (rw (f, g) found.0, found.1)
            ]
      ]
    ]
