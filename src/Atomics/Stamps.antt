-- ===== src/Atomics/Stamps.antt =====
-- The timestamps that the server adds, and array unions.
use hakobackend.Base.{
  ◌≡◌, refl, ap, ◌∙◌, inl, inr, false, ◌||◌, Option, none, some, if◌then◌else◌, Bool-cases,
  Option-cases, unwrap_or, or_else, nat_Eq, Str, str_eq, str_eq_iff, str_Eq, pair_Eq,
}
use hakobackend.Base.Map
use hakobackend.Base.Map.{
  Map, get-insert, get-remove, Unique, get-retain, insert-Unique, remove-Unique, retain-Unique,
}
use hakobackend.Json.{Value, string}
use hakobackend.Atomics.Resolve.{created_at, updated_at, or_insert, stamp_new, stamp_update}

get-or_insert :
    (k j : Str) (v : Value) (m : Map Str Value)
    → Map.get j (or_insert k v m)
      ≡ (if str_eq k j then some (unwrap_or (Map.get k m) v) else Map.get j m)
unfolding or_insert
get-or_insert k j v m = elim (Option-cases (Map.get k m)) [
  | inl e ↦ rw (e, or_insert) (get-insert k j v m)
  | inr (w, e) ↦ elim (Bool-cases (str_eq k j)) [
    | inl s ↦ rw (e, s) (rw (← (str_eq_iff k j).0 s) e)
    | inr s ↦ rw (e, s) refl
  ]
]

-- A new document has both timestamps: those of its author where it has them, else the server's;
-- its other fields are its author's.
pub get-stamp_new :
    (ts : Str) (contents : Map Str Value) (k : Str)
    → Map.get k (stamp_new ts contents) ≡ (
        if str_eq updated_at k || str_eq created_at k
        then some (unwrap_or (Map.get k contents) (string ts))
        else Map.get k contents)
unfolding stamp_new
get-stamp_new ts contents k =
    let differ : str_eq created_at updated_at ≡ false = unfold str_eq in refl in
    get-or_insert updated_at k (string ts) (or_insert created_at (string ts) contents)
    ∙ rw
        (
          get-or_insert created_at updated_at (string ts) contents,
          get-or_insert created_at k (string ts) contents,
          differ,
        )
        (elim (Bool-cases (str_eq updated_at k)) [
          | inl e ↦ rw e (
              ap (λ (j : Str). some (unwrap_or (Map.get j contents) (string ts)))
                ((str_eq_iff updated_at k).0 e))
          | inr e ↦ rw e (elim (Bool-cases (str_eq created_at k)) [
            | inl e' ↦ rw e' (
                ap (λ (j : Str). some (unwrap_or (Map.get j contents) (string ts)))
                  ((str_eq_iff created_at k).0 e'))
            | inr e' ↦ rw e' refl
          ])
        ])

-- An update has the server's time as its `updatedAt`; its `createdAt` is the update's own, else
-- the one of the stored document; its other fields are the update's.
pub get-stamp_update :
    (ts : Str) (contents : Map Str Value) (created : Option Value) (k : Str)
    → Map.get k (stamp_update ts contents created) ≡ (
        if str_eq updated_at k
        then some (string ts)
        else if str_eq created_at k
        then or_else (Map.get created_at contents) created
        else Map.get k contents)
unfolding stamp_update
get-stamp_update ts contents none k =
    get-insert updated_at k (string ts) contents ∙ elim (Bool-cases (str_eq created_at k)) [
      | inl e ↦
          rw (e, (str_eq_iff created_at k).0 e)
            (elim (Option-cases (Map.get k contents)) [
              | inl m ↦ rw m refl
              | inr (w, m) ↦ rw m refl
            ])
      | inr e ↦ rw e refl
    ]
get-stamp_update ts contents (some c) k =
    get-insert updated_at k (string ts) (or_insert created_at c contents)
    ∙ rw (get-or_insert created_at k c contents)
        (elim (Option-cases (Map.get created_at contents)) [
          | inl m ↦ rw m refl
          | inr (w, m) ↦ rw m refl
        ])
