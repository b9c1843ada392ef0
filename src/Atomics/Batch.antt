-- ===== src/Atomics/Batch.antt =====
-- A whole merge write: each update finds the stored value at its own path.
use hakobackend.Base.{
  ◌≡◌, refl, ◌∙◌, ◌≢◌, true, List, [], ◌∷◌, arith, All, nat_Eq, Str, str_eq_iff, str_Eq, pair_Eq,
}
use hakobackend.Base.Map
use hakobackend.Base.Map.{
  Map, get-insert, get-remove, Unique, get-retain, insert-Unique, remove-Unique, retain-Unique,
}
use hakobackend.Text.{split}
use hakobackend.Json.{Value, object, Fields, no_fields, field, to_map, get_field, of_map, is_object}
use hakobackend.Json.Laws.{get_field-of_map}
use hakobackend.Atomics.Update.{
  get_in, get_path, fields_of, Externals, apply_one, apply_all, apply_update,
}
use hakobackend.Atomics.Paths.{diverge}
use hakobackend.Atomics.Deletion.{Apart}
use hakobackend.Text.Split.{split-ne-nil}
use hakobackend.Atomics.Outcome.{
  outcome, apply_one-IsObject, get_path-apply_one_ne, get_path-apply_one,
}

diverge_sym : (ps qs : List Str) → diverge ps qs ≡ diverge qs ps
unfolding diverge
diverge_sym [] [] = refl
diverge_sym [] (q ∷ qs) = refl
diverge_sym (p ∷ ps) [] = refl
diverge_sym (p ∷ ps) (q ∷ qs) = ground (arith, diverge_sym ps qs, str_eq_iff p q, str_eq_iff q p)

Apart-sym : (p q : Str) → Apart p q → Apart q p
Apart-sym p q h = diverge_sym (split b'.' q) (split b'.' p) ∙ h

-- Updates of which no path leads through another.
abbrev pub Independent : Map Str Value → Type 0
Independent [] = Unit
Independent ((p, v) ∷ updates) =
    All (λ (u : Str × Value). Apart p u.0) updates × Independent updates

module _ (x : Externals) (ts : Str) where
  apply_all-IsObject :
      (root : Value) (updates : Map Str Value)
      → is_object root ≡ true
      → is_object (apply_all x ts root updates) ≡ true
  unfolding apply_all
  apply_all-IsObject root [] h = h
  apply_all-IsObject root ((p, v) ∷ updates) h =
      apply_all-IsObject (apply_one x ts root (p, v)) updates (apply_one-IsObject x ts root p v h)

  get_path-apply_all_ne :
      (root : Value) (updates : Map Str Value) (other : Str)
      → All (λ (u : Str × Value). Apart u.0 other) updates
      → get_path (apply_all x ts root updates) other ≡ get_path root other
  unfolding apply_all
  get_path-apply_all_ne root [] other h = refl
  get_path-apply_all_ne root ((p, v) ∷ updates) other h =
      get_path-apply_all_ne (apply_one x ts root (p, v)) updates other h.1
      ∙ get_path-apply_one_ne x ts root p v other h.0

  -- What each update has made of the value that was stored at its path.
  abbrev pub Applied : Value → Value → Map Str Value → Type 0
  Applied root root' updates =
      All (λ (u : Str × Value). get_path root' u.0 ≡ outcome x ts u.1 (get_path root u.0)) updates

  Applied-before :
      (p : Str) (v : Value) (root root' : Value) (updates : Map Str Value)
      → All (λ (u : Str × Value). Apart p u.0) updates
      → Applied (apply_one x ts root (p, v)) root' updates
      → Applied root root' updates
  Applied-before p v root root' [] apart h = tt
  Applied-before p v root root' ((q, w) ∷ updates) apart h = (
    rw (← get_path-apply_one_ne x ts root p v q apart.0) h.0,
    Applied-before p v root root' updates apart.1 h.1,
  )

  All-sym :
      (p : Str) (updates : Map Str Value)
      → All (λ (u : Str × Value). Apart p u.0) updates
      → All (λ (u : Str × Value). Apart u.0 p) updates
  All-sym p [] h = tt
  All-sym p ((q, w) ∷ updates) h = (Apart-sym p q h.0, All-sym p updates h.1)

  apply_all-Applied :
      (root : Value) (updates : Map Str Value)
      → is_object root ≡ true
      → Independent updates
      → Applied root (apply_all x ts root updates) updates
  unfolding apply_all
  apply_all-Applied root [] h i = tt
  apply_all-Applied root ((p, v) ∷ updates) h i =
      let next = apply_one x ts root (p, v) in
      (
        get_path-apply_all_ne next updates p (All-sym p updates i.0)
            ∙ get_path-apply_one x ts root p v h,
        Applied-before p v root (apply_all x ts next updates) updates i.0
            (apply_all-Applied next updates (apply_one-IsObject x ts root p v h) i.1),
      )

  get-to_map : (k : Str) (fs : Fields) → Map.get k (to_map fs) ≡ get_field k fs
  unfolding to_map Map.get get_field
  get-to_map k no_fields = refl
  get-to_map k (field j v fs) = ground (arith, get-to_map k fs)

  -- A body reads the same at every path once it is a map again.
  get_path-to_map :
      (v : Value) (p : Str)
      → is_object v ≡ true
      → get_path (object (of_map (to_map (fields_of v)))) p ≡ get_path v p
  unfolding fields_of get_path get_in
  get_path-to_map (object fs) p h = go (split b'.' p) (split-ne-nil b'.' p)
    where
      go :
          (ps : List Str)
          → ps ≢ []
          → get_in ps (object (of_map (to_map fs))) ≡ get_in ps (object fs)
      go [] ne = absurd (ne refl)
      go (q ∷ qs) ne = rw (get_field-of_map q (to_map fs), get-to_map q fs) refl
  get_path-to_map v p h = cc

  Applied-to_map :
      (root v : Value) (updates : Map Str Value)
      → is_object v ≡ true
      → Applied root v updates
      → Applied root (object (of_map (to_map (fields_of v)))) updates
  Applied-to_map root v [] h a = tt
  Applied-to_map root v ((p, w) ∷ updates) h a =
      (get_path-to_map v p h ∙ a.0, Applied-to_map root v updates h a.1)

  -- A merge write whose dot paths part ways leaves at the path of each update what that update
  -- makes of the value stored there before, whatever the other updates and their order.
  pub apply_update-Applied :
      (base updates : Map Str Value)
      → Independent updates
      → Applied (object (of_map base)) (object (of_map (apply_update x ts base updates))) updates
  unfolding apply_update
  apply_update-Applied base updates i =
      let root = object (of_map base) in
      Applied-to_map root (apply_all x ts root updates) updates
        (apply_all-IsObject root updates refl) (apply_all-Applied root updates refl i)

  -- A merge write changes nothing at a dot path that parts ways with the path of each update.
  pub apply_update_ne :
      (base updates : Map Str Value) (other : Str)
      → All (λ (u : Str × Value). Apart u.0 other) updates
      → get_path (object (of_map (apply_update x ts base updates))) other
        ≡ get_path (object (of_map base)) other
  unfolding apply_update
  apply_update_ne base updates other h =
      let root = object (of_map base) in
      get_path-to_map (apply_all x ts root updates) other (apply_all-IsObject root updates refl)
      ∙ get_path-apply_all_ne root updates other h
