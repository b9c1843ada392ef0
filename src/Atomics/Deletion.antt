-- ===== src/Atomics/Deletion.antt =====
-- Dot paths under `delete_path`, and texts as paths.
use hakobackend.Base.{
  ◌≡◌, refl, sym, ◌∙◌, subst, ◌≢◌, inl, inr, true, false, none, some, List, [], ◌∷◌, arith,
  Bool-cases, Option-cases, nat_Eq, Str, str_eq, str_eq_iff, str_Eq, pair_Eq,
}
use hakobackend.Text.{split}
use hakobackend.Json.{Value, object, Fields, get_field, is_object}
use hakobackend.Json.Laws.{get_field-insert_field, get_field-remove_field}
use hakobackend.Atomics.Update.{get_in, get_path, set_in, set_path, delete_in, delete_path}
use hakobackend.Atomics.Paths.{diverge, get_in-set_in, get_in-set_in_ne, get_in_insert}
use hakobackend.Text.Split.{split-ne-nil}

get_in-delete_in :
    (p : Str) (ps : List Str) (cur : Value) → get_in (p ∷ ps) (delete_in (p ∷ ps) cur) ≡ none
unfolding get_in delete_in
get_in-delete_in p [] (object fs) = rw (get_field-remove_field p p fs, (str_eq_iff p p).1 refl) refl
get_in-delete_in p (next ∷ ps) (object fs) = elim (Option-cases (get_field p fs)) [
  | inl e ↦ rw (e, delete_in) (rw e refl)
  | inr (inner, e) ↦
      rw (e, delete_in)
        (rw (get_field-insert_field p p (delete_in (next ∷ ps) inner) fs, (str_eq_iff p p).1 refl)
          (get_in-delete_in next ps inner))
]
get_in-delete_in p [] cur = refl
get_in-delete_in p (next ∷ ps) cur = refl

get_in-delete_in_last :
    (p q : Str) (qs : List Str) (cur : Value)
    → str_eq p q ≡ false
    → get_in (q ∷ qs) (delete_in (p ∷ []) cur) ≡ get_in (q ∷ qs) cur
unfolding delete_in get_in
get_in-delete_in_last p q qs (object fs) h = rw (get_field-remove_field p q fs, h) refl
get_in-delete_in_last p q qs cur h = refl

get_in_object :
    (q : Str) (qs : List Str) (fs : Fields) (v : Value)
    → get_field q fs ≡ some v
    → get_in (q ∷ qs) (object fs) ≡ get_in qs v
unfolding get_in
get_in_object q qs fs v e = rw e refl

-- A deletion leaves every path that parts ways with its own as it was.
get_in-delete_in_ne :
    (p : Str) (ps : List Str) (q : Str) (qs : List Str) (cur : Value)
    → diverge (p ∷ ps) (q ∷ qs) ≡ true
    → get_in (q ∷ qs) (delete_in (p ∷ ps) cur) ≡ get_in (q ∷ qs) cur
unfolding diverge delete_in
get_in-delete_in_ne p [] q qs cur h =
    get_in-delete_in_last p q qs cur (unfold diverge in ground arith)
get_in-delete_in_ne p (next ∷ ps) q [] (object fs) h =
    let apart : str_eq p q ≡ false = ground arith in
    elim (Option-cases (get_field p fs)) [
      | inl e ↦ rw (e, delete_in) refl
      | inr (inner, e) ↦
          rw (e, delete_in)
            (get_in_insert p (delete_in (next ∷ ps) inner) q [] fs
              ∙ rw apart (unfold get_in in refl))
    ]
get_in-delete_in_ne p (next ∷ ps) q (q' ∷ qs) (object fs) h = elim (Option-cases (get_field p fs)) [
  | inl e ↦ rw (e, delete_in) refl
  | inr (inner, e) ↦
      rw (e, delete_in)
        (get_in_insert p (delete_in (next ∷ ps) inner) q (q' ∷ qs) fs
          ∙ elim (Bool-cases (str_eq p q)) [
            | inr apart ↦ rw apart (unfold get_in in refl)
            | inl same ↦
                let here : get_field q fs ≡ some inner =
                  subst (λ (k : Str). get_field k fs ≡ some inner) ((str_eq_iff p q).0 same) e in
                rw same (
                  get_in-delete_in_ne next ps q' qs inner (rw same at h)
                  ∙ sym (get_in_object q (q' ∷ qs) fs inner here))
          ])
]
get_in-delete_in_ne p (next ∷ ps) q qs cur h = refl

delete_in-IsObject :
    (ps : List Str) (cur : Value) → is_object cur ≡ true → is_object (delete_in ps cur) ≡ true
unfolding delete_in
delete_in-IsObject [] cur h = h
delete_in-IsObject (p ∷ []) (object fs) h = refl
delete_in-IsObject (p ∷ next ∷ ps) (object fs) h = elim (Option-cases (get_field p fs)) [
  | inl e ↦ rw (e, delete_in) refl
  | inr (inner, e) ↦ rw (e, delete_in) refl
]
delete_in-IsObject (p ∷ []) cur h = cc
delete_in-IsObject (p ∷ next ∷ ps) cur h = cc

set_in-IsObject :
    (ps : List Str) (v cur : Value) → is_object cur ≡ true → is_object (set_in ps v cur) ≡ true
unfolding set_in
set_in-IsObject [] v cur h = h
set_in-IsObject (p ∷ []) v (object fs) h = refl
set_in-IsObject (p ∷ []) v cur h = cc
set_in-IsObject (p ∷ next ∷ ps) v cur h = refl

-- The same of texts: a text always has a first part.
module _ (root v : Value) (path : Str) where
  pub set_path-IsObject : is_object root ≡ true → is_object (set_path root path v) ≡ true
  unfolding set_path
  set_path-IsObject = set_in-IsObject (split b'.' path) v root

  pub delete_path-IsObject : is_object root ≡ true → is_object (delete_path root path) ≡ true
  unfolding delete_path
  delete_path-IsObject = delete_in-IsObject (split b'.' path) root

  -- What was written at a dot path is read there.
  pub get_path-set_path : is_object root ≡ true → get_path (set_path root path v) path ≡ some v
  unfolding get_path set_path
  get_path-set_path h = go (split b'.' path) (split-ne-nil b'.' path)
    where
      go : (ps : List Str) → ps ≢ [] → get_in ps (set_in ps v root) ≡ some v
      go [] ne = absurd (ne refl)
      go (p ∷ ps) ne = get_in-set_in v p ps root h

  -- What was deleted at a dot path is not there.
  pub get_path-delete_path : get_path (delete_path root path) path ≡ none
  unfolding get_path delete_path
  get_path-delete_path = go (split b'.' path) (split-ne-nil b'.' path)
    where
      go : (ps : List Str) → ps ≢ [] → get_in ps (delete_in ps root) ≡ none
      go [] ne = absurd (ne refl)
      go (p ∷ ps) ne = get_in-delete_in p ps root

-- Two texts whose paths part ways.
abbrev pub Apart : Str → Str → Type 0
Apart path other = diverge (split b'.' path) (split b'.' other) ≡ true

module _ (root v : Value) (path other : Str) (apart : Apart path other) where
  pub get_path-set_path_ne : get_path (set_path root path v) other ≡ get_path root other
  unfolding get_path set_path diverge
  get_path-set_path_ne = go (split b'.' path) (split b'.' other) apart
    where
      go : (ps qs : List Str) → diverge ps qs ≡ true → get_in qs (set_in ps v root) ≡ get_in qs root
      go [] qs h = absurd (ground arith)
      go (p ∷ ps) [] h = absurd (ground arith)
      go (p ∷ ps) (q ∷ qs) h = get_in-set_in_ne v p ps q qs root h

  pub get_path-delete_path_ne : get_path (delete_path root path) other ≡ get_path root other
  unfolding get_path delete_path diverge
  get_path-delete_path_ne = go (split b'.' path) (split b'.' other) apart
    where
      go :
          (ps qs : List Str) → diverge ps qs ≡ true → get_in qs (delete_in ps root) ≡ get_in qs root
      go [] qs h = absurd (ground arith)
      go (p ∷ ps) [] h = absurd (ground arith)
      go (p ∷ ps) (q ∷ qs) h = get_in-delete_in_ne p ps q qs root h
