-- ===== src/Atomics/Paths.antt =====
-- Dot paths: what is read after a write, and what a write leaves alone.
use hakobackend.Base.{
  ◌≡◌, refl, ap, ◌∙◌, inl, inr, Bool, true, false, some, List, [], ◌∷◌, arith, if◌then◌else◌,
  Bool-cases, Option-cases, and_then, unwrap_or, keep_if, nat_Eq, Str, str_eq, str_eq_iff, str_Eq,
  pair_Eq,
}
use hakobackend.Json.{Value, object, Fields, no_fields, get_field, insert_field, is_object}
use hakobackend.Json.Laws.{get_field-insert_field}
use hakobackend.Atomics.Update.{get_in, fields_of, child_of, set_in}

pub child-IsObject : (part : Str) (fs : Fields) → is_object (child_of part fs) ≡ true
unfolding child_of
child-IsObject part fs = elim (Option-cases (get_field part fs)) [
  | inl e ↦ rw e refl
  | inr (v, e) ↦ elim (Bool-cases (is_object v)) [ inl o ↦ rw (e, o) o | inr o ↦ rw (e, o) refl ]
]

module _ (v : Value) where
  pub get_in-set_in :
      (part : Str) (parts : List Str) (cur : Value)
      → is_object cur ≡ true
      → get_in (part ∷ parts) (set_in (part ∷ parts) v cur) ≡ some v
  unfolding get_in set_in
  get_in-set_in part [] (object fs) h =
      rw (get_field-insert_field part part v fs, (str_eq_iff part part).1 refl) refl
  get_in-set_in part (next ∷ parts) (object fs) h =
      let inner = set_in (next ∷ parts) v (child_of part fs) in
      rw (get_field-insert_field part part inner fs, (str_eq_iff part part).1 refl)
        (get_in-set_in next parts (child_of part fs) (child-IsObject part fs))
  get_in-set_in part parts cur h = cc

-- Two paths that part ways: neither leads through the other.
unfoldable pub diverge : List Str → List Str → Bool
diverge [] qs = false
diverge (p ∷ ps) [] = false
diverge (p ∷ ps) (q ∷ qs) = let rest = diverge ps qs in if str_eq p q then rest else true

get_in_child :
    (part : Str) (fs : Fields) (q : Str) (qs : List Str)
    → get_in (q ∷ qs) (child_of part fs) ≡ and_then (get_field part fs) (get_in (q ∷ qs))
unfolding get_in child_of get_field
get_in_child part fs q qs = elim (Option-cases (get_field part fs)) [
  | inl e ↦ rw e refl
  | inr (v, e) ↦ rw e (go v)
]
  where
    go :
        (v : Value)
        → get_in (q ∷ qs) (unwrap_or (keep_if is_object (some v)) (object no_fields))
          ≡ get_in (q ∷ qs) v
    go (object gs) = refl
    go v = refl

get_in-fields_of :
    (q : Str) (qs : List Str) (cur : Value)
    → and_then (get_field q (fields_of cur)) (get_in qs) ≡ get_in (q ∷ qs) cur
unfolding get_in fields_of get_field
get_in-fields_of q qs (object fs) = refl
get_in-fields_of q qs cur = refl

-- A write at the end of a path, and one further down, as a field of the object.
pub get_in_insert :
    (p : Str) (w : Value) (q : Str) (qs : List Str) (fs : Fields)
    → get_in (q ∷ qs) (object (insert_field p w fs))
      ≡ (if str_eq p q then get_in qs w else and_then (get_field q fs) (get_in qs))
unfolding get_in
get_in_insert p w q qs fs = elim (Bool-cases (str_eq p q)) [
  | inl e ↦ rw (get_field-insert_field p q w fs, e) refl
  | inr e ↦ rw (get_field-insert_field p q w fs, e) refl
]

get_in-set_in_last :
    (v : Value) (p q : Str) (qs : List Str) (cur : Value)
    → str_eq p q ≡ false
    → get_in (q ∷ qs) (set_in (p ∷ []) v cur) ≡ get_in (q ∷ qs) cur
unfolding set_in
get_in-set_in_last v p q qs (object fs) h = get_in_insert p v q qs fs ∙ rw h (unfold get_in in refl)
get_in-set_in_last v p q qs cur h = refl

-- A write leaves every path that parts ways with its own as it was.
pub get_in-set_in_ne :
    (v : Value) (p : Str) (ps : List Str) (q : Str) (qs : List Str) (cur : Value)
    → diverge (p ∷ ps) (q ∷ qs) ≡ true
    → get_in (q ∷ qs) (set_in (p ∷ ps) v cur) ≡ get_in (q ∷ qs) cur
unfolding diverge set_in
get_in-set_in_ne v p [] q qs cur h =
    get_in-set_in_last v p q qs cur (unfold diverge in ground arith)
get_in-set_in_ne v p (next ∷ ps) q [] cur h =
    let apart : str_eq p q ≡ false = ground arith in
    get_in_insert p (set_in (next ∷ ps) v (child_of p (fields_of cur))) q [] (fields_of cur)
    ∙ rw apart (get_in-fields_of q [] cur)
get_in-set_in_ne v p (next ∷ ps) q (q' ∷ qs) cur h =
    get_in_insert p (set_in (next ∷ ps) v (child_of p (fields_of cur))) q (q' ∷ qs) (fields_of cur)
    ∙ elim (Bool-cases (str_eq p q)) [
      | inr apart ↦ rw apart (get_in-fields_of q (q' ∷ qs) cur)
      | inl same ↦
          let deeper =
            get_in-set_in_ne v next ps q' qs (child_of p (fields_of cur)) (rw same at h) in
          rw same (
            deeper
            ∙ get_in_child p (fields_of cur) q' qs
            ∙ ap (λ (k : Str). and_then (get_field k (fields_of cur)) (get_in (q' ∷ qs)))
                ((str_eq_iff p q).0 same)
            ∙ get_in-fields_of q (q' ∷ qs) cur)
    ]
