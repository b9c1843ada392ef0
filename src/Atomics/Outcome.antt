-- ===== src/Atomics/Outcome.antt =====
-- What `apply_update` leaves at the path of each update.
use hakobackend.Base.{
  ◌≡◌, refl, inl, inr, Bool, true, false, not, Option, none, some, if◌then◌else◌, Bool-cases,
  Option-cases, nat_Eq, Str, str, str_eq, str_Eq, pair_Eq,
}
use hakobackend.Json.{Value, null, string, array, object, Fields, of_list, is_object}
use hakobackend.Atomics.Resolve.{has_sentinel, resolve_deep}
use hakobackend.Atomics.Update.{
  get_path, set_path, delete_path, sentinel_of, Externals, increment, current_array, elements,
  array_union, array_remove, execute, apply_one,
}
use hakobackend.Atomics.Deletion.{
  Apart, set_path-IsObject, delete_path-IsObject, get_path-set_path, get_path-delete_path,
  get_path-set_path_ne, get_path-delete_path_ne,
}

-- What a resolved value puts at a path: nothing new if the value is dropped.
abbrev replace : Option Value → Option Value → Option Value
replace none current = current
replace (some r) current = some r

module _ (x : Externals) where
  -- The value that an update makes of the one at its path, said without paths.
  unfoldable pub executed : Str → Str → Fields → Option Value → Option Value
  executed ts op fs current =
      if str_eq op (str "serverTimestamp")
      then some (string ts)
      else if str_eq op (str "increment")
      then some (increment x fs current)
      else if str_eq op (str "arrayUnion")
      then some (array (of_list (array_union x (current_array x current) (elements x fs))))
      else if str_eq op (str "arrayRemove")
      then some (array (of_list (array_remove x (current_array x current) (elements x fs))))
      else if str_eq op (str "deleteField")
      then none
      else replace (resolve_deep ts (object fs)) current

  unfoldable pub outcome : Str → Value → Option Value → Option Value
  unfolding executed
  outcome ts v current = elim (sentinel_of v) [
    | some (op, fs) ↦ executed ts op fs current
    | none ↦ if not (has_sentinel v) then some v else replace (resolve_deep ts v) current
  ]

  module _ (ts : Str) (root : Value) (path : Str) where
    written :
        (r : Option Value)
        → is_object root ≡ true
        → get_path (elim r [ none ↦ root | some w ↦ set_path root path w ]) path
          ≡ replace r (get_path root path)
    written none h = refl
    written (some w) h = get_path-set_path root w path h

    execute-executed :
        (op : Str) (fs : Fields)
        → is_object root ≡ true
        → get_path (execute x ts op fs root path) path ≡ executed ts op fs (get_path root path)
    unfolding execute executed
    execute-executed op fs h = elim (Bool-cases (str_eq op (str "serverTimestamp"))) [
      | inl e ↦ rw (e) (get_path-set_path root _ path h)
      | inr e₁ ↦ elim (Bool-cases (str_eq op (str "increment"))) [
        | inl e ↦ rw (e₁, e) (get_path-set_path root _ path h)
        | inr e₂ ↦ elim (Bool-cases (str_eq op (str "arrayUnion"))) [
          | inl e ↦ rw (e₁, e₂, e) (get_path-set_path root _ path h)
          | inr e₃ ↦ elim (Bool-cases (str_eq op (str "arrayRemove"))) [
            | inl e ↦ rw (e₁, e₂, e₃, e) (get_path-set_path root _ path h)
            | inr e₄ ↦ elim (Bool-cases (str_eq op (str "deleteField"))) [
              | inl e ↦ rw (e₁, e₂, e₃, e₄, e) (get_path-delete_path root null path)
              | inr e ↦ rw (e₁, e₂, e₃, e₄, e) (written (resolve_deep ts (object fs)) h)
            ]
          ]
        ]
      ]
    ]

    -- An update writes at its path, deletes there or does nothing.
    module _ (P : Value → Type 0) (same : P root) (write : (w : Value) → P (set_path root path w))
        (del : P (delete_path root path)) where
      optional : (r : Option Value) → P (elim r [ none ↦ root | some w ↦ set_path root path w ])
      optional none = same
      optional (some w) = write w

      execute_lem : (op : Str) (fs : Fields) → P (execute x ts op fs root path)
      unfolding execute
      execute_lem op fs = elim (Bool-cases (str_eq op (str "serverTimestamp"))) [
        | inl e ↦ rw (e, execute) (write _)
        | inr e₁ ↦ elim (Bool-cases (str_eq op (str "increment"))) [
          | inl e ↦ rw (e₁, e, execute) (write _)
          | inr e₂ ↦ elim (Bool-cases (str_eq op (str "arrayUnion"))) [
            | inl e ↦ rw (e₁, e₂, e, execute) (write _)
            | inr e₃ ↦ elim (Bool-cases (str_eq op (str "arrayRemove"))) [
              | inl e ↦ rw (e₁, e₂, e₃, e, execute) (write _)
              | inr e₄ ↦ elim (Bool-cases (str_eq op (str "deleteField"))) [
                | inl e ↦ rw (e₁, e₂, e₃, e₄, e, execute) del
                | inr e ↦ rw (e₁, e₂, e₃, e₄, e, execute) (optional (resolve_deep ts (object fs)))
              ]
            ]
          ]
        ]
      ]

      unmarked :
          (v : Value) (c : Bool)
          → P (
              if c
              then set_path root path v
              else elim (resolve_deep ts v) [ none ↦ root | some r ↦ set_path root path r ])
      unmarked v true = write v
      unmarked v false = optional (resolve_deep ts v)

      apply_one_lem : (v : Value) → P (apply_one x ts root (path, v))
      unfolding apply_one
      apply_one_lem v = elim (Option-cases (sentinel_of v)) [
        | inl e ↦ rw (e, apply_one) (unmarked v (not (has_sentinel v)))
        | inr ((op, fs), e) ↦ rw (e, apply_one) (execute_lem op fs)
      ]

    pub apply_one-IsObject :
        (v : Value) → is_object root ≡ true → is_object (apply_one x ts root (path, v)) ≡ true
    apply_one-IsObject v h =
        apply_one_lem (λ r. is_object r ≡ true) h (λ w. set_path-IsObject root w path h)
          (delete_path-IsObject root null path h) v

    pub get_path-apply_one_ne :
        (v : Value) (other : Str)
        → Apart path other
        → get_path (apply_one x ts root (path, v)) other ≡ get_path root other
    get_path-apply_one_ne v other apart =
        apply_one_lem (λ r. get_path r other ≡ get_path root other) refl
          (λ w. get_path-set_path_ne root w path other apart)
          (get_path-delete_path_ne root null path other apart) v

    pub get_path-apply_one :
        (v : Value)
        → is_object root ≡ true
        → get_path (apply_one x ts root (path, v)) path ≡ outcome ts v (get_path root path)
    unfolding apply_one outcome
    get_path-apply_one v h = elim (Option-cases (sentinel_of v)) [
      | inr ((op, fs), e) ↦ rw (e, apply_one, outcome) (execute-executed op fs h)
      | inl e ↦ elim (Bool-cases (has_sentinel v)) [
        | inl s ↦ rw (e, s, apply_one, outcome) (written (resolve_deep ts v) h)
        | inr s ↦ rw (e, s, apply_one, outcome) (get_path-set_path root v path h)
      ]
    ]
