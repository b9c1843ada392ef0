-- ===== src/Handlers/Plan.antt =====
-- What an operation of a batch needs and asks for, by its type, and the order of its checks.
use hakobackend.Base.{
  Result, map, ◌&&◌, not, none, some, unwrap_or, keep_if, str, str_eq, str_eq_iff, eq_refl,
  if◌then◌else◌, ◌≡◌, refl, ap, inl, inr, Bool, true, false, List, [], ◌∷◌, arith, ◌||◌, Bool-cases,
  all, ok, err, nat_Eq, Str, str_Eq, pair_Eq,
}
use hakobackend.Base.Map
use hakobackend.Base.Map.{
  Map, get-insert, get-remove, Unique, get-retain, insert-Unique, remove-Unique, retain-Unique,
}
use hakobackend.Policy.Rule.{Method}
use hakobackend.Database.{TxOpKind, put}
use hakobackend.Handlers.{Response}
use hakobackend.Handlers.Batch.{is_dataless, op_method}

pub str_eq_comm : (a b : Str) → str_eq a b ≡ str_eq b a
str_eq_comm a b = elim (Bool-cases (str_eq a b)) [
  | inl e ↦ rw ((str_eq_iff a b).0 e) refl
  | inr e ↦ elim (Bool-cases (str_eq b a)) [
    | inl f ↦ absurd (let e' = rw ((str_eq_iff b a).0 f, eq_refl a) at e in ground arith)
    | inr f ↦ rw (e, f) refl
  ]
]

pub all-both :
    {A : Type 0} (p q r : A → Bool) (xs : List A)
    → ((x : A) → (p x && q x) ≡ r x)
    → (all p xs && all q xs) ≡ all r xs
unfolding all
all-both p q r [] h = refl
all-both p q r (x ∷ xs) h = ground (arith, h x, all-both p q r xs h)

pub all-map :
    {A B : Type 0} (p : B → Bool) (f : A → B) (xs : List A)
    → all p (map f xs) ≡ all (λ x. p (f x)) xs
unfolding all
all-map p f [] = refl
all-map p f (x ∷ xs) = rw (all-map p f xs) refl

pub map-map :
    {A B C : Type 0} (g : B → C) (f : A → B) (xs : List A)
    → map g (map f xs) ≡ map (λ x. g (f x)) xs
map-map g f [] = refl
map-map g f (x ∷ xs) = ap (◌∷◌ (g (f x))) (map-map g f xs)

pub map-same :
    {A B : Type 0} (f g : A → B) (xs : List A) → ((x : A) → f x ≡ g x) → map f xs ≡ map g xs
map-same f g [] h = refl
map-same f g (x ∷ xs) h = rw (h x, map-same f g xs h) refl

-- The method that an operation needs, by its type: a table, and what is left.
abbrev fixed : List (Str × Method)
fixed = (str "get", Method.get) ∷ (str "delete", Method.delete) ∷ (str "update", Method.update) ∷ []

unfoldable pub method_for : Bool → Str → Bool → Method
unfolding Map.get str_eq
method_for is_tx t existed =
    unwrap_or (Map.get t fixed)
      (if existed && (is_tx || str_eq t (str "set")) then Method.update else Method.create)

pub op_method-lem :
    (t : Str) (existed is_tx : Bool) → op_method t existed is_tx ≡ method_for is_tx t existed
unfolding method_for op_method Map.get
op_method-lem t existed is_tx =
    rw
      (
        str_eq_comm (str "get") t,
        str_eq_comm (str "delete") t,
        str_eq_comm (str "update") t,
        method_for,
        op_method,
      )
      (ground arith)

-- the operations that carry no data
abbrev pub without_data : Str → Bool
without_data t = str_eq t (str "get") || str_eq t (str "delete")

pub is_dataless-lem : (t : Str) → is_dataless t ≡ without_data t
unfolding is_dataless
is_dataless-lem t = refl

-- The write that an operation asks for, by its type.
abbrev writes : List (Str × TxOpKind)
writes =
    (str "get", TxOpKind.read)
    ∷ (str "delete", TxOpKind.delete)
    ∷ (str "update", put false true)
    ∷ (str "set", put false false)
    ∷ (str "add", put false false)
    ∷ []

unfoldable pub kind_for : Bool → Str → Bool → TxOpKind
unfolding Map.get str_eq
kind_for is_tx t existed = unwrap_or (Map.get t writes) (put false (is_tx && existed))

pub no_id-ok :
    (b : Bool) (r₁ r₂ : Result Response Str) (r₃ r₄ : Response) (id : Str)
    → r₁ ≡ err r₃
    → r₂ ≡ err r₄
    → ¬ ((if b then r₁ else r₂) ≡ ok id)
no_id-ok true r₁ r₂ r₃ r₄ id e f h = ground arith
no_id-ok false r₁ r₂ r₃ r₄ id e f h = ground arith

-- the checks of an operation that names a document, in their order
abbrev pub checks :
    (known is_tx denied valid : Bool) (empty valid_id : Str → Bool) (r₁ r₂ r₃ r₄ r₅ : Response)
    → Str
    → Result Response Str
checks known is_tx denied valid empty valid_id r₁ r₂ r₃ r₄ r₅ named =
    if not known && not is_tx then err r₁ else elim (keep_if (λ s. not (empty s)) (some named)) [
      | none ↦ err r₂
      | some id ↦
          if denied
          then err r₃
          else if not valid
          then err r₄
          else if not (valid_id id)
          then err r₅
          else ok id
    ]

pub checks-ok :
    (known is_tx denied valid : Bool) (empty valid_id : Str → Bool) (r₁ r₂ r₃ r₄ r₅ : Response)
    (named id : Str)
    → checks known is_tx denied valid empty valid_id r₁ r₂ r₃ r₄ r₅ named ≡ ok id
    → (named ≡ id)
      × (((known || is_tx) && not (empty named) && not denied && valid && valid_id named) ≡ true)
checks-ok known is_tx denied valid empty valid_id r₁ r₂ r₃ r₄ r₅ named id h =
    (ground arith, ground arith)

pub checks-err :
    (known is_tx denied valid : Bool) (empty valid_id : Str → Bool) (r₁ r₂ r₃ r₄ r₅ : Response)
    (named : Str) (r : Response)
    → checks known is_tx denied valid empty valid_id r₁ r₂ r₃ r₄ r₅ named ≡ err r
    → ((known || is_tx) && not (empty named) && not denied && valid && valid_id named) ≡ false
checks-err known is_tx denied valid empty valid_id r₁ r₂ r₃ r₄ r₅ named r h = ground arith
