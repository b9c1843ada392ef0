-- ===== src/Coalesce/Memory.antt =====
-- The contract of the coalescer: what the documents are, whatever waits in memory.
use hakobackend.Base.{
  ℕ, ◌+◌, ◌%◌, ◌^◌, ◌≡◌, refl, inl, inr, Bool, true, false, not, ◌&&◌, Option, none, some, [], ◌∷◌,
  arith, ltb, leb, if◌then◌else◌, Bool-cases, Option-cases, and_then, unwrap_or, or_else, keep_if,
  ◌==◌, nat_Eq, Str, str_Eq, pair_eq_iff, pair_Eq,
}
use hakobackend.Base.Map
use hakobackend.Base.Map.{
  Map, get-insert, get-remove, Unique, get-retain, insert-Unique, remove-Unique, retain-Unique,
}
use hakobackend.Json.{Value}
use hakobackend.Coalesce.{
  Body, Key, Pending, Coalescer, max_flush_fails, new_pending, merge, Due, is_due, due_of, take_due,
  refused, System,
}
use hakobackend.Coalesce.Extend.{get-extend, extend-Unique, Every, get-Every, insert-Every}

-- the field of a body in memory
abbrev pub pending_field : Option Pending → Str → Option Value
pending_field p f = and_then p (λ p. Map.get f p.body)

abbrev pub due_field : Option Due → Str → Option Value
due_field d f = and_then d (λ d. Map.get f d.0)

abbrev pub IsBody : Pending → Type 0
IsBody p = Unique p.body

abbrev pub IsDue : Due → Type 0
IsDue d = Unique d.0

-- Maps hold no key twice.
pub record IsValid {W : Type 0} (sys : System W) : Type 0 where
  pub pending : Unique sys.pending
  pub bodies : Every IsBody sys.pending
  pub in_flight : Unique sys.in_flight
  pub due : Every IsDue sys.in_flight

-- a PATCH over what was there
abbrev pub over : Body → Option Value → Str → Option Value
over body old f = or_else (Map.get f body) old

pub pending_field-merge :
    (key other : Key) (body : Body) (now : ℕ) (pending : Coalescer) (f : Str)
    → Unique body
    → pending_field (Map.get other (merge key body now pending)) f ≡ (
        if key == other
        then over body (pending_field (Map.get other pending) f) f
        else pending_field (Map.get other pending) f)
unfolding merge
pending_field-merge key other body now pending f u =
    let p = unwrap_or (Map.get key pending) (new_pending now) in
    rw (get-insert key other (record p { body = Map.extend p.body body }) pending)
      (elim (Bool-cases (key == other)) [
        | inr differ ↦ rw differ refl
        | inl same ↦
            rw (same, get-extend f p.body body u, ← (pair_eq_iff key other).0 same)
              (elim (Option-cases (Map.get key pending)) [
                | inl e ↦ rw e refl
                | inr (q, e) ↦ rw e refl
              ])
      ])

pub due_of-none :
    (now : ℕ) (key : Key) (pending : Coalescer)
    → Map.get key pending ≡ none
    → Map.get key (due_of now pending) ≡ none
unfolding due_of Map.get
due_of-none now key [] h = refl
due_of-none now key ((k, p) ∷ pending) h = ground (arith, due_of-none now key pending)

-- What is taken and what stays make up what was there.
pub get-due_of :
    (now : ℕ) (key : Key) (pending : Coalescer)
    → Unique pending
    → Map.get key (due_of now pending)
      ≡ and_then (keep_if (is_due now) (Map.get key pending)) (λ p. some (p.body, p.fails))
unfolding due_of Map.get
get-due_of now key [] u = refl
get-due_of now key ((k, p) ∷ pending) u = elim (Bool-cases (k == key)) [
  | inl same ↦ elim (Bool-cases (is_due now p)) [
    | inl d ↦ rw (same, d) (rw same refl)
    | inr d ↦ rw (same, d) (due_of-none now key pending (rw (← (pair_eq_iff k key).0 same) u.0))
  ]
  | inr differ ↦ elim (Bool-cases (is_due now p)) [
    | inl d ↦ rw (differ, d) (rw differ (get-due_of now key pending u.1))
    | inr d ↦ rw (differ, d) (get-due_of now key pending u.1)
  ]
]

pub fields-take_due :
    (now : ℕ) (key : Key) (pending : Coalescer) (f : Str)
    → Unique pending
    → or_else
        (pending_field (Map.get key (take_due now pending).1) f)
        (due_field (Map.get key (take_due now pending).0) f)
      ≡ pending_field (Map.get key pending) f
unfolding take_due
fields-take_due now key pending f u =
    rw (get-retain (λ _ p. not (is_due now p)) key pending u, get-due_of now key pending u)
      (elim (Option-cases (Map.get key pending)) [
        | inl e ↦ rw e refl
        | inr (p, e) ↦ elim (Bool-cases (is_due now p)) [
          | inl d ↦ rw (e, d) refl
          | inr d ↦
              rw (e, d)
                (elim (Option-cases (Map.get f p.body)) [
                  | inl m ↦ rw m refl
                  | inr (v, m) ↦ rw m refl
                ])
        ]
      ])

-- A refused body waits again, below what has come since, unless it is given up.
abbrev pub is_dropped : Key → Due → Coalescer → Bool
is_dropped key due pending = not (Map.contains key pending) && leb max_flush_fails due.1

pub fields-refused :
    (key other : Key) (due : Due) (now : ℕ) (pending : Coalescer) (f : Str)
    → Every IsBody pending
    → is_dropped key due pending ≡ false
    → pending_field (Map.get other (refused key due now pending)) f ≡ (
        if key == other
        then or_else (pending_field (Map.get other pending) f) (Map.get f due.0)
        else pending_field (Map.get other pending) f)
unfolding refused
fields-refused key other (body, fails) now pending f b keeps =
    elim (Option-cases (Map.get key pending)) [
      | inl e ↦
          let again : Pending = record { body = body; first_at = now; fails = fails + 1 } in
          let room : ltb fails max_flush_fails ≡ true = ground arith in
          rw (e, refused, room, get-insert key other again pending)
            (elim (Bool-cases (key == other)) [
              | inr differ ↦ rw differ refl
              | inl same ↦ rw (same, ← (pair_eq_iff key other).0 same, e) refl
            ])
      | inr (p, e) ↦
          let back : Pending = record p {
            fails = (p.fails + 1) % 2 ^ 32;
            body = Map.extend body p.body;
          } in
          rw (e, refused, get-insert key other back pending)
            (elim (Bool-cases (key == other)) [
              | inr differ ↦ rw differ refl
              | inl same ↦
                  rw (same, ← (pair_eq_iff key other).0 same, e)
                    (get-extend f body p.body (get-Every IsBody key pending p b e))
            ])
    ]

body-Unique :
    (key : Key) (now : ℕ) (pending : Coalescer)
    → Every IsBody pending
    → Unique (unwrap_or (Map.get key pending) (new_pending now)).body
body-Unique key now pending b = elim (Option-cases (Map.get key pending)) [
  | inl e ↦ rw e tt
  | inr (p, e) ↦ rw e (get-Every IsBody key pending p b e)
]

pub merge-IsBody :
    (key : Key) (body : Body) (now : ℕ) (pending : Coalescer)
    → Every IsBody pending
    → Every IsBody (merge key body now pending)
unfolding merge
merge-IsBody key body now pending b =
    insert-Every IsBody key _ pending
      (extend-Unique (unwrap_or (Map.get key pending) (new_pending now)).body body
        (body-Unique key now pending b))
      b
