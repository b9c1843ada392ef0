-- ===== src/Coalesce/Gap.antt =====
-- What a GET sees of a body while a flush has it.
use hakobackend.Base.{
  sym, subst, ℕ, ◌≡◌, refl, ap, ◌∙◌, inl, inr, true, false, not, Option, none, some, List, [], ◌∷◌,
  arith, ltb, Bool-cases, Option-cases, ◌==◌, nat_Eq, Str, str_Eq, pair_Eq,
}
use hakobackend.Base.Map
use hakobackend.Base.Map.{
  Map, get-insert, get-remove, Unique, get-retain, insert-Unique, remove-Unique, retain-Unique,
}
use hakobackend.Json.{string}
use hakobackend.Coalesce.{
  Body, Key, Pending, Coalescer, Due, Store, System, Event, patched, taken, settled,
  max_flush_fails, merge, overlay, is_due, take_due, refused, settle, step, run, write, stamped,
  updated_at,
}
use hakobackend.Coalesce.Memory.{IsValid, get-due_of}
use hakobackend.Coalesce.Exact.{flight_cases}
use hakobackend.Coalesce.Drain.{step-settled}
use hakobackend.Coalesce.Runs.{AllAllowed, step-IsValid}

get-refused_ne :
    (key other : Key) (due : Due) (now : ℕ) (pending : Coalescer)
    → (key == other) ≡ false
    → Map.get other (refused key due now pending) ≡ Map.get other pending
unfolding refused
get-refused_ne key other (body, fails) now pending ne = elim (Option-cases (Map.get key pending)) [
  | inl e ↦ elim (Bool-cases (ltb fails max_flush_fails)) [
    | inl room ↦ rw (e, room, refused, get-insert key other _ pending, ne) refl
    | inr over ↦ rw (e, over, refused) refl
  ]
  | inr (p, e) ↦ rw (e, refused, get-insert key other _ pending, ne) refl
]

module _ {W : Type 0} (store : Store W) where
  -- what a GET reads of a document: the stored fields, and those that wait
  pub record Hidden (sys sys' : System W) (key : Key) : Type 0 where
    pub waiting : Map.get key sys'.pending ≡ none
    pub stored : (f : Str) → store.read sys'.world key f ≡ store.read sys.world key f

  -- a system in which a flush has the body of a document, and nothing waits over it
  abbrev Flying : System W → Key → Due → Type 0
  Flying sys key due = (Map.get key sys.pending ≡ none) × (Map.get key sys.in_flight ≡ some due)

  -- An event that is neither a PATCH of the document nor the end of its write.
  abbrev pub Elsewhere : Event → System W → Key → Type 0
  Elsewhere (patched k body now) sys key = (k == key) ≡ false
  Elsewhere (taken now) sys key = Unit
  Elsewhere (settled now) sys key = elim sys.in_flight [
    | [] ↦ Unit
    | (k, due) ∷ rest ↦ (k == key) ≡ false
  ]

  abbrev pub AllElsewhere : List Event → System W → Key → Type 0
  AllElsewhere [] sys key = Unit
  AllElsewhere (event ∷ events) sys key =
      Elsewhere event sys key × AllElsewhere events (step store event sys) key

  read-write_ne :
      (now : ℕ) (k : Key) (body : Body) (w : W) (key : Key) (f : Str)
      → Unique body
      → (k == key) ≡ false
      → store.read (write store now k body w).1 key f ≡ store.read w key f
  unfolding write stamped
  read-write_ne now k body w key f u ne =
      let iso = store.now_iso now in
      elim (Bool-cases (store.set k (stamped iso body) w).0) [
        | inl done ↦
            store.read-ok k (stamped iso body) w key f
              (insert-Unique updated_at (string iso) body u) done
            ∙ rw ne refl
        | inr failed ↦ store.read-err k (stamped iso body) w key f failed
      ]

  settle-Hidden :
      (now : ℕ) (k : Key) (due : Due) (rest : Map Key Due) (sys : System W) (key : Key)
      → Unique due.0
      → (k == key) ≡ false
      → Map.get key sys.pending ≡ none
      → Hidden sys (settle store now k due rest sys) key
        × ((settle store now k due rest sys).in_flight ≡ rest)
  unfolding settle
  settle-Hidden now k ([], fails) rest sys key u ne h =
      (record { waiting = h; stored = λ f. refl }, refl)
  settle-Hidden now k (x ∷ body, fails) rest sys key u ne h =
      let read = λ (f : Str). read-write_ne now k (x ∷ body) sys.world key f u ne in
      elim (Bool-cases (write store now k (x ∷ body) sys.world).0) [
        | inl done ↦ rw (done, settle) (record { waiting = h; stored = read }, refl)
        | inr failed ↦
            rw (failed, settle)
              (
                record {
                  waiting = get-refused_ne k key (x ∷ body, fails) now sys.pending ne ∙ h;
                  stored = read;
                },
                refl,
              )
      ]

  step-Hidden :
      (event : Event) (sys : System W) (key : Key) (due : Due)
      → IsValid sys
      → Elsewhere event sys key
      → Flying sys key due
      → Hidden sys (step store event sys) key
        × (Map.get key (step store event sys).in_flight ≡ some due)
  unfolding step Map.get
  step-Hidden (patched k body now) sys key due v ne (h, flying) =
      unfold merge in
      (record { waiting = rw (get-insert k key _ sys.pending, ne) h; stored = λ f. refl }, flying)
  step-Hidden (taken now) sys key due v ne (h, flying) = elim (flight_cases sys.in_flight) [
    | inl e ↦ absurd (let f = rw e at flying in ground arith)
    | inr (x, rest, e) ↦ rw (e, step) (record { waiting = h; stored = λ f. refl }, flying)
  ]
  step-Hidden (settled now) sys key due v ne (h, flying) = elim (flight_cases sys.in_flight) [
    | inl e ↦ absurd (let f = rw e at flying in ground arith)
    | inr ((k, d), rest, e) ↦
        let other = rw e at ne in
        let bodies = rw e at v.due in
        let flying' = rw (e, other) at flying in
        let (hidden, left) = settle-Hidden now k d rest sys key bodies.0 other h in
        subst (λ x. Hidden sys x key × (Map.get key x.in_flight ≡ some due))
          (sym (step-settled store now k d rest sys e)) (hidden, ap (Map.get key) left ∙ flying')
  ]

  run-Hidden :
      (events : List Event) (sys : System W) (key : Key) (due : Due)
      → IsValid sys
      → AllAllowed store events sys
      → AllElsewhere events sys key
      → Flying sys key due
      → Hidden sys (run store events sys) key
  unfolding run
  run-Hidden [] sys key due v a e fly = record { waiting = fly.0; stored = λ f. refl }
  run-Hidden (event ∷ events) sys key due v a e fly =
      let (here, flying) = step-Hidden event sys key due v e.0 fly in
      let later =
        run-Hidden events (step store event sys) key due (step-IsValid store event sys v a.0) a.1
          e.1 (here.waiting, flying) in
      record { waiting = later.waiting; stored = λ f. later.stored f ∙ here.stored f }

  -- From when a flush has taken a document's body until the write of that body ends, whatever else
  -- happens but a new PATCH of it and a body that is given up, the overlay of a GET finds nothing of
  -- the document in memory, and the store holds each of its fields as it was before the flush.
  pub run-taken :
      (now : ℕ) (events : List Event) (sys : System W) (key : Key) (p : Pending)
      (stored : Option Body)
      → IsValid sys
      → sys.in_flight ≡ []
      → Map.get key sys.pending ≡ some p
      → is_due now p ≡ true
      → AllAllowed store (taken now ∷ events) sys
      → AllElsewhere (taken now ∷ events) sys key
      → let end = run store (taken now ∷ events) sys in
        (overlay key stored end.pending ≡ none)
        × ((f : Str) → store.read end.world key f ≡ store.read sys.world key f)
  unfolding run step take_due overlay
  run-taken now events sys key p stored v idle found due a e =
      let fly : Flying (step store (taken now) sys) key (p.body, p.fails) =
        rw (idle, step)
          (
            rw (get-retain (λ _ p. not (is_due now p)) key sys.pending v.pending, found, due) refl,
            rw (get-due_of now key sys.pending v.pending, found, due) refl,
          ) in
      let world : (f : Str)
          → store.read (step store (taken now) sys).world key f ≡ store.read sys.world key f =
        rw (idle, step) (λ f. refl) in
      let hidden =
        run-Hidden events (step store (taken now) sys) key (p.body, p.fails)
          (step-IsValid store (taken now) sys v tt) a.1 e.1 fly in
      (rw hidden.waiting refl, λ f. hidden.stored f ∙ world f)
