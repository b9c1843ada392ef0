-- ===== src/Coalesce/Exact.antt =====
-- No PATCH is lost or applied out of order while it waits, is written and is retried.
use hakobackend.Base.{
  ℕ, ◌≡◌, refl, sym, ap, ◌∙◌, ◌⊎◌, inl, inr, true, false, not, ◌||◌, Option, none, some, [], ◌∷◌,
  arith, if◌then◌else◌, Bool-cases, or_else, ◌==◌, nat_Eq, Str, str_eq, str_Eq, pair_eq_iff,
  pair_Eq,
}
use hakobackend.Base.Map
use hakobackend.Base.Map.{
  Map, get-insert, get-remove, Unique, get-retain, insert-Unique, remove-Unique, retain-Unique,
}
use hakobackend.Json.{Value, string}
use hakobackend.Coalesce.{
  Body, Key, Due, take_due, refused, Store, System, Event, patched, taken, settled, settle, step,
  write, stamped, updated_at,
}
use hakobackend.Coalesce.Extend.{Every}
use hakobackend.Coalesce.Memory.{
  pending_field, due_field, IsBody, IsValid, over, pending_field-merge, fields-take_due, is_dropped,
  fields-refused,
}

pub or_else_assoc : (a b c : Option Value) → or_else (or_else a b) c ≡ or_else a (or_else b c)
or_else_assoc none b c = refl
or_else_assoc (some v) b c = refl

pub flight_cases :
    (m : Map Key Due) → (m ≡ []) ⊎ ((x : Key × Due) × (rest : Map Key Due) × (m ≡ x ∷ rest))
flight_cases [] = inl refl
flight_cases (x ∷ rest) = inr (x, rest, refl)

module _ {W : Type 0} (store : Store W) where
  -- the laws of the store, of the closure that stamps `updatedAt`
  pub read-written :
      (now : ℕ) (key : Key) (body : Body) (w : W) (other : Key) (f : Str)
      → str_eq updated_at f ≡ false
      → Unique body
      → (write store now key body w).0 ≡ true
      → store.read (write store now key body w).1 other f ≡ (
          if key == other
          then or_else (Map.get f body) (store.read w other f)
          else store.read w other f)
  unfolding write stamped
  read-written now key body w other f apart u done =
      let stamp = string (store.now_iso now) in
      store.read-ok key (stamped (store.now_iso now) body) w other f
        (insert-Unique updated_at stamp body u) done
      ∙ rw (get-insert updated_at f stamp body, apart) refl

  read-refused :
      (now : ℕ) (key : Key) (body : Body) (w : W) (other : Key) (f : Str)
      → (write store now key body w).0 ≡ false
      → store.read (write store now key body w).1 other f ≡ store.read w other f
  unfolding write
  read-refused now key body w other f failed =
      store.read-err key (stamped (store.now_iso now) body) w other f failed

  -- A field of a document: what waits, over what is on its way, over what is stored.
  unfoldable pub view : System W → Key → Str → Option Value
  view sys key f =
      or_else (pending_field (Map.get key sys.pending) f)
        (or_else (due_field (Map.get key sys.in_flight) f) (store.read sys.world key f))

  -- What an event means for a document: a PATCH changes its fields, the flusher nothing.
  abbrev pub meaning : Event → Key → Str → Option Value → Option Value
  meaning (patched key body now) other f old = if key == other then over body old f else old
  meaning (taken now) other f old = old
  meaning (settled now) other f old = old

  -- The body of a PATCH holds no field twice, and no write is given up.
  abbrev pub Allowed : Event → System W → Type 0
  Allowed (patched key body now) sys = Unique body
  Allowed (taken now) sys = Unit
  Allowed (settled now) sys = elim sys.in_flight [
    | [] ↦ Unit
    | (key, due) ∷ rest ↦
        ((write store now key due.0 sys.world).0 || not (is_dropped key due sys.pending)) ≡ true
  ]

  view-patched :
      (sys : System W) (key : Key) (body : Body) (now : ℕ) (other : Key) (f : Str)
      → Unique body
      → view (step store (patched key body now) sys) other f
        ≡ meaning (patched key body now) other f (view sys other f)
  unfolding view step
  view-patched sys key body now other f u =
      rw (pending_field-merge key other body now sys.pending f u)
        (elim (Bool-cases (key == other)) [
          | inl same ↦ rw same (or_else_assoc (Map.get f body) _ _)
          | inr differ ↦ rw differ refl
        ])

  pub rest-none :
      (key other : Key) (rest : Map Key Due)
      → Map.get key rest ≡ none
      → (key == other) ≡ true
      → Map.get other rest ≡ none
  rest-none key other rest h same = rw (← (pair_eq_iff key other).0 same) h

  module _ (sys : System W) (key : Key) (due : Due) (rest : Map Key Due) (now : ℕ) (other : Key)
      (f : Str) (absent : Map.get key rest ≡ none) where
    -- what was there before the round
    before : Option Value
    before =
        or_else (pending_field (Map.get other sys.pending) f)
          (or_else (due_field (Map.get other ((key, due) ∷ rest)) f) (store.read sys.world other f))

    view-written :
        str_eq updated_at f ≡ false
        → Unique due.0
        → (write store now key due.0 sys.world).0 ≡ true
        → or_else (pending_field (Map.get other sys.pending) f) (
            or_else
              (due_field (Map.get other rest) f)
              (store.read (write store now key due.0 sys.world).1 other f))
          ≡ before
    unfolding before Map.get
    view-written apart u done =
        rw (read-written now key due.0 sys.world other f apart u done)
          (elim (Bool-cases (key == other)) [
            | inl same ↦ rw (same, rest-none key other rest absent same) refl
            | inr differ ↦ rw differ refl
          ])

    view-refused :
        Every IsBody sys.pending
        → is_dropped key due sys.pending ≡ false
        → (write store now key due.0 sys.world).0 ≡ false
        → or_else (pending_field (Map.get other (refused key due now sys.pending)) f) (
            or_else
              (due_field (Map.get other rest) f)
              (store.read (write store now key due.0 sys.world).1 other f))
          ≡ before
    unfolding before Map.get
    view-refused b keeps failed =
        rw
          (
            read-refused now key due.0 sys.world other f failed,
            fields-refused key other due now sys.pending f b keeps,
          )
          (elim (Bool-cases (key == other)) [
            | inl same ↦
                rw (same, rest-none key other rest absent same)
                  (or_else_assoc (pending_field (Map.get other sys.pending) f) (Map.get f due.0) _)
            | inr differ ↦ rw differ refl
          ])

    view-idle :
        due.0 ≡ []
        → or_else
            (pending_field (Map.get other sys.pending) f)
            (or_else (due_field (Map.get other rest) f) (store.read sys.world other f))
          ≡ before
    unfolding before Map.get
    view-idle e = elim (Bool-cases (key == other)) [
      | inl same ↦ rw (same, rest-none key other rest absent same, e) refl
      | inr differ ↦ rw differ refl
    ]

  view-settle :
      (sys : System W) (key : Key) (due : Due) (rest : Map Key Due) (now : ℕ) (other : Key)
      (f : Str)
      → str_eq updated_at f ≡ false
      → Every IsBody sys.pending
      → Map.get key rest ≡ none
      → Unique due.0
      → ((write store now key due.0 sys.world).0 || not (is_dropped key due sys.pending)) ≡ true
      → view (settle store now key due rest sys) other f
        ≡ or_else (pending_field (Map.get other sys.pending) f) (
            or_else
              (due_field (Map.get other ((key, due) ∷ rest)) f)
              (store.read sys.world other f))
  unfolding view settle before
  view-settle sys key ([], fails) rest now other f apart b absent u allowed =
      view-idle sys key ([], fails) rest now other f absent refl
  view-settle sys key (x ∷ body, fails) rest now other f apart b absent u allowed =
      elim (Bool-cases (write store now key (x ∷ body) sys.world).0) [
        | inl done ↦
            rw (done, settle)
              (view-written sys key (x ∷ body, fails) rest now other f absent apart u done)
        | inr failed ↦
            rw (failed, settle)
              (view-refused sys key (x ∷ body, fails) rest now other f absent b (ground arith)
                failed)
      ]

  step_busy :
      (now : ℕ) (sys : System W) (x : Key × Due) (rest : Map Key Due)
      → sys.in_flight ≡ x ∷ rest
      → step store (taken now) sys ≡ sys
  unfolding step
  step_busy now sys x rest e = go sys.in_flight e
    where
      go :
          (m : Map Key Due)
          → m ≡ x ∷ rest
          → (elim m [
            | [] ↦
                let due = take_due now sys.pending in
                record sys { in_flight = due.0; pending = due.1 }
            | _ ∷ _ ↦ sys
          ])
            ≡ sys
      go [] h = absurd (ground arith)
      go (y ∷ ys) h = refl

  step_done : (now : ℕ) (sys : System W) → sys.in_flight ≡ [] → step store (settled now) sys ≡ sys
  unfolding step
  step_done now sys e = go sys.in_flight e
    where
      go :
          (m : Map Key Due)
          → m ≡ []
          → (elim m [ [] ↦ sys | (key, due) ∷ rest ↦ settle store now key due rest sys ]) ≡ sys
      go [] h = refl
      go (y ∷ ys) h = absurd (ground arith)

  -- Every event changes every field but `updatedAt`, which each write refreshes, as it means to: a
  -- PATCH puts its fields over those that were there; a flush, its writes and its retries change
  -- nothing, short of a body that is given up.
  pub view-step :
      (event : Event) (sys : System W) (other : Key) (f : Str)
      → str_eq updated_at f ≡ false
      → IsValid sys
      → Allowed event sys
      → view (step store event sys) other f ≡ meaning event other f (view sys other f)
  view-step (patched key body now) sys other f apart v u = view-patched sys key body now other f u
  view-step (taken now) sys other f apart v u = elim (flight_cases sys.in_flight) [
    | inl e ↦
        unfold view step in
        rw (e, step)
          (sym (
              or_else_assoc (pending_field (Map.get other (take_due now sys.pending).1) f)
                (due_field (Map.get other (take_due now sys.pending).0) f)
                (store.read sys.world other f))
            ∙ rw (fields-take_due now other sys.pending f v.pending) refl)
    | inr (x, rest, e) ↦ ap (λ s. view s other f) (step_busy now sys x rest e)
  ]
  view-step (settled now) sys other f apart v u = elim (flight_cases sys.in_flight) [
    | inl e ↦ ap (λ s. view s other f) (step_done now sys e)
    | inr ((key, due), rest, e) ↦
        let flight = rw e at v.in_flight in
        let bodies = rw e at v.due in
        let allowed = rw e at u in
        unfold step view in
        rw (e, step)
          (view-settle sys key due rest now other f apart v.bodies flight.0 bodies.0 allowed)
  ]
