-- ===== src/Coalesce/Runs.antt =====
-- The coalescer stays well formed, and the contract over whole runs.
use hakobackend.Base.{
  ℕ, ◌≡◌, refl, inl, inr, false, not, Option, List, [], ◌∷◌, ltb, Bool-cases, Option-cases, nat_Eq,
  Str, str_eq, str_Eq, pair_Eq,
}
use hakobackend.Base.Map
use hakobackend.Base.Map.{
  Map, get-insert, get-remove, Unique, get-retain, insert-Unique, remove-Unique, retain-Unique,
}
use hakobackend.Json.{Value}
use hakobackend.Coalesce.{
  Key, Coalescer, max_flush_fails, merge, Due, is_due, due_of, take_due, refused, Store, System,
  Event, patched, taken, settled, settle, step, run, write, updated_at,
}
use hakobackend.Coalesce.Extend.{extend-Unique, Every, insert-Every, retain-Every}
use hakobackend.Coalesce.Memory.{IsBody, IsDue, IsValid, over, due_of-none, merge-IsBody}
use hakobackend.Coalesce.Exact.{flight_cases, view, meaning, Allowed, view-step}

pub due_of-Unique : (now : ℕ) (pending : Coalescer) → Unique pending → Unique (due_of now pending)
unfolding due_of
due_of-Unique now [] u = tt
due_of-Unique now ((k, p) ∷ pending) u = elim (Bool-cases (is_due now p)) [
  | inl d ↦ rw d (due_of-none now k pending u.0, due_of-Unique now pending u.1)
  | inr d ↦ rw d (due_of-Unique now pending u.1)
]

pub due_of-IsDue :
    (now : ℕ) (pending : Coalescer) → Every IsBody pending → Every IsDue (due_of now pending)
unfolding due_of
due_of-IsDue now [] b = tt
due_of-IsDue now ((k, p) ∷ pending) b = elim (Bool-cases (is_due now p)) [
  | inl d ↦ rw d (b.0, due_of-IsDue now pending b.1)
  | inr d ↦ rw d (due_of-IsDue now pending b.1)
]

refused-Unique :
    (key : Key) (due : Due) (now : ℕ) (pending : Coalescer)
    → Unique pending
    → Unique (refused key due now pending)
unfolding refused
refused-Unique key (body, fails) now pending u = elim (Option-cases (Map.get key pending)) [
  | inl e ↦ elim (Bool-cases (ltb fails max_flush_fails)) [
    | inl room ↦ rw (e, room, refused) (insert-Unique key _ pending u)
    | inr over ↦ rw (e, over, refused) u
  ]
  | inr (p, e) ↦ rw (e, refused) (insert-Unique key _ pending u)
]

refused-IsBody :
    (key : Key) (due : Due) (now : ℕ) (pending : Coalescer)
    → IsDue due
    → Every IsBody pending
    → Every IsBody (refused key due now pending)
unfolding refused
refused-IsBody key (body, fails) now pending d b = elim (Option-cases (Map.get key pending)) [
  | inl e ↦ elim (Bool-cases (ltb fails max_flush_fails)) [
    | inl room ↦ rw (e, room, refused) (insert-Every IsBody key _ pending d b)
    | inr over ↦ rw (e, over, refused) b
  ]
  | inr (p, e) ↦ rw (e, refused) (insert-Every IsBody key _ pending (extend-Unique body p.body d) b)
]

module _ {W : Type 0} (store : Store W) where
  settle-IsValid :
      (sys : System W) (key : Key) (due : Due) (rest : Map Key Due) (now : ℕ)
      → Unique sys.pending
      → Every IsBody sys.pending
      → IsDue due
      → Unique rest
      → Every IsDue rest
      → IsValid (settle store now key due rest sys)
  unfolding settle
  settle-IsValid sys key ([], fails) rest now u b d ru rb = record {
    pending = u;
    bodies = b;
    in_flight = ru;
    due = rb;
  }
  settle-IsValid sys key (x ∷ body, fails) rest now u b d ru rb =
      elim (Bool-cases (write store now key (x ∷ body) sys.world).0) [
        | inl done ↦
            rw (done, settle) (record { pending = u; bodies = b; in_flight = ru; due = rb })
        | inr failed ↦
            rw (failed, settle)
              (record {
                pending = refused-Unique key (x ∷ body, fails) now sys.pending u;
                bodies = refused-IsBody key (x ∷ body, fails) now sys.pending d b;
                in_flight = ru;
                due = rb;
              })
      ]

  -- Every event keeps the maps free of repeated keys, those in memory and those on their way.
  pub step-IsValid :
      (event : Event) (sys : System W)
      → IsValid sys
      → Allowed store event sys
      → IsValid (step store event sys)
  unfolding step
  step-IsValid (patched key body now) sys v u =
      unfold merge in
      record {
        pending = insert-Unique key _ sys.pending v.pending;
        bodies = merge-IsBody key body now sys.pending v.bodies;
        in_flight = v.in_flight;
        due = v.due;
      }
  step-IsValid (taken now) sys v u = elim (flight_cases sys.in_flight) [
    | inl e ↦
        unfold step take_due in
        rw (e, step)
          (record {
            pending = retain-Unique (λ _ p. not (is_due now p)) sys.pending v.pending;
            bodies = retain-Every IsBody (λ _ p. not (is_due now p)) sys.pending v.bodies;
            in_flight = due_of-Unique now sys.pending v.pending;
            due = due_of-IsDue now sys.pending v.bodies;
          })
    | inr (x, rest, e) ↦ unfold step in rw (e, step) v
  ]
  step-IsValid (settled now) sys v u = elim (flight_cases sys.in_flight) [
    | inl e ↦ unfold step in rw (e, step) v
    | inr ((key, due), rest, e) ↦
        let flight = rw e at v.in_flight in
        let bodies = rw e at v.due in
        unfold step in
        rw (e, step)
          (settle-IsValid sys key due rest now v.pending v.bodies bodies.0 flight.1 bodies.1)
  ]

  -- Each event is allowed when it happens.
  abbrev pub AllAllowed : List Event → System W → Type 0
  AllAllowed [] sys = Unit
  AllAllowed (event ∷ events) sys =
      Allowed store event sys × AllAllowed events (step store event sys)

  -- the PATCHes of a run, one after the other
  abbrev pub meanings : List Event → Key → Str → Option Value → Option Value
  meanings [] other f old = old
  meanings (event ∷ events) other f old = meanings events other f (meaning store event other f old)

  -- However PATCHes, flushes, writes, failures and retries interleave, each field of a document in
  -- memory and store but `updatedAt`, which each write refreshes, is what its PATCHes make of it one
  -- after the other, as long as no body is given up.
  pub view-run :
      (events : List Event) (sys : System W) (other : Key) (f : Str)
      → str_eq updated_at f ≡ false
      → IsValid sys
      → AllAllowed events sys
      → view store (run store events sys) other f ≡ meanings events other f (view store sys other f)
  unfolding run
  view-run [] sys other f apart v allowed = refl
  view-run (event ∷ events) sys other f apart v allowed =
      rw (← view-step store event sys other f apart v allowed.0) (
        view-run events (step store event sys) other f apart (step-IsValid event sys v allowed.0)
          allowed.1)
