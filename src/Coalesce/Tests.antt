-- ===== src/Coalesce/Tests.antt =====
-- Runs of the coalescer, and its theorems at concrete inputs.
use hakobackend.Base.{
  ℕ, ◌*◌, ◌≡◌, refl, Bool, true, false, Option, none, some, List, [], ◌∷◌, arith, if◌then◌else◌,
  or_else, ◌==◌, nat_Eq, Str, str, str_eq, str_Eq, pair_Eq,
}
use hakobackend.Base.Map
use hakobackend.Base.Map.{
  Map, get-insert, get-remove, Unique, get-retain, insert-Unique, remove-Unique, retain-Unique,
}
use hakobackend.Json.{Value, null, string, object}
use hakobackend.Json.{field, no_fields}
use hakobackend.Coalesce.{
  Body, Key, Coalescer, window, merge, overlay, eligible, Store, System, Event, patched, taken,
  settled, step, run, write,
}
use hakobackend.Coalesce.Memory.{IsValid, over}
use hakobackend.Coalesce.Exact.{view, meaning}
use hakobackend.Coalesce.Exact
use hakobackend.Coalesce.Drain
use hakobackend.Coalesce.Runs
use hakobackend.Coalesce.Runs.{meanings}
use hakobackend.Coalesce.Reads
use hakobackend.Coalesce.Gap
use hakobackend.Coalesce.Reads.{seen}

program : Unit {0}
unfolding run step merge overlay str_eq Exact.view eligible write Map.get
program = tt

abbrev iso : ℕ → Str
iso now = now ∷ []

-- a store whose next write fails where the flag is set
abbrev World : Type 0
World = Bool × (Key → Str → Option Value)

abbrev set : Key → Body → World → Bool × World
set key body (true, docs) = (false, (false, docs))
set key body (false, docs) =
    (true, (false, λ k f. if key == k then or_else (Map.get f body) (docs k f) else docs k f))

read-ok :
    (key : Key) (body : Body) (w : World) (other : Key) (f : Str)
    → Unique body
    → (set key body w).0 ≡ true
    → (set key body w).1.1 other f
      ≡ (if key == other then or_else (Map.get f body) (w.1 other f) else w.1 other f)
read-ok key body (true, docs) other f u h = absurd (ground arith)
read-ok key body (false, docs) other f u h = refl

read-err :
    (key : Key) (body : Body) (w : World) (other : Key) (f : Str)
    → (set key body w).0 ≡ false
    → (set key body w).1.1 other f ≡ w.1 other f
read-err key body (true, docs) other f h = refl
read-err key body (false, docs) other f h = absurd (ground arith)

abbrev store : Store World
store = record {
  read = λ w k f. w.1 k f;
  set = set;
  now_iso = iso;
  read-ok = read-ok;
  read-err = read-err;
}

abbrev doc : Key
doc = (str "users", str "u1")

abbrev body : Str → Body
body v = (str "name", string v) ∷ []

-- nothing waits, and the next write fails
abbrev start : System World
start = record { pending = []; in_flight = []; flushed = 0; world = (true, λ k f. none) }

start-IsValid : IsValid start
start-IsValid = record { pending = tt; bodies = tt; in_flight = tt; due = tt }

-- a PATCH is written, refused and retried, and another comes in between
abbrev events : List Event
events =
    patched doc (body (str "a")) 0
    ∷ taken window
    ∷ patched doc (body (str "b")) window
    ∷ settled window
    ∷ taken (2 * window)
    ∷ settled (2 * window)
    ∷ []

retried :
    ((run store events start).world.1 doc (str "name") ≡ some (string (str "b")))
    × ((run store events start).world.1 doc (str "updatedAt") ≡ some (string (iso (2 * window))))
unfolding program
retried = (refl, refl)

view-run_example :
    view store (run store events start) doc (str "name")
    ≡ meanings store events doc (str "name") (view store start doc (str "name"))
unfolding program
view-run_example =
    Runs.view-run store events start doc (str "name") refl start-IsValid
      ((refl, tt), (tt, ((refl, tt), (refl, (tt, (refl, tt))))))

view-step_example :
    view store (step store (patched doc (body (str "a")) 0) start) doc (str "name")
    ≡ meaning store
        (patched doc (body (str "a")) 0)
        doc
        (str "name")
        (view store start doc (str "name"))
unfolding program
view-step_example =
    Exact.view-step store (patched doc (body (str "a")) 0) start doc (str "name") refl start-IsValid
      (refl, tt)

abbrev waiting : Coalescer
waiting = (doc, record { body = body (str "a"); first_at = 0; fails = 0 }) ∷ []

seen-merge_example : seen doc none (merge doc (body (str "b")) 5 waiting) (str "name") ≡ (
    if doc == doc
    then over (body (str "b")) (seen doc none waiting (str "name")) (str "name")
    else seen doc none waiting (str "name"))
unfolding program
seen-merge_example =
    Reads.seen-merge doc doc (body (str "b")) 5 none waiting (str "name") (refl, tt)
      ((refl, tt), tt)

-- a body with a dotted key, one with a sentinel, and a plain one
eligible_runs :
    (eligible (λ v. some []) (object (field (str "a.b") null no_fields)) ≡ false)
    × (eligible (λ v. some (str "{__type__:x}")) (object no_fields) ≡ false)
    × (eligible (λ v. some (str "{}")) (object no_fields) ≡ true)
unfolding program
eligible_runs = (refl, refl, refl)

-- a store that accepts each write
abbrev Docs : Type 0
Docs = Key → Str → Option Value

abbrev accept : Key → Body → Docs → Bool × Docs
accept key body docs =
    (true, λ k f. if key == k then or_else (Map.get f body) (docs k f) else docs k f)

abbrev accepting : Store Docs
accepting = record {
  read = λ w k f. w k f;
  set = accept;
  now_iso = iso;
  read-ok = λ key body w other f u h. refl;
  read-err = λ key body w other f h. absurd (ground (arith, h));
}

-- one body is due, and one is not
abbrev half : System Docs
half = record {
  pending =
      (doc, record { body = body (str "a"); first_at = 0; fails = 0 })
      ∷ ((str "users", str "u2"), record { body = body (str "b"); first_at = window; fails = 0 })
      ∷ [];
  in_flight = [];
  flushed = 0;
  world = λ k f. none;
}

half-IsValid : IsValid half
unfolding program
half-IsValid = record {
  pending = (refl, (refl, tt));
  bodies = ((refl, tt), ((refl, tt), tt));
  in_flight = tt;
  due = tt;
}

-- another document is patched while the first body is on its way
abbrev meanwhile : List Event
meanwhile = patched (str "users", str "u2") (body (str "c")) window ∷ []

run-taken_example :
    let end = run accepting (taken window ∷ meanwhile) half in
    (overlay doc none end.pending ≡ none)
    × ((f : Str) → accepting.read end.world doc f ≡ accepting.read half.world doc f)
unfolding program
run-taken_example =
    Gap.run-taken accepting window meanwhile half doc
      (record { body = body (str "a"); first_at = 0; fails = 0 }) none half-IsValid refl refl refl
      (tt, ((refl, tt), tt)) (tt, (refl, tt))
