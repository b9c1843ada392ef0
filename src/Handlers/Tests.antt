-- ===== src/Handlers/Tests.antt =====
-- The handlers of documents on concrete requests.
use hakobackend.Base.{
  map, ◌&&◌, if◌then◌else◌, ℕ, ◌≡◌, refl, Bool, true, false, Option, none, some, [], ◌∷◌, any, all,
  and_then, ok, is_ok, nat_Eq, Str, str, str_eq, str_Eq, pair_Eq,
}
use hakobackend.Base.Map
use hakobackend.Base.Map.{
  Map, get-insert, get-remove, Unique, get-retain, insert-Unique, remove-Unique, retain-Unique,
}
use hakobackend.Json.{Number, pos_int, Value, number, object, insert_field, of_map}
use hakobackend.Json.Int.{pos}
use hakobackend.Policy.Rule.{
  Doc, AuthContext, Method, PolicyFile, public, uid_self, fields, int_range, closed, open_policy,
}
use hakobackend.Policy.Decide.{allow, allow_fields, strip_fields}
use hakobackend.Atomics.Resolve.{has_sentinel}
use hakobackend.Atomics.Update.{Externals, set_path}
use hakobackend.Paths.{document, parse_collection_path}
use hakobackend.Query.{Order}
use hakobackend.Database.{Database}
use hakobackend.Handlers.{ok_true, forbidden, App, Clock, State, dotted, incoming_doc, db_for}
use hakobackend.Handlers.Writes.{read_before, written, write_at, write_doc}
use hakobackend.Handlers.Batch.{BatchOp, run_ops}
use hakobackend.Handlers.Gates
use hakobackend.Handlers.Gates.{permits}
use hakobackend.Handlers.Stored
use hakobackend.Handlers.Atomic
use hakobackend.Handlers.Gate.{passes, planned}
use hakobackend.Database.Memory.{Store, apply_all_tx, memory}

program : Unit {0}
unfolding write_doc write_at run_ops parse_collection_path db_for allow allow_fields Map.get
    Map.insert str_eq dotted
program = tt

abbrev externals : Externals
externals = record {
  to_text = λ v. [];
  as_f64 = λ n. 0;
  add = λ a b. a;
  is_whole = λ b. true;
  to_i64 = λ b. pos 0;
}

abbrev no_cmp : Number → Number → Option Order
no_cmp a b = none

abbrev db : Database Store
db = memory no_cmp true

-- a gateway in front of one database, with this policy
abbrev app : PolicyFile → Bool → App Store
app policy coalesce_on = record {
  policy = policy;
  skip_read_before_write = false;
  coalesce_on = coalesce_on;
  read_only = false;
  dbs = (str "default", db) ∷ [];
  externals = externals;
  to_text = λ v. some [];
}

abbrev clock : Clock
clock = record { now = 0; resolved = str "t"; stamped = str "t" }

abbrev note : Doc
note = record { id = str "a"; contents = (str "n", number (pos_int 1)) ∷ [] }

abbrev start : State Store
start = record { world = ((str "c", str "a"), note) ∷ []; pending = []; emitted = [] }

-- the body with one field
abbrev one : Str → ℕ → Value
one f n = object (of_map ((f, number (pos_int n)) ∷ []))

abbrev path : Str
path = str "c/a"

path_parsed : parse_collection_path path ≡ document (str "c") (str "a")
unfolding program
path_parsed = refl

handle_found : db_for (app closed false) (str "default") ≡ ok db
unfolding program
handle_found = refl

not_permitted :
    permits (app closed false) none Method.update (str "default") (str "c") (str "a") (
      read_before
        (app closed false)
        db
        (dotted (str "default") (str "c"))
        (str "c")
        (str "a")
        false
        false
        start.world)
    ≡ false
unfolding program
not_permitted = refl

write_doc-refused_example :
    (write_doc
      (app closed false)
      none
      clock
      path
      (one (str "n") 2)
      false
      false
      (str "default")
      start).1
    ≡ start
write_doc-refused_example =
    Gates.write_doc-refused (app closed false) db none clock path (one (str "n") 2) false false
      (str "default") (str "c") (str "a") start path_parsed handle_found not_permitted

put_done :
    (write_at
      (app open_policy false)
      db
      none
      clock
      (str "c")
      (str "c")
      (str "a")
      (one (str "n") 2)
      false
      false
      start).0
    ≡ ok_true
unfolding program
put_done = refl

get-write_at_example :
    let contents =
      written
        (app open_policy false)
        clock
        (str "c")
        false
        (read_before
          (app open_policy false)
          db
          (str "c")
          (str "c")
          (str "a")
          false
          false
          start.world)
        (incoming_doc (str "a") (one (str "n") 2)).contents in
    (Map.get
        (str "c", str "a")
        (write_at
          (app open_policy false)
          db
          none
          clock
          (str "c")
          (str "c")
          (str "a")
          (one (str "n") 2)
          false
          false
          start).1.world
      ≡ some (record { id = str "a"; contents = contents }))
    × (allow_fields open_policy none (str "c") Method.update contents ≡ true)
    × ((any (λ g. str_eq g (str "role")) (strip_fields open_policy (str "c") Method.update)
          && Map.contains (str "role") contents)
        ≡ false)
unfolding program
get-write_at_example =
    Stored.get-write_at no_cmp true (app open_policy false) none clock (str "c") (str "c") (str "a")
      (one (str "n") 2) false false start (str "c", str "a") (str "role") refl put_done

-- an `update` of the note
abbrev update_op : Str → ℕ → BatchOp
update_op f n = record {
  op_type = str "update";
  collection = str "c";
  id = some (str "a");
  contents = some (one f n);
  merge = none;
}

run_ops-atomic_example :
    let ops = update_op (str "x") 1 ∷ update_op (str "y") 2 ∷ [] in
    let served = app open_policy false in
    let r = run_ops served db none false (str "default") clock ops start in
    let tx =
      apply_all_tx
        (map (planned no_cmp true served none false (str "default") clock start.world) ops)
        start.world in
    let good =
      all (passes no_cmp true served none false (str "default") clock start.world) ops
      && is_ok tx.0 in
    (is_ok r.0 ≡ good)
    × (r.1 ≡ (if good then record start { world = tx.1; emitted = r.1.emitted } else start))
run_ops-atomic_example =
    Atomic.run_ops-atomic no_cmp true (app open_policy false) none false (str "default") clock
      (update_op (str "x") 1 ∷ update_op (str "y") 2 ∷ []) start

-- Of two updates of one document in a batch, both acknowledged, the second one undoes the first.
first_lost :
    let r =
      run_ops
        (app open_policy false)
        db
        none
        false
        (str "default")
        clock
        (update_op (str "x") 1 ∷ update_op (str "y") 2 ∷ [])
        start in
    (is_ok r.0 ≡ true)
    × (and_then (Map.get (str "c", str "a") r.1.world) (λ d. Map.get (str "y") d.contents)
        ≡ some (number (pos_int 2)))
    × (and_then (Map.get (str "c", str "a") r.1.world) (λ d. Map.get (str "x") d.contents) ≡ none)
unfolding program apply_all_tx insert_field has_sentinel set_path
first_lost = (refl, refl, refl)

-- the number must be at most nine
abbrev small : PolicyFile
small = record {
  defaults = record { read = public; write = fields (int_range (str "n") (pos 0) (pos 9) ∷ []) [] };
  collections = [];
}

-- A PATCH that the conditions on fields forbid is refused, unless it may wait: then it is accepted.
conditions_missed :
    ((write_at
        (app small false)
        db
        none
        clock
        (str "c")
        (str "c")
        (str "a")
        (one (str "n") 99)
        true
        false
        start).0
      ≡ forbidden)
    × ((write_at
          (app small true)
          db
          none
          clock
          (str "c")
          (str "c")
          (str "a")
          (one (str "n") 99)
          true
          false
          start).0
        ≡ ok_true)
unfolding program insert_field has_sentinel set_path
conditions_missed = (refl, refl)

abbrev own : PolicyFile
own = record { defaults = record { read = public; write = uid_self [] }; collections = [] }

abbrev owner : Option AuthContext
owner = some (record { uid = str "a"; extra = [] })

-- An owner may PUT his document, but not with the hint to skip the read.
hint_refused :
    ((write_at
        (app own false)
        db
        owner
        clock
        (str "c")
        (str "c")
        (str "a")
        (one (str "n") 2)
        false
        false
        start).0
      ≡ ok_true)
    × ((write_at
          (app own false)
          db
          owner
          clock
          (str "c")
          (str "c")
          (str "a")
          (one (str "n") 2)
          false
          true
          start).0
        ≡ forbidden)
unfolding program
hint_refused = (refl, refl)
