-- ===== src/Handlers/Writes.antt =====
-- crates/hakobackend-server/src/main.rs: the handlers that write one document, and `get_owned`.
use hakobackend.Base.{
  Bool, true, false, not, ◌&&◌, ◌||◌, Option, none, some, [], if◌then◌else◌, and_then, is_some,
  Result, ok, err, nat_Eq, Str, str, str_eq, str_Eq, pair_Eq,
}
use hakobackend.Base.Map
use hakobackend.Base.Map.{
  Map, get-insert, get-remove, Unique, get-retain, insert-Unique, remove-Unique, retain-Unique,
}
use hakobackend.Text.{is_empty}
use hakobackend.Json.{Value, to_map, as_object}
use hakobackend.Policy.Rule.{Doc, AuthContext, Method}
use hakobackend.Policy.Decide.{allow, allow_fields, strip_fields}
use hakobackend.Policy.Access.{strip_write}
use hakobackend.Atomics.Resolve.{resolve_for_create, stamp_new, stamp_update, created_at}
use hakobackend.Atomics.Update.{apply_update}
use hakobackend.Coalesce
use hakobackend.Coalesce.{Coalescer, eligible}
use hakobackend.Paths.{document, collection, parse_collection_path}
use hakobackend.Query.{is_nil}
use hakobackend.Database.{Database}
use hakobackend.Handlers.{
  Response, ok_true, sent, error, error_code, forbidden, change, remove, App, Clock, State, dotted,
  resolve_db_name, incoming_doc, found, deny_if_read_only, target, emit,
}

module _ {W : Type 0} (app : App W) where
  -- `PolicyFile::needs_existing`
  abbrev pub needs_existing : Str → Method → Bool
  needs_existing c method = false

  -- what a write of a document reads of it first
  unfoldable pub read_before : Database W → Str → Str → Str → Bool → Bool → W → Option Doc
  read_before db pol c id merge skip_hint w =
      if not merge
        && not (needs_existing pol Method.update)
        && (skip_hint || app.skip_read_before_write)
      then none
      else found (db.get c id w)

  -- whether a PATCH may wait
  unfoldable pub may_wait : Str → Value → Bool
  unfolding strip_fields eligible
  may_wait pol body =
      app.coalesce_on
      && is_nil (strip_fields app.policy pol Method.update)
      && is_some (as_object body)
      && eligible app.to_text body

  -- the data that a write of a document stores
  unfoldable pub written : Clock → Str → Bool → Option Doc → Map Str Value → Map Str Value
  unfolding apply_update resolve_for_create stamp_new stamp_update Map.get strip_write
  written clock pol merge existing body =
      let resolved : Map Str Value =
        if merge
        then apply_update app.externals clock.resolved
            (elim existing [ none ↦ [] | some d ↦ d.contents ]) body
        else resolve_for_create clock.resolved body in
      let stamped : Map Str Value = elim existing [
        | none ↦ stamp_new clock.stamped resolved
        | some d ↦ stamp_update clock.stamped resolved (Map.get created_at d.contents)
      ] in
      strip_write app.policy pol Method.update stamped

  -- `write_doc` once a PATCH does not wait
  unfoldable pub store_doc :
      Database W
      → Option AuthContext
      → Clock
      → Str
      → Str
      → Str
      → Value
      → Bool
      → Option Doc
      → State W
      → Response × State W
  unfolding written allow_fields incoming_doc
  store_doc db caller clock pol c id body merge existing s =
      let w = db.ensure_collection c s.world in
      let contents = written clock pol merge existing (incoming_doc id body).contents in
      if not (allow_fields app.policy caller pol Method.update contents)
      then (forbidden, record s { world = w })
      else let r = db.set c id (record { id = id; contents = contents }) false w in
        elim r.0 [
          | err e ↦ (error_code e, record s { world = r.1 })
          | ok d ↦ (
            ok_true,
            emit (record { collection = pol; id = id; kind = change; doc = some d })
                (record s { world = r.1 }),
          )
        ]

  -- `write_doc` on a document of a database
  unfoldable pub write_at :
      Database W
      → Option AuthContext
      → Clock
      → Str
      → Str
      → Str
      → Value
      → Bool
      → Bool
      → State W
      → Response × State W
  unfolding read_before allow may_wait store_doc Coalesce.merge
  write_at db caller clock pol c id body merge skip_hint s =
      let existing = read_before db pol c id merge skip_hint s.world in
      if not (allow app.policy caller pol Method.update existing)
      then (forbidden, s)
      else if merge && not (is_some existing)
      then (error 404 (str "Document not found"), s)
      else if merge && may_wait pol body
      then (
        ok_true,
        record s {
          pending =
              Coalesce.merge (pol, id) (elim (as_object body) [ none ↦ [] | some fs ↦ to_map fs ])
                clock.now s.pending;
        },
      )
      else store_doc db caller clock pol c id body merge existing s

  -- `write_doc`
  unfoldable pub write_doc :
      Option AuthContext → Clock → Str → Value → Bool → Bool → Str → State W → Response × State W
  unfolding parse_collection_path target write_at dotted
  write_doc caller clock path body merge skip_hint dbname s = elim (parse_collection_path path) [
    | collection _ ↦
        (error 400 (str "PUT/PATCH requests must target explicit document endpoints."), s)
    | document c id ↦ elim (target app dbname c (some id)) [
      | err r ↦ (r, s)
      | ok db ↦ write_at db caller clock (dotted dbname c) c id body merge skip_hint s
    ]
  ]

  -- what `put`, `patch`, `create` and `remove` check first; `param` is the request's `db`
  unfoldable pub open_for_writes :
      Option Str → (Str → State W → Response × State W) → State W → Response × State W
  unfolding resolve_db_name
  open_for_writes param handler s = elim (deny_if_read_only app) [
    | some r ↦ (r, s)
    | none ↦ elim (resolve_db_name param) [ err r ↦ (r, s) | ok dbname ↦ handler dbname s ]
  ]

  -- `put` and `patch`
  unfoldable pub put_handler :
      Option AuthContext → Clock → Str → Value → Bool → Option Str → State W → Response × State W
  unfolding open_for_writes write_doc
  put_handler caller clock path body skip_hint param =
      open_for_writes param (write_doc caller clock path body false skip_hint)

  unfoldable pub patch_handler :
      Option AuthContext → Clock → Str → Value → Bool → Option Str → State W → Response × State W
  unfolding open_for_writes write_doc
  patch_handler caller clock path body skip_hint param =
      open_for_writes param (write_doc caller clock path body true skip_hint)

  -- the data of a new document
  unfoldable pub created : Clock → Str → Map Str Value → Map Str Value
  unfolding resolve_for_create stamp_new strip_write
  created clock pol contents =
      strip_write app.policy pol Method.create
        (stamp_new clock.stamped (resolve_for_create clock.resolved contents))

  -- `create`, for a path that is not of an index
  unfoldable pub create_doc :
      Option AuthContext → Clock → Str → Value → Str → State W → Response × State W
  unfolding parse_collection_path target incoming_doc allow created allow_fields dotted
  create_doc caller clock path body dbname s = elim (parse_collection_path path) [
    | document _ _ ↦
        (error 400 (str "POST requests must target collection endpoints, not document routes."), s)
    | collection c ↦ elim (target app dbname c none) [
      | err r ↦ (r, s)
      | ok db ↦
          let pol = dotted dbname c in
          let incoming = incoming_doc [] body in
          if not (allow app.policy caller pol Method.create (some incoming))
          then (forbidden, s)
          else let w = db.ensure_collection c s.world in
            let contents = created clock pol incoming.contents in
            if not (allow_fields app.policy caller pol Method.create contents)
            then (forbidden, record s { world = w })
            else let r = db.insert c (record { id = incoming.id; contents = contents }) w in
              elim r.0 [
                | err e ↦ (error_code e, record s { world = r.1 })
                | ok d ↦ (
                  sent d,
                  emit (record { collection = pol; id = d.id; kind = change; doc = some d })
                      (record s { world = r.1 }),
                )
              ]
    ]
  ]

  -- `?mode=` of a deletion; the text of the error leaves out the mode
  unfoldable pub delete_mode : Option Str → Result Response Bool
  unfolding str_eq
  delete_mode none = ok false
  delete_mode (some mode) =
      if is_empty mode
      then ok false
      else if str_eq mode (str "force")
      then ok true
      else err (error 400 (str "unknown delete mode"))

  -- `remove`
  unfoldable pub remove_doc :
      Option AuthContext → Str → Option Str → Str → State W → Response × State W
  unfolding parse_collection_path target allow delete_mode dotted
  remove_doc caller path mode dbname s = elim (parse_collection_path path) [
    | collection _ ↦ (error 400 (str "DELETE requests must target explicit document endpoints."), s)
    | document c id ↦ elim (target app dbname c (some id)) [
      | err r ↦ (r, s)
      | ok db ↦
          let pol = dotted dbname c in
          if not (allow app.policy caller pol Method.delete (found (db.get c id s.world)))
          then (forbidden, s)
          else let w = db.ensure_collection c s.world in
            elim (delete_mode mode) [
              | err r ↦ (r, record s { world = w })
              | ok force ↦
                  let r = if force then db.delete_force c id w else db.delete c id w in
                  elim r.0 [
                    | err e ↦ (error_code e, record s { world = r.1 })
                    | ok _ ↦ (
                      ok_true,
                      emit (record { collection = pol; id = id; kind = remove; doc = none })
                          (record s { world = r.1 }),
                    )
                  ]
            ]
    ]
  ]

  -- `get_owned`
  unfoldable pub get_owned : Option AuthContext → Str → Str → Str → Database W → State W → Response
  unfolding Coalesce.overlay allow
  get_owned caller pol c id db s = elim (db.get c id s.world) [
    | err _ ↦ error 500 (str "internal error")
    | ok stored ↦
        let overlaid =
          Coalesce.overlay (pol, id) (and_then stored (λ d. some d.contents)) s.pending in
        let doc : Option Doc = elim overlaid [
          | some contents ↦ some (record { id = id; contents = contents })
          | none ↦ stored
        ] in
        elim doc [
          | none ↦ error 404 (str "Document not found")
          | some d ↦
              if not (allow app.policy caller pol Method.get (some d)) then forbidden else sent d
        ]
  ]
