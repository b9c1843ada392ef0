-- ===== src/Handlers/Batch.antt =====
-- crates/hakobackend-server/src/main.rs: `run_ops`, which batches and transactions share.
use hakobackend.Base.{
  ◌+◌, Bool, true, false, not, ◌&&◌, ◌||◌, Option, none, some, List, [], ◌∷◌, ◌++◌, map, leb,
  if◌then◌else◌, any, and_then, is_some, unwrap_or, keep_if, Result, ok, err, ◌>>=◌, nat_Eq, Str,
  str, str_eq, str_Eq, pair_Eq,
}
use hakobackend.Base.Map
use hakobackend.Base.Map.{
  Map, get-insert, get-remove, Unique, get-retain, insert-Unique, remove-Unique, retain-Unique,
}
use hakobackend.Text.{is_empty}
use hakobackend.Json.{Value}
use hakobackend.Policy.Rule.{Doc, AuthContext, Method}
use hakobackend.Policy.Decide.{allow, allow_fields}
use hakobackend.Policy.Access.{strip_write}
use hakobackend.Atomics.Resolve.{resolve_for_create, stamp_new, stamp_update, created_at}
use hakobackend.Atomics.Update.{apply_update}
use hakobackend.Paths.{valid_collection_path, valid_doc_id}
use hakobackend.Database.{TxOp, TxOpKind, TxOut, read, delete, put, Database}
use hakobackend.Handlers.{
  Response, error, error_code, change, remove, Change, App, Clock, State, dotted, denied_internal,
  incoming_doc, found,
}

-- `BatchOpBody`
pub record BatchOp : Type 0 where
  pub op_type : Str
  pub collection : Str
  pub id : Option Str
  pub contents : Option Value
  pub merge : Option Bool

-- an operation behind its gate, with its type in small letters
pub record Gated : Type 0 where
  pub body : BatchOp
  pub kind : Str
  pub id : Str
  pub existing : Option Doc
  pub pol : Str
  pub method : Method

-- `OpOut`: a batch names the document, a transaction gives what a `get` found
pub data OpOut : Type 0 where
  done : Str → OpOut
  got : Option Doc → OpOut
  success : OpOut

-- `to_ascii_lowercase`
abbrev pub lower : Str → Str
lower s = map (λ c. if leb b'A' c && leb c b'Z' then c + 32 else c) s

abbrev pub known : List Str
known = str "get" ∷ str "set" ∷ str "add" ∷ str "update" ∷ str "delete" ∷ str "create" ∷ []

unfoldable pub is_known : Str → Bool
unfolding str_eq any
is_known t = any (λ k. str_eq k t) known

abbrev pub update_or_create : Bool → Method
update_or_create existed = if existed then Method.update else Method.create

-- `op_method`
unfoldable pub op_method : Str → Bool → Bool → Method
unfolding str_eq
op_method t existed is_tx =
    if str_eq t (str "get")
    then Method.get
    else if str_eq t (str "delete")
    then Method.delete
    else if str_eq t (str "update")
    then Method.update
    else if str_eq t (str "set") || is_tx
    then update_or_create existed
    else Method.create

-- `get` and `delete` carry no data
unfoldable pub is_dataless : Str → Bool
unfolding str_eq
is_dataless t = str_eq t (str "get") || str_eq t (str "delete")

-- `{method:?}`
abbrev pub debug_of : Method → Str
debug_of Method.get = str "Get"
debug_of Method.list = str "List"
debug_of Method.create = str "Create"
debug_of Method.update = str "Update"
debug_of Method.delete = str "Delete"

abbrev pub denial : Gated → Str
denial g = str "Permission denied: " ++ debug_of g.method ++ str " on " ++ g.pol ++ str "/" ++ g.id

module _ {W : Type 0} (app : App W) (db : Database W) (caller : Option AuthContext) (is_tx : Bool)
    (dbname : Str) where
  -- the checks of an operation before the policy
  unfoldable pub checked_id : BatchOp → Result Response Str
  unfolding is_known denied_internal valid_collection_path valid_doc_id
  checked_id op =
      if not (is_known (lower op.op_type)) && not is_tx
      then err (error 400 (str "unknown op type: " ++ op.op_type))
      else elim (keep_if (λ s. not (is_empty s)) op.id) [
        | none ↦ err (error 400 (str "op requires id"))
        | some id ↦
            if denied_internal op.collection
            then err (error 403 (str "reserved __ prefix"))
            else if not (valid_collection_path op.collection)
            then err (error 400 (str "invalid collection name"))
            else if not (valid_doc_id id)
            then err (error 400 (str "invalid document id"))
            else ok id
      ]

  abbrev pub gated_of : BatchOp → Str → Option Doc → Gated
  gated_of op id existing = record {
    body = op;
    kind = lower op.op_type;
    id = id;
    existing = existing;
    pol = dotted dbname op.collection;
    method = op_method (lower op.op_type) (is_some existing) is_tx;
  }

  abbrev pub is_allowed : Gated → Bool
  is_allowed g = allow app.policy caller g.pol g.method g.existing

  -- the loop of the first phase
  unfoldable pub gate_all : List BatchOp → W → Result Response (List Gated) × W
  unfolding checked_id dotted op_method allow
  gate_all [] w = (ok [], w)
  gate_all (op ∷ ops) w = elim (checked_id op) [
    | err r ↦ (err r, w)
    | ok id ↦
        let g = gated_of op id (found (db.get op.collection id w)) in
        let rest = gate_all ops (db.ensure_collection op.collection w) in
        elim (is_allowed g) [
          | false ↦ (err (error 403 (denial g)), w)
          | true ↦ elim rest.0 [ err r ↦ (err r, rest.1) | ok gs ↦ (ok (g ∷ gs), rest.1) ]
        ]
  ]

  unfoldable pub merges : Gated → Bool
  unfolding str_eq
  merges g =
      if str_eq g.kind (str "add") || str_eq g.kind (str "update")
      then true
      else if str_eq g.kind (str "set")
      then unwrap_or g.body.merge false
      else is_some g.existing

  -- the data of one operation
  unfoldable pub tx_data : Clock → Gated → Map Str Value
  unfolding is_dataless merges incoming_doc apply_update resolve_for_create stamp_new stamp_update
      Map.get strip_write
  tx_data clock g =
      let raw : Map Str Value = elim g.body.contents [
        | none ↦ []
        | some v ↦ (incoming_doc g.id v).contents
      ] in
      let base : Map Str Value = elim g.existing [ none ↦ [] | some d ↦ d.contents ] in
      let created = and_then g.existing (λ d. Map.get created_at d.contents) in
      if is_dataless g.kind
      then raw
      else strip_write app.policy g.pol g.method (
          if merges g
          then stamp_update clock.stamped (apply_update app.externals clock.resolved base raw)
              created
          else if is_some g.existing
          then stamp_update clock.stamped (resolve_for_create clock.resolved raw) created
          else stamp_new clock.stamped (resolve_for_create clock.resolved raw))

  unfoldable pub tx_kind : Gated → TxOpKind
  unfolding str_eq
  tx_kind g =
      if str_eq g.kind (str "get")
      then TxOpKind.read
      else if str_eq g.kind (str "delete")
      then TxOpKind.delete
      else if str_eq g.kind (str "update")
      then put false true
      else put false (
          is_tx
          && is_some g.existing
          && not (str_eq g.kind (str "set"))
          && not (str_eq g.kind (str "add")))

  -- the loop of the second phase
  unfoldable pub tx_ops : Clock → List Gated → Result Response (List TxOp)
  unfolding tx_data tx_kind allow_fields is_dataless
  tx_ops clock [] = ok []
  tx_ops clock (g ∷ gs) =
      let rest = tx_ops clock gs in
      let contents = tx_data clock g in
      if not (is_dataless g.kind) && not (allow_fields app.policy caller g.pol g.method contents)
      then err (error 403 (str "Permission denied: fields on " ++ g.pol ++ str "/" ++ g.id))
      else rest >>= λ ts. ok (
          (record {
            collection = g.body.collection;
            id = g.id;
            kind = tx_kind g;
            doc = some (record { id = g.id; contents = contents });
          })
          ∷ ts)

  -- what is emitted for an operation
  abbrev pub change_of : Gated → TxOp → List Change
  change_of g t = elim t.kind [
    | read ↦ []
    | delete ↦ record { collection = g.pol; id = g.id; kind = remove; doc = none } ∷ []
    | put _ _ ↦ record { collection = g.pol; id = g.id; kind = change; doc = t.doc } ∷ []
  ]

  unfoldable pub changes : List Gated → List TxOp → List Change
  changes (g ∷ gs) (t ∷ ts) = change_of g t ++ changes gs ts
  changes _ _ = []

  abbrev pub out_of : Gated → TxOut → OpOut
  out_of g o =
      if not is_tx then done g.id else if str_eq g.kind (str "get") then got o.doc else success

  unfoldable pub outs_of : List Gated → List TxOut → List OpOut
  unfolding str_eq
  outs_of (g ∷ gs) (o ∷ os) = out_of g o ∷ outs_of gs os
  outs_of _ _ = []

  -- `run_ops`
  unfoldable pub run_ops : Clock → List BatchOp → State W → Result Response (List OpOut) × State W
  unfolding gate_all tx_ops changes outs_of
  run_ops clock ops s =
      let gated = gate_all ops s.world in
      let s' : State W = record s { world = gated.1 } in
      elim gated.0 [
        | err r ↦ (err r, s')
        | ok gs ↦
            if not db.supports_transactions
            then (
              err (error 400 (str "driver " ++ db.driver ++ str " has no transaction support")),
              s',
            )
            else elim (tx_ops clock gs) [
              | err r ↦ (err r, s')
              | ok ts ↦
                  let r = db.run_transaction ts gated.1 in
                  elim r.0 [
                    | err e ↦ (err (error_code e), record s { world = r.1 })
                    | ok outs ↦ (
                      ok (outs_of gs outs),
                      record s { world = r.1; emitted = s.emitted ++ changes gs ts },
                    )
                  ]
            ]
      ]
