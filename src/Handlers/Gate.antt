-- ===== src/Handlers/Gate.antt =====
-- The gate of a batch, by the names and the policy, and the transaction that a batch stands for.
use hakobackend.Base.{
  ◌&&◌, not, none, some, unwrap_or, is_some, Option-cases, str, ◌≡◌, refl, sym, ap, ◌∙◌, ◌⊎◌, inl,
  inr, Bool, true, false, Option, [], arith, ◌||◌, subst, ok, err, Result-cases, nat_Eq, Str,
  str_Eq, pair_Eq,
}
use hakobackend.Base.Map
use hakobackend.Base.Map.{
  Map, get-insert, get-remove, Unique, get-retain, insert-Unique, remove-Unique, retain-Unique,
}
use hakobackend.Json.{Number}
use hakobackend.Policy.Rule.{Doc, AuthContext}
use hakobackend.Policy.Decide.{allow, allow_fields}
use hakobackend.Query.{Order}
use hakobackend.Paths.{valid_collection_path, valid_doc_id}
use hakobackend.Text.{is_empty}
use hakobackend.Database.{TxOp, Database}
use hakobackend.Handlers.{Response, dotted, denied_internal, App, Clock}
use hakobackend.Handlers.Batch.{
  lower, is_known, tx_kind, Gated, is_dataless, tx_data, BatchOp, checked_id, gated_of, is_allowed,
}
use hakobackend.Database.Memory.{Store, memory}
use hakobackend.Handlers.Plan.{
  without_data, is_dataless-lem, str_eq_comm, op_method-lem, checks-ok, checks-err, no_id-ok,
  method_for, kind_for,
}

module _ (number_cmp : Number → Number → Option Order) (native : Bool) (app : App Store)
    (caller : Option AuthContext) (is_tx : Bool) (dbname : Str) where
  abbrev db : Database Store
  db = memory number_cmp native

  -- an operation behind its gate, in this store
  abbrev pub gated : Store → BatchOp → Gated
  gated store op =
      let id = unwrap_or op.id [] in
      gated_of app db caller is_tx dbname op id (Map.get (op.collection, id) store)

  -- What the names of an operation must be.
  abbrev pub names_pass : BatchOp → Str → Bool
  names_pass op id =
      (is_known (lower op.op_type) || is_tx)
      && not (is_empty id)
      && not (denied_internal op.collection)
      && valid_collection_path op.collection
      && valid_doc_id id

  -- What is asked of the policy for an operation: the right to its method, and, for one with data,
  -- the conditions on fields.
  abbrev pub policy_pass : Clock → BatchOp → Str → Option Doc → Bool
  policy_pass clock op id existing =
      let t = lower op.op_type in
      let method = method_for is_tx t (is_some existing) in
      let path = dotted dbname op.collection in
      allow app.policy caller path method existing
      && (without_data t
          || allow_fields app.policy caller path method (
              tx_data app db caller is_tx dbname clock
                (gated_of app db caller is_tx dbname op id existing)))

  -- An operation that its names and the policy let through, in this store.
  unfoldable pub passes : Clock → Store → BatchOp → Bool
  unfolding is_known denied_internal valid_collection_path valid_doc_id allow allow_fields tx_data
      dotted Map.get
  passes clock store op = elim op.id [
    | none ↦ false
    | some id ↦ names_pass op id && policy_pass clock op id (Map.get (op.collection, id) store)
  ]

  -- The operation of the transaction that an operation of the batch stands for.
  unfoldable pub planned : Clock → Store → BatchOp → TxOp
  unfolding tx_data Map.get
  planned clock store op =
      let id = unwrap_or op.id [] in
      let existing = Map.get (op.collection, id) store in
      record {
        collection = op.collection;
        id = id;
        kind = kind_for is_tx (lower op.op_type) (is_some existing);
        doc = some (record {
          id = id;
          contents =
              tx_data app db caller is_tx dbname clock
                (gated_of app db caller is_tx dbname op id existing);
        });
      }

  checked_id-ok :
      (op : BatchOp) (id : Str)
      → checked_id app db caller is_tx dbname op ≡ ok id
      → (op.id ≡ some id) × (names_pass op id ≡ true)
  unfolding checked_id
  checked_id-ok op id h = elim (Option-cases op.id) [
    | inl e ↦ absurd (no_id-ok _ _ _ _ _ id refl refl (rw (e, checked_id) at h))
    | inr (id', e) ↦
        let h' = rw (e, checked_id) at h in
        let (same, pass) =
          checks-ok (is_known (lower op.op_type)) is_tx (denied_internal op.collection)
            (valid_collection_path op.collection) is_empty valid_doc_id _ _ _ _ _ id' id h' in
        (e ∙ ap some same, subst (λ i. names_pass op i ≡ true) same pass)
  ]

  checked_id-err :
      (op : BatchOp) (id : Str) (r : Response)
      → op.id ≡ some id
      → checked_id app db caller is_tx dbname op ≡ err r
      → names_pass op id ≡ false
  unfolding checked_id
  checked_id-err op id r e h =
      let h' = rw (e, checked_id) at h in
      checks-err (is_known (lower op.op_type)) is_tx (denied_internal op.collection)
        (valid_collection_path op.collection) is_empty valid_doc_id _ _ _ _ _ id r h'

  pub checked_id-cases :
      (op : BatchOp)
      → ((id : Str) × (op.id ≡ some id)
          × (checked_id app db caller is_tx dbname op ≡ ok id)
          × (names_pass op id ≡ true))
        ⊎ ((r : Response) × (checked_id app db caller is_tx dbname op ≡ err r)
            × ((id : Str) → op.id ≡ some id → names_pass op id ≡ false))
  unfolding checked_id
  checked_id-cases op = elim (Result-cases (checked_id app db caller is_tx dbname op)) [
    | inl (id, e) ↦ inl (id, (checked_id-ok op id e).0, e, (checked_id-ok op id e).1)
    | inr (r, e) ↦ inr (r, e, λ id named. checked_id-err op id r named e)
  ]

  -- the gate that the loop applies
  unfoldable pub gated_pass : Store → BatchOp → Bool
  unfolding checked_id
  gated_pass store op = elim (checked_id app db caller is_tx dbname op) [
    | err _ ↦ false
    | ok id ↦
        is_allowed app db caller is_tx dbname
          (gated_of app db caller is_tx dbname op id (Map.get (op.collection, id) store))
  ]

  pub gated_pass-ok :
      (store : Store) (op : BatchOp) (id : Str)
      → checked_id app db caller is_tx dbname op ≡ ok id
      → gated_pass store op
        ≡ is_allowed app db caller is_tx dbname
            (gated_of app db caller is_tx dbname op id (Map.get (op.collection, id) store))
  unfolding gated_pass
  gated_pass-ok store op id e = rw (e, gated_pass) refl

  pub gated_pass-err :
      (store : Store) (op : BatchOp) (r : Response)
      → checked_id app db caller is_tx dbname op ≡ err r
      → gated_pass store op ≡ false
  unfolding gated_pass
  gated_pass-err store op r e = rw (e, gated_pass) refl

  -- the data of an operation pass the policy's conditions on fields
  abbrev pub data_pass : Clock → Gated → Bool
  data_pass clock g =
      is_dataless g.kind
      || allow_fields app.policy caller g.pol g.method (tx_data app db caller is_tx dbname clock g)

  abbrev pub tx_of : Clock → Gated → TxOp
  tx_of clock g = record {
    collection = g.body.collection;
    id = g.id;
    kind = tx_kind app db caller is_tx dbname g;
    doc = some (record { id = g.id; contents = tx_data app db caller is_tx dbname clock g });
  }

  pub tx_kind-lem :
      (g : Gated)
      → tx_kind app db caller is_tx dbname g ≡ kind_for is_tx g.kind (is_some g.existing)
  unfolding tx_kind kind_for Map.get
  tx_kind-lem g =
      rw
        (
          str_eq_comm (str "get") g.kind,
          str_eq_comm (str "delete") g.kind,
          str_eq_comm (str "update") g.kind,
          str_eq_comm (str "set") g.kind,
          str_eq_comm (str "add") g.kind,
        )
        (ground arith)

  passes-named :
      (clock : Clock) (store : Store) (op : BatchOp) (id : Str)
      → op.id ≡ some id
      → names_pass op id ≡ true
      → passes clock store op ≡ policy_pass clock op id (Map.get (op.collection, id) store)
  unfolding passes
  passes-named clock store op id named yes_ =
      at_id op.id named
      ∙ ap (λ b. b && policy_pass clock op id (Map.get (op.collection, id) store)) yes_
    where
      at_id :
          (o : Option Str)
          → o ≡ some id
          → (elim o as (λ x. Bool) [
            | none ↦ false
            | some i ↦ names_pass op i && policy_pass clock op i (Map.get (op.collection, i) store)
          ])
            ≡ (names_pass op id && policy_pass clock op id (Map.get (op.collection, id) store))
      at_id o h = rw h refl

  pub passes-gated :
      (clock : Clock) (store : Store) (op : BatchOp)
      → (gated_pass store op && data_pass clock (gated store op)) ≡ passes clock store op
  unfolding passes
  passes-gated clock store op = elim (checked_id-cases op) [
    | inl (id, named, e, yes_) ↦
        let existing = Map.get (op.collection, id) store in
        let t = lower op.op_type in
        let path = dotted dbname op.collection in
        let contents =
          tx_data app db caller is_tx dbname clock
            (gated_of app db caller is_tx dbname op id existing) in
        let g = gated_of app db caller is_tx dbname op id existing in
        let unwrapped : unwrap_or op.id [] ≡ id = rw named refl in
        ap (λ b. b && data_pass clock (gated store op)) (gated_pass-ok store op id e)
        ∙ ap
            (λ i.
              is_allowed app db caller is_tx dbname g
              && data_pass clock
                  (gated_of app db caller is_tx dbname op i (Map.get (op.collection, i) store)))
            unwrapped
        ∙ ap
            (λ m.
              allow app.policy caller path m existing
              && (is_dataless t || allow_fields app.policy caller path m contents))
            (op_method-lem t (is_some existing) is_tx)
        ∙ ap
            (λ b.
              allow app.policy caller path (method_for is_tx t (is_some existing)) existing
              && (b
                  || allow_fields app.policy caller path (method_for is_tx t (is_some existing))
                      contents))
            (is_dataless-lem t)
        ∙ sym (passes-named clock store op id named yes_)
    | inr (r, e, no_) ↦ rw (gated_pass-err store op r e) (elim (Option-cases op.id) [
      | inl n ↦ rw (n, passes) refl
      | inr (id, n) ↦ rw (n, no_ id n, passes) refl
    ])
  ]

  pub planned-gated :
      (clock : Clock) (store : Store) (op : BatchOp)
      → tx_of clock (gated store op) ≡ planned clock store op
  unfolding planned tx_kind kind_for Map.get
  planned-gated clock store op =
      ap (λ k. record (tx_of clock (gated store op)) { kind = k }) (tx_kind-lem (gated store op))
