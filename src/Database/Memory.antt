-- ===== src/Database/Memory.antt =====
-- The driver in memory: its documents by collection and id.
use hakobackend.Base.{
  Bool, true, not, ◌&&◌, Option, none, some, List, [], ◌∷◌, if◌then◌else◌, length, keep, is_some,
  Result, ok, err, nat_Eq, Str, str, str_eq, str_Eq, pair_Eq,
}
use hakobackend.Base.Map
use hakobackend.Base.Map.{
  Map, get-insert, get-remove, Unique, get-retain, insert-Unique, remove-Unique, retain-Unique,
}
use hakobackend.Json.{Number, Value}
use hakobackend.Policy.Rule.{Doc}
use hakobackend.Query.{Order, QueryOptions, doc_matches, matches_cursor, sort_and_limit}
use hakobackend.Database.{AppError, not_found, TxOp, TxOut, read, delete, put, Database}

abbrev pub Store : Type 0
Store = Map (Str × Str) Doc

-- the documents of a collection
unfoldable pub docs_in : Str → Store → List Doc
docs_in c [] = []
docs_in c ((key, d) ∷ store) =
    let rest = docs_in c store in if str_eq key.0 c then d ∷ rest else rest

-- a shallow merge of the top level
abbrev pub merged : Bool → Option Doc → Doc → Doc
merged true (some old) d = record d { contents = Map.extend old.contents d.contents }
merged _ _ d = d

abbrev pub put_doc : Str → Str → Doc → Bool → Store → Doc × Store
put_doc c id d merge store =
    let d' = merged merge (Map.get (c, id) store) d in (d', Map.insert (c, id) d' store)

-- one operation of a transaction
abbrev pub apply_tx : TxOp → Store → Result AppError TxOut × Store
apply_tx t store =
    let old = Map.get (t.collection, t.id) store in
    let seen : TxOut = record { doc = old; existed = is_some old } in
    elim t.kind [
      | read ↦ (ok seen, store)
      | delete ↦ (ok seen, Map.remove (t.collection, t.id) store)
      | put merge must_exist ↦
          let contents : Map Str Value = elim t.doc [ none ↦ [] | some d ↦ d.contents ] in
          let d : Doc = record { id = t.id; contents = contents } in
          let r = put_doc t.collection t.id d merge store in
          if must_exist && not (is_some old)
          then (err not_found, store)
          else (ok (record { doc = some r.0; existed = is_some old }), r.1)
    ]

-- the operations one after the other, until one fails
unfoldable pub apply_all_tx : List TxOp → Store → Result AppError (List TxOut) × Store
unfolding Map.get Map.insert Map.remove Map.extend
apply_all_tx [] store = (ok [], store)
apply_all_tx (t ∷ ts) store =
    let r = apply_tx t store in
    let rest = apply_all_tx ts r.1 in
    elim r.0 [
      | err e ↦ (err e, store)
      | ok out ↦ elim rest.0 [ err e ↦ (err e, store) | ok outs ↦ (ok (out ∷ outs), rest.1) ]
    ]

module _ (number_cmp : Number → Number → Option Order) where
  unfoldable pub select : Str → QueryOptions → Store → List Doc
  unfolding docs_in doc_matches keep
  select c q store = keep (λ d. doc_matches number_cmp d q.filters) (docs_in c store)

  abbrev pub list : Str → QueryOptions → Store → Result AppError (List Doc)
  list c q store = ok (sort_and_limit number_cmp (select c q store) q)

  -- A database that never fails; `count` looks at no page and no order.
  abbrev pub memory : Bool → Database Store
  memory native = record {
    driver = str "mem";
    supports_transactions = true;
    ensure_collection = λ c store. store;
    supports_native_aggregation = native;
    get = λ c id store. ok (Map.get (c, id) store);
    get_json = λ c id store. ok none;
    list = list;
    count = λ c q store. ok (length (keep (λ d. matches_cursor number_cmp d q) (select c q store)));
    insert = λ c d store. (ok d, Map.insert (c, d.id) d store);
    set = λ c id d merge store. let r = put_doc c id d merge store in (ok r.0, r.1);
    delete = λ c id store. (ok (Map.get (c, id) store), Map.remove (c, id) store);
    delete_force = λ c id store. (ok (Map.get (c, id) store), Map.remove (c, id) store);
    run_transaction = apply_all_tx;
  }
