-- ===== src/Handlers/Atomic.antt =====
-- A batch or a transaction is applied as a whole, behind the gate of each of its operations.
use hakobackend.Base.{
  ◌++◌, map, ◌&&◌, str, if◌then◌else◌, ◌≡◌, refl, sym, ap, ◌∙◌, ◌⊎◌, inl, inr, Bool, true, false,
  Option, List, [], ◌∷◌, arith, Bool-cases, all, ok, err, is_ok, Result-cases, nat_Eq, Str, str_Eq,
  pair_Eq,
}
use hakobackend.Base.Map
use hakobackend.Base.Map.{
  Map, get-insert, get-remove, Unique, get-retain, insert-Unique, remove-Unique, retain-Unique,
}
use hakobackend.Json.{Number}
use hakobackend.Policy.Rule.{AuthContext}
use hakobackend.Policy.Decide.{allow_fields}
use hakobackend.Query.{Order}
use hakobackend.Database.{TxOp, Database}
use hakobackend.Handlers.{Response, error, App, Clock, State}
use hakobackend.Handlers.Batch.{
  denial, Gated, is_dataless, tx_data, BatchOp, checked_id, gated_of, is_allowed, gate_all, tx_ops,
  run_ops, changes,
}
use hakobackend.Database.Memory.{Store, apply_tx, apply_all_tx, memory}
use hakobackend.Handlers.Plan.{all-both, all-map, map-map, map-same}
use hakobackend.Handlers.Gate.{
  gated, passes, planned, checked_id-cases, gated_pass, data_pass, tx_of, passes-gated,
  planned-gated,
}

apply_all_tx-err :
    (ts : List TxOp) (store : Store)
    → is_ok (apply_all_tx ts store).0 ≡ false
    → (apply_all_tx ts store).1 ≡ store
unfolding apply_all_tx
apply_all_tx-err [] store h = refl
apply_all_tx-err (t ∷ ts) store h = elim (Result-cases (apply_tx t store).0) [
  | inr (e, f) ↦ rw (f, apply_all_tx) refl
  | inl (out, f) ↦ elim (Result-cases (apply_all_tx ts (apply_tx t store).1).0) [
    | inr (e, g) ↦ rw (f, g, apply_all_tx) refl
    | inl (outs, g) ↦ absurd (let h' = rw (f, g, apply_all_tx) at h in ground arith)
  ]
]

module _ (number_cmp : Number → Number → Option Order) (native : Bool) (app : App Store)
    (caller : Option AuthContext) (is_tx : Bool) (dbname : Str) where
  abbrev db : Database Store
  db = memory number_cmp native

  gate_all-store :
      (ops : List BatchOp) (store : Store)
      → (gate_all app db caller is_tx dbname ops store).1 ≡ store
  unfolding gate_all
  gate_all-store [] store = refl
  gate_all-store (op ∷ ops) store = elim (Result-cases (checked_id app db caller is_tx dbname op)) [
    | inr (r, e) ↦ rw (e, gate_all) refl
    | inl (id, e) ↦
        elim (Bool-cases (
          is_allowed app db caller is_tx dbname
            (gated_of app db caller is_tx dbname op id (Map.get (op.collection, id) store)))) [
              | inr a ↦ rw (e, a, gate_all) refl
              | inl a ↦ elim (Result-cases (gate_all app db caller is_tx dbname ops store).0) [
                | inl (gs, g) ↦ rw (e, a, g, gate_all) (gate_all-store ops store)
                | inr (r, g) ↦ rw (e, a, g, gate_all) (gate_all-store ops store)
              ]
            ]
  ]

  -- what the loop hands on
  gate_all-cases :
      (ops : List BatchOp) (store : Store)
      → ((all (gated_pass number_cmp native app caller is_tx dbname store) ops ≡ true)
          × ((gate_all app db caller is_tx dbname ops store).0
              ≡ ok (map (gated number_cmp native app caller is_tx dbname store) ops)))
        ⊎ ((all (gated_pass number_cmp native app caller is_tx dbname store) ops ≡ false)
            × (r : Response) × ((gate_all app db caller is_tx dbname ops store).0 ≡ err r))
  unfolding gate_all gated_pass all
  gate_all-cases [] store = inl (refl, refl)
  gate_all-cases (op ∷ ops) store =
      elim (checked_id-cases number_cmp native app caller is_tx dbname op) [
        | inr (r, e, no_) ↦ inr (rw (e, gated_pass) refl, r, rw (e, gate_all) refl)
        | inl (id, named, e, yes_) ↦
            elim (Bool-cases (
              is_allowed app db caller is_tx dbname
                (gated_of app db caller is_tx dbname op id (Map.get (op.collection, id) store)))) [
                  | inr a ↦ inr (
                    rw (e, a, gated_pass) refl,
                    error 403 (
                        denial (
                          gated_of app db caller is_tx dbname op id
                            (Map.get (op.collection, id) store))),
                    rw (e, a, gate_all) refl,
                  )
                  | inl a ↦ elim (gate_all-cases ops store) [
                    | inl (p, g) ↦
                        inl (rw (e, a, p, gated_pass) refl, rw (e, a, g, gate_all, named) refl)
                    | inr (p, r, g) ↦
                        inr (rw (e, a, p, gated_pass) refl, r, rw (e, a, g, gate_all) refl)
                  ]
                ]
      ]

  tx_ops-cases :
      (clock : Clock) (gs : List Gated)
      → ((all (data_pass number_cmp native app caller is_tx dbname clock) gs ≡ true)
          × (tx_ops app db caller is_tx dbname clock gs
              ≡ ok (map (tx_of number_cmp native app caller is_tx dbname clock) gs)))
        ⊎ ((all (data_pass number_cmp native app caller is_tx dbname clock) gs ≡ false)
            × (r : Response) × (tx_ops app db caller is_tx dbname clock gs ≡ err r))
  unfolding tx_ops all
  tx_ops-cases clock [] = inl (refl, refl)
  tx_ops-cases clock (g ∷ gs) = elim (tx_ops-cases clock gs) [
    | inl (p, t) ↦ elim (Bool-cases (is_dataless g.kind)) [
      | inl d ↦ inl (rw (d, p) refl, rw (d, t, tx_ops) refl)
      | inr d ↦
          elim (Bool-cases (
            allow_fields app.policy caller g.pol g.method
              (tx_data app db caller is_tx dbname clock g))) [
                | inl f ↦ inl (rw (f, d, p) refl, rw (f, d, t, tx_ops) refl)
                | inr f ↦ inr (
                  rw (f, d) refl,
                  error 403 (str "Permission denied: fields on " ++ g.pol ++ str "/" ++ g.id),
                  rw (f, d, tx_ops) refl,
                )
              ]
    ]
    | inr (p, r, t) ↦ elim (Bool-cases (is_dataless g.kind)) [
      | inl d ↦ inr (rw (d, p) refl, r, rw (d, t, tx_ops) refl)
      | inr d ↦
          elim (Bool-cases (
            allow_fields app.policy caller g.pol g.method
              (tx_data app db caller is_tx dbname clock g))) [
                | inl f ↦ inr (rw (f, d, p) refl, r, rw (f, d, t, tx_ops) refl)
                | inr f ↦ inr (
                  rw (f, d) refl,
                  error 403 (str "Permission denied: fields on " ++ g.pol ++ str "/" ++ g.id),
                  rw (f, d, tx_ops) refl,
                )
              ]
    ]
  ]

  -- A batch or a transaction succeeds just if the names and the policy, for the documents as they
  -- were before it, let each of its operations through, and the database takes them as a whole; it
  -- then stores what they make one after the other, and otherwise changes no document and tells
  -- nobody.
  pub run_ops-atomic :
      (clock : Clock) (ops : List BatchOp) (s : State Store)
      → let r = run_ops app db caller is_tx dbname clock ops s in
        let tx =
          apply_all_tx
            (map (planned number_cmp native app caller is_tx dbname clock s.world) ops)
            s.world in
        let good =
          all (passes number_cmp native app caller is_tx dbname clock s.world) ops && is_ok tx.0 in
        (is_ok r.0 ≡ good)
        × (r.1 ≡ (if good then record s { world = tx.1; emitted = r.1.emitted } else s))
  unfolding run_ops
  run_ops-atomic clock ops s =
      let kept = gate_all-store ops s.world in
      let same = ap (λ w. record s { world = w }) kept in
      let both = sym (
        all-both (gated_pass number_cmp native app caller is_tx dbname s.world)
          (λ op.
            data_pass number_cmp native app caller is_tx dbname clock
              (gated number_cmp native app caller is_tx dbname s.world op))
          (passes number_cmp native app caller is_tx dbname clock s.world) ops
          (passes-gated number_cmp native app caller is_tx dbname clock s.world)) in
      let fields =
        all-map (data_pass number_cmp native app caller is_tx dbname clock)
          (gated number_cmp native app caller is_tx dbname s.world) ops in
      elim (gate_all-cases ops s.world) [
        | inr (p, r, g) ↦
            let bad : all (passes number_cmp native app caller is_tx dbname clock s.world) ops
                ≡ false =
              both ∙ rw p refl in
            rw (g, bad, run_ops) (refl, same)
        | inl (p, g) ↦
            elim (tx_ops-cases clock
              (map (gated number_cmp native app caller is_tx dbname s.world) ops)) [
                | inr (q, r, t) ↦
                    let bad : all (passes number_cmp native app caller is_tx dbname clock s.world)
                          ops
                        ≡ false =
                      both ∙ rw (p, sym fields ∙ q) refl in
                    rw (g, t, bad, run_ops) (refl, same)
                | inl (q, t) ↦
                    let fine : all (passes number_cmp native app caller is_tx dbname clock s.world)
                          ops
                        ≡ true =
                      both ∙ rw (p, sym fields ∙ q) refl in
                    let plan =
                      t
                      ∙ ap ok (
                          map-map (tx_of number_cmp native app caller is_tx dbname clock)
                            (gated number_cmp native app caller is_tx dbname s.world) ops
                          ∙ map-same
                              (λ op.
                                tx_of number_cmp native app caller is_tx dbname clock
                                  (gated number_cmp native app caller is_tx dbname s.world op))
                              (planned number_cmp native app caller is_tx dbname clock s.world) ops
                              (planned-gated number_cmp native app caller is_tx dbname clock
                                s.world)) in
                    let taken =
                      ap
                        (apply_all_tx (
                          map (planned number_cmp native app caller is_tx dbname clock s.world)
                            ops))
                        kept in
                    elim (Result-cases
                      (apply_all_tx
                        (map (planned number_cmp native app caller is_tx dbname clock s.world) ops)
                        s.world).0) [
                          | inl (outs, a) ↦
                              let a' = ap (λ r. r.0) taken ∙ a in
                              rw (g, plan, a', a, fine, run_ops)
                                (
                                  refl,
                                  ap
                                      (λ w. record s {
                                        world = w;
                                        emitted =
                                            s.emitted
                                            ++ changes app db caller is_tx dbname
                                                (map
                                                  (gated number_cmp native app caller is_tx dbname
                                                    s.world)
                                                  ops)
                                                (map
                                                  (planned number_cmp native app caller is_tx dbname
                                                    clock s.world)
                                                  ops);
                                      })
                                      (ap (λ r. r.1) taken),
                                )
                          | inr (e, a) ↦
                              let a' = ap (λ r. r.0) taken ∙ a in
                              let undone =
                                apply_all_tx-err
                                  (map
                                    (planned number_cmp native app caller is_tx dbname clock
                                      s.world)
                                    ops)
                                  s.world (rw a refl) in
                              rw (g, plan, a', a, fine, run_ops)
                                (
                                  refl,
                                  ap (λ w. record s { world = w }) (ap (λ r. r.1) taken ∙ undone),
                                )
                        ]
              ]
      ]
