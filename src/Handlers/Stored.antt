-- ===== src/Handlers/Stored.antt =====
-- What a write of a document leaves in a database in memory.
use hakobackend.Base.{
  ◌≡◌, refl, sym, ap, ◌∙◌, inl, inr, Bool, true, false, not, ◌&&◌, Option, some, if◌then◌else◌,
  Bool-cases, any, is_some, nat_Eq, Str, str_eq, str_Eq, pair_eq, pair_Eq,
}
use hakobackend.Base.Map
use hakobackend.Base.Map.{
  Map, get-insert, get-remove, Unique, get-retain, insert-Unique, remove-Unique, retain-Unique,
}
use hakobackend.Json.{Number, Value}
use hakobackend.Policy.Rule.{Doc, AuthContext, Method, PolicyFile}
use hakobackend.Policy.Decide.{allow, allow_fields, strip_fields}
use hakobackend.Policy.Access.{strip_write, get-strip_write}
use hakobackend.Query.{Order}
use hakobackend.Database.{Database}
use hakobackend.Handlers.{ok_true, App, Clock, State, incoming_doc}
use hakobackend.Handlers.Writes.{read_before, may_wait, written, store_doc, write_at}
use hakobackend.Database.Memory.{Store, memory}

stripped-gone :
    (file : PolicyFile) (pol : Str) (method : Method) (contents : Map Str Value) (f : Str)
    → (any (λ g. str_eq g f) (strip_fields file pol method)
        && Map.contains f (strip_write file pol method contents))
      ≡ false
stripped-gone file pol method contents f =
    elim (Bool-cases (any (λ g. str_eq g f) (strip_fields file pol method))) [
      | inl e ↦ rw (get-strip_write file pol method contents f, e) refl
      | inr e ↦ rw e refl
    ]

module _ (number_cmp : Number → Number → Option Order) (native : Bool) (app : App Store) where
  abbrev db : Database Store
  db = memory number_cmp native

  -- the steps of `write_at` that a success excludes
  write_at-success :
      (caller : Option AuthContext) (clock : Clock) (pol c id : Str) (body : Value)
      (merge skip_hint : Bool) (s : State Store)
      → (merge && may_wait app pol body) ≡ false
      → (write_at app db caller clock pol c id body merge skip_hint s).0 ≡ ok_true
      → write_at app db caller clock pol c id body merge skip_hint s
        ≡ store_doc app db caller clock pol c id body merge
            (read_before app db pol c id merge skip_hint s.world)
            s
  unfolding write_at
  write_at-success caller clock pol c id body merge skip_hint s direct h =
      let existing = read_before app db pol c id merge skip_hint s.world in
      elim (Bool-cases (allow app.policy caller pol Method.update existing)) [
        | inr a ↦ absurd (let h' = rw (a, write_at) at h in cc)
        | inl a ↦ elim (Bool-cases (merge && not (is_some existing))) [
          | inl m ↦ absurd (let h' = rw (a, m, write_at) at h in cc)
          | inr m ↦ rw (a, m, direct, write_at) refl
        ]
      ]

  get-store_doc :
      (caller : Option AuthContext) (clock : Clock) (pol c id : Str) (body : Value) (merge : Bool)
      (existing : Option Doc) (s : State Store) (key : Str × Str)
      → (store_doc app db caller clock pol c id body merge existing s).0 ≡ ok_true
      → let contents = written app clock pol merge existing (incoming_doc id body).contents in
        (Map.get key (store_doc app db caller clock pol c id body merge existing s).1.world ≡ (
          if pair_eq (c, id) key
          then some (record { id = id; contents = contents })
          else Map.get key s.world))
        × (allow_fields app.policy caller pol Method.update contents ≡ true)
  unfolding store_doc
  get-store_doc caller clock pol c id body merge existing s key h =
      let contents = written app clock pol merge existing (incoming_doc id body).contents in
      elim (Bool-cases (allow_fields app.policy caller pol Method.update contents)) [
        | inr a ↦ absurd (let h' = rw (a, store_doc) at h in cc)
        | inl a ↦ (
          rw (a, store_doc)
              (get-insert (c, id) key (record { id = id; contents = contents }) s.world),
          a,
        )
      ]

  strips-written :
      (clock : Clock) (pol : Str) (merge : Bool) (existing : Option Doc) (body : Map Str Value)
      (f : Str)
      → (any (λ g. str_eq g f) (strip_fields app.policy pol Method.update)
          && Map.contains f (written app clock pol merge existing body))
        ≡ false
  unfolding written
  strips-written clock pol merge existing body f = stripped-gone app.policy pol Method.update _ f

  -- A PUT, or a PATCH that does not wait, that is answered by success stores one document, whose
  -- data pass the policy's conditions on fields and hold no field that the policy strips; any other
  -- document of the database is as it was.
  pub get-write_at :
      (caller : Option AuthContext) (clock : Clock) (pol c id : Str) (body : Value)
      (merge skip_hint : Bool) (s : State Store) (key : Str × Str) (f : Str)
      → (merge && may_wait app pol body) ≡ false
      → (write_at app db caller clock pol c id body merge skip_hint s).0 ≡ ok_true
      → let contents =
          written app clock pol merge
            (read_before app db pol c id merge skip_hint s.world)
            (incoming_doc id body).contents in
        let after = (write_at app db caller clock pol c id body merge skip_hint s).1 in
        (Map.get key after.world ≡ (
          if pair_eq (c, id) key
          then some (record { id = id; contents = contents })
          else Map.get key s.world))
        × (allow_fields app.policy caller pol Method.update contents ≡ true)
        × ((any (λ g. str_eq g f) (strip_fields app.policy pol Method.update)
              && Map.contains f contents)
            ≡ false)
  get-write_at caller clock pol c id body merge skip_hint s key f direct h =
      let existing = read_before app db pol c id merge skip_hint s.world in
      let stored = write_at-success caller clock pol c id body merge skip_hint s direct h in
      let r =
        get-store_doc caller clock pol c id body merge existing s key
          (sym (ap (λ x. x.0) stored) ∙ h) in
      (
        ap (λ x. Map.get key x.1.world) stored ∙ r.0,
        r.1,
        strips-written clock pol merge existing (incoming_doc id body).contents f,
      )
