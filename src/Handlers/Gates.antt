-- ===== src/Handlers/Gates.antt =====
-- A document is written or deleted where the policy lets the caller, and nowhere else.
use hakobackend.Base.{
  ◌≡◌, refl, ◌∙◌, inl, inr, Bool, true, false, not, ◌&&◌, Option, some, arith, Bool-cases,
  Option-cases, is_some, ok, err, nat_Eq, Str, str, str_Eq, pair_Eq,
}
use hakobackend.Json.{Value}
use hakobackend.Policy.Rule.{Doc, AuthContext, Method}
use hakobackend.Policy.Decide.{allow}
use hakobackend.Paths.{document, parse_collection_path}
use hakobackend.Database.{Database}
use hakobackend.Handlers.{
  Response, error, forbidden, App, Clock, State, dotted, denied_internal, valid_names, db_for,
  target,
}
use hakobackend.Handlers.Writes.{read_before, write_at, write_doc}

other_fails : (a b : Bool) → a ≡ true → (a && b) ≡ false → b ≡ false
other_fails a b e h = ground arith

module _ {W : Type 0} (app : App W) where
  -- the names alone
  abbrev pub addressable : Str → Str → Bool
  addressable c id = not (denied_internal c) && not (is_some (valid_names c (some id)))

  -- the collection is not reserved, the names are well-formed, and the policy lets the caller
  abbrev pub permits : Option AuthContext → Method → Str → Str → Str → Option Doc → Bool
  permits caller method dbname c id existing =
      addressable c id && allow app.policy caller (dotted dbname c) method existing

  target-refused :
      (dbname c id : Str)
      → addressable c id ≡ false
      → (r : Response) × (target app dbname c (some id) ≡ err r)
  unfolding target
  target-refused dbname c id h = elim (Bool-cases (denied_internal c)) [
    | inl e ↦ (error 403 (str "reserved __ prefix"), rw (e, target) refl)
    | inr e ↦ elim (Option-cases (valid_names c (some id))) [
      | inr (r, v) ↦ (r, rw (e, v, target) refl)
      | inl v ↦ absurd (let h' = rw (e, v) at h in ground arith)
    ]
  ]

  target-db_for :
      (dbname c id : Str)
      → addressable c id ≡ true
      → target app dbname c (some id) ≡ db_for app dbname
  unfolding target
  target-db_for dbname c id h = elim (Bool-cases (denied_internal c)) [
    | inl e ↦ absurd (let h' = rw e at h in ground arith)
    | inr e ↦ elim (Option-cases (valid_names c (some id))) [
      | inr (r, v) ↦ absurd (let h' = rw (e, v) at h in ground arith)
      | inl v ↦ rw (e, v, target) refl
    ]
  ]

  write_at-refused :
      (db : Database W) (caller : Option AuthContext) (clock : Clock) (pol c id : Str)
      (body : Value) (merge skip_hint : Bool) (s : State W)
      → allow app.policy caller pol Method.update
          (read_before app db pol c id merge skip_hint s.world)
        ≡ false
      → write_at app db caller clock pol c id body merge skip_hint s ≡ (forbidden, s)
  unfolding write_at
  write_at-refused db caller clock pol c id body merge skip_hint s h = rw (h, write_at) refl

  -- A PUT or a PATCH of a document that the names or the policy do not permit, for the document as
  -- it is read, changes no database, leaves nothing to be written later, and tells nobody.
  pub write_doc-refused :
      (db : Database W) (caller : Option AuthContext) (clock : Clock) (path : Str) (body : Value)
      (merge skip_hint : Bool) (dbname c id : Str) (s : State W)
      → parse_collection_path path ≡ document c id
      → db_for app dbname ≡ ok db
      → permits caller Method.update dbname c id
          (read_before app db (dotted dbname c) c id merge skip_hint s.world)
        ≡ false
      → (write_doc app caller clock path body merge skip_hint dbname s).1 ≡ s
  unfolding write_doc
  write_doc-refused db caller clock path body merge skip_hint dbname c id s parsed handle h =
      elim (Bool-cases (addressable c id)) [
        | inr e ↦ let (r, t) = target-refused dbname c id e in rw (parsed, t, write_doc) refl
        | inl e ↦
            let t = target-db_for dbname c id e ∙ handle in
            rw
              (
                parsed,
                t,
                write_at-refused db caller clock (dotted dbname c) c id body merge skip_hint s (
                    other_fails (addressable c id)
                      (allow app.policy caller (dotted dbname c) Method.update
                        (read_before app db (dotted dbname c) c id merge skip_hint s.world))
                      e h),
                write_doc,
              )
              refl
      ]
