-- ===== src/Coalesce/Reads.antt =====
-- What a GET sees of the coalescer.
use hakobackend.Base.{
  ℕ, ◌≡◌, refl, ◌∙◌, inl, inr, Option, [], if◌then◌else◌, Bool-cases, Option-cases, unwrap_or,
  or_else, ◌==◌, nat_Eq, Str, str_Eq, pair_Eq,
}
use hakobackend.Base.Map
use hakobackend.Base.Map.{
  Map, get-insert, get-remove, Unique, get-retain, insert-Unique, remove-Unique, retain-Unique,
}
use hakobackend.Json.{Value}
use hakobackend.Coalesce.{Body, Key, Coalescer, merge, overlay}
use hakobackend.Coalesce.Extend.{get-extend, Every, get-Every}
use hakobackend.Coalesce.Memory.{pending_field, IsBody, over, pending_field-merge, merge-IsBody}
use hakobackend.Coalesce.Exact.{or_else_assoc}

-- what the GET handler has after the overlay
abbrev pub seen : Key → Option Body → Coalescer → Str → Option Value
seen key stored pending f = Map.get f (unwrap_or (overlay key stored pending) (unwrap_or stored []))

get-overlay :
    (key : Key) (stored : Option Body) (pending : Coalescer) (f : Str)
    → Every IsBody pending
    → seen key stored pending f
      ≡ or_else (pending_field (Map.get key pending) f) (Map.get f (unwrap_or stored []))
unfolding overlay
get-overlay key stored pending f b = elim (Option-cases (Map.get key pending)) [
  | inl e ↦ rw (e, overlay) refl
  | inr (p, e) ↦
      rw
        (e, overlay, get-extend f (unwrap_or stored []) p.body (get-Every IsBody key pending p b e))
        refl
]

-- A GET behind a PATCH that was merged sees its fields, and every other field as it was.
pub seen-merge :
    (key other : Key) (body : Body) (now : ℕ) (stored : Option Body) (pending : Coalescer) (f : Str)
    → Unique body
    → Every IsBody pending
    → seen other stored (merge key body now pending) f ≡ (
        if key == other
        then over body (seen other stored pending f) f
        else seen other stored pending f)
seen-merge key other body now stored pending f u b =
    get-overlay other stored (merge key body now pending) f (merge-IsBody key body now pending b)
    ∙ rw (pending_field-merge key other body now pending f u, get-overlay other stored pending f b)
        (elim (Bool-cases (key == other)) [
          | inl same ↦ rw same (or_else_assoc (Map.get f body) _ _)
          | inr differ ↦ rw differ refl
        ])
