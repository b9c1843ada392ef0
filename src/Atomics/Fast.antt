-- ===== src/Atomics/Fast.antt =====
-- The fast path of `resolve_for_create`: without a sentinel the slow path changes nothing.
use hakobackend.Base.{
  ◌≡◌, refl, ap, Bool, false, ◌||◌, none, some, [], ◌∷◌, arith, any, nat_Eq, Str, str_Eq, pair_Eq,
}
use hakobackend.Base.Map.{Map}
use hakobackend.Json.{
  Value, null, bool, number, string, array, object, Items, no_items, item, Fields, no_fields, field,
}
use hakobackend.Atomics.Resolve.{
  op_in, op_of, is_sentinel, has_sentinel, any_item, any_field, resolve_object, resolve_deep,
  resolve_items, resolve_fields, resolve_entry, resolve_all, any_sentinel, resolve_for_create,
}

neither : (a b : Bool) → (a || b) ≡ false → (a ≡ false) × (b ≡ false)
neither a b h = ground arith

resolve_object_plain :
    (ts : Str) (fs resolved : Fields)
    → op_in fs ≡ none
    → resolve_object ts fs resolved ≡ some (object resolved)
unfolding resolve_object
resolve_object_plain ts fs resolved h = ground arith

mutual
  unfolding has_sentinel resolve_deep

  plain-deep : (ts : Str) (v : Value) → has_sentinel v ≡ false → resolve_deep ts v ≡ some v
  plain-deep ts null h = refl
  plain-deep ts (bool b) h = refl
  plain-deep ts (number n) h = refl
  plain-deep ts (string s) h = refl
  plain-deep ts (array vs) h = ap (λ (x : Items). some (array x)) (plain-items ts vs h)
  plain-deep ts (object fs) h =
      ground (arith, plain-fields ts fs, resolve_object_plain ts fs (resolve_fields ts fs))

  plain-items : (ts : Str) (vs : Items) → any_item vs ≡ false → resolve_items ts vs ≡ vs
  plain-items ts no_items h = refl
  plain-items ts (item v vs) h =
      let (here, later) = neither (has_sentinel v) (any_item vs) h in
      rw (plain-deep ts v here, plain-items ts vs later) refl

  plain-fields : (ts : Str) (fs : Fields) → any_field fs ≡ false → resolve_fields ts fs ≡ fs
  plain-fields ts no_fields h = refl
  plain-fields ts (field k v fs) h =
      let (here, later) = neither (has_sentinel v) (any_field fs) h in
      rw (plain-deep ts v here, plain-fields ts fs later) refl

-- A value without a sentinel at any depth resolves to itself.
pub resolve_deep_plain :
    (ts : Str) (v : Value) → has_sentinel v ≡ false → resolve_deep ts v ≡ some v
resolve_deep_plain ts v h = plain-deep ts v h

is_sentinel_plain : (v : Value) → has_sentinel v ≡ false → is_sentinel v ≡ false
unfolding has_sentinel is_sentinel op_of
is_sentinel_plain (object fs) h = ground arith
is_sentinel_plain v h = refl

resolve_entry_plain : (ts : Str) (v : Value) → has_sentinel v ≡ false → resolve_entry ts v ≡ some v
unfolding resolve_entry
resolve_entry_plain ts v h = rw (is_sentinel_plain v h) (plain-deep ts v h)

resolve_all_plain :
    (ts : Str) (contents : Map Str Value)
    → any_sentinel contents ≡ false
    → resolve_all ts contents ≡ contents
unfolding resolve_all any_sentinel any
resolve_all_plain ts [] h = refl
resolve_all_plain ts ((k, v) ∷ contents) h =
    ground (arith, resolve_entry_plain ts v, resolve_all_plain ts contents)

-- The fast path of `resolve_for_create` gives what resolving every entry gives.
pub resolve_for_create-fast :
    (ts : Str) (contents : Map Str Value) → resolve_for_create ts contents ≡ resolve_all ts contents
unfolding resolve_for_create
resolve_for_create-fast ts contents = ground (arith, resolve_all_plain ts contents)
