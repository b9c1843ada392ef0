-- ===== src/Query/Keys.antt =====
-- Keys that order documents: the id, and a field that holds a text in each of them.
use hakobackend.Base.{◌≡◌, refl, sym, ◌∙◌, false, Option, some, arith, Str, str, str_eq}
use hakobackend.Text.Order.{str_lt, str_lt_asymm, not_str_lt_trans}
use hakobackend.Json.{Number, string}
use hakobackend.Policy.Rule.{Doc}
use hakobackend.Query.{
  Order, less, same, greater, reversed, is_less, is_greater, cmp_str, Direction, asc, desc, nested,
  cmp_json, cmp_field,
}
use hakobackend.Query.Sorting.{IsKey}

-- texts in their order
cmp_str-less : (a b : Str) → is_less (cmp_str a b) ≡ str_lt a b
cmp_str-less a b = ground arith

cmp_str-greater : (a b : Str) → is_greater (cmp_str a b) ≡ str_lt b a
cmp_str-greater a b = ground (arith, str_lt_asymm a b, str_lt_asymm b a)

reversed-less : (o : Order) → is_less (reversed o) ≡ is_greater o
reversed-less less = refl
reversed-less same = refl
reversed-less greater = refl

reversed-greater : (o : Order) → is_greater (reversed o) ≡ is_less o
reversed-greater less = refl
reversed-greater same = refl
reversed-greater greater = refl

-- in a direction
abbrev directed : Direction → Order → Order
directed asc o = o
directed desc o = reversed o

abbrev Above : Direction → Str → Str → Type 0
Above direction x y = is_greater (directed direction (cmp_str x y)) ≡ false

swap_texts :
    (direction : Direction) (x y : Str)
    → is_less (directed direction (cmp_str x y)) ≡ false
    → Above direction y x
swap_texts asc x y h = cmp_str-greater y x ∙ sym (cmp_str-less x y) ∙ h
swap_texts desc x y h =
    reversed-greater (cmp_str y x)
    ∙ cmp_str-less y x
    ∙ sym (cmp_str-greater x y)
    ∙ sym (reversed-less (cmp_str x y))
    ∙ h

trans_texts :
    (direction : Direction) (x y z : Str)
    → Above direction x y
    → Above direction y z
    → Above direction x z
trans_texts asc x y z h k =
    cmp_str-greater x z
    ∙ not_str_lt_trans z y x (sym (cmp_str-greater y z) ∙ k) (sym (cmp_str-greater x y) ∙ h)
trans_texts desc x y z h k =
    reversed-greater (cmp_str x z)
    ∙ cmp_str-less x z
    ∙ not_str_lt_trans x y z (sym (cmp_str-less x y) ∙ sym (reversed-greater (cmp_str x y)) ∙ h)
        (sym (cmp_str-less y z) ∙ sym (reversed-greater (cmp_str y z)) ∙ k)

module _ (number_cmp : Number → Number → Option Order) where
  -- The document id orders documents of any kind.
  pub id-IsKey :
      (P : Doc → Type 0) (direction : Direction)
      → IsKey number_cmp P (record { field = str "id"; direction = direction })
  unfolding cmp_field str_eq
  id-IsKey P asc = record {
    swap = λ a b pa pb h. swap_texts asc a.id b.id h;
    trans = λ a b c pa pb pc h k. trans_texts asc a.id b.id c.id h k;
  }
  id-IsKey P desc = record {
    swap = λ a b pa pb h. swap_texts desc a.id b.id h;
    trans = λ a b c pa pb pc h k. trans_texts desc a.id b.id c.id h k;
  }

  -- a document that holds a text there
  abbrev pub HasText : Str → Doc → Type 0
  HasText field d = (t : Str) × (nested d.contents field ≡ some (string t))

  cmp_field-texts :
      (field : Str) (a b : Doc)
      → str_eq field (str "id") ≡ false
      → (ta : HasText field a) (tb : HasText field b)
      → cmp_field number_cmp field a b ≡ cmp_str ta.0 tb.0
  unfolding cmp_field cmp_json
  cmp_field-texts field a b plain (s, ha) (t, hb) = rw (plain, ha, hb, cmp_field) refl

  -- A field that holds a text in each document orders them.
  pub text-IsKey :
      (field : Str) (direction : Direction)
      → str_eq field (str "id") ≡ false
      → IsKey number_cmp (HasText field) (record { field = field; direction = direction })
  text-IsKey field asc plain = record {
    swap = λ a b ta tb h.
        let h' = rw (cmp_field-texts field a b plain ta tb) at h in
        rw (cmp_field-texts field b a plain tb ta) (swap_texts asc ta.0 tb.0 h');
    trans = λ a b c ta tb tc h k.
        let h' = rw (cmp_field-texts field a b plain ta tb) at h in
        let k' = rw (cmp_field-texts field b c plain tb tc) at k in
        rw (cmp_field-texts field a c plain ta tc) (trans_texts asc ta.0 tb.0 tc.0 h' k');
  }
  text-IsKey field desc plain = record {
    swap = λ a b ta tb h.
        let h' = rw (cmp_field-texts field a b plain ta tb) at h in
        rw (cmp_field-texts field b a plain tb ta) (swap_texts desc ta.0 tb.0 h');
    trans = λ a b c ta tb tc h k.
        let h' = rw (cmp_field-texts field a b plain ta tb) at h in
        let k' = rw (cmp_field-texts field b c plain tb tc) at k in
        rw (cmp_field-texts field a c plain ta tc) (trans_texts desc ta.0 tb.0 tc.0 h' k');
  }
