-- ===== src/Policy/RuleText.antt =====
-- What the parser of rules promises: nothing malformed is let in, and what is not a rule denies.
use hakobackend.Base.{
  ℕ, ◌≡◌, refl, subst, ◌≢◌, inl, inr, true, false, ◌||◌, Option, none, some, List, [], ◌∷◌, arith,
  if◌then◌else◌, Bool-cases, Option-cases, any, All, and_then, ok, nat_Eq, Str, str, str_eq, str_Eq,
  pair_Eq,
}
use hakobackend.Text.{strip_prefix, starts_with, split, split_once, is_empty, split_whitespace}
use hakobackend.Json.Int.{leb_ℤ}
use hakobackend.Policy.Parse.{
  strip_names, parse_strip, claim_values, no_values, claim_head, first_and_strip, head_and_strip,
  parse_claim, parse_i64, parse_lit, split_dots, range_cond, parse_cond, parse_conds, fields_of,
  parse_fields, rule_from, deserialize,
}
use hakobackend.Policy.Rule.{
  Rule, deny, claim, uid_self, fields, FieldCond, eq_auth, eq_lit, int_range,
}

and_then-some {ℓ} :
    {A B : Type ℓ} (o : Option A) (f : A → Option B) (b : B)
    → and_then o f ≡ some b
    → (a : A) × (o ≡ some a) × (f a ≡ some b)
and_then-some none f b h = absurd (ground arith)
and_then-some (some a) f b h = (a, refl, h)

-- a name in a rule: not empty
abbrev pub IsNamed : Str → Type 0
IsNamed s = is_empty s ≡ false

All-of_none : (names : List Str) → any is_empty names ≡ false → All IsNamed names
unfolding any
All-of_none [] h = tt
All-of_none (n ∷ names) h = (ground arith, All-of_none names (ground arith))

parse_strip-All : (parts names : List Str) → parse_strip parts ≡ some names → All IsNamed names
unfolding parse_strip
parse_strip-All parts names h = elim (Option-cases (strip_names parts)) [
  | inl e ↦ absurd (ground arith)
  | inr (ns, e) ↦ elim (Bool-cases (any is_empty ns)) [
    | inl bad ↦ absurd (ground arith)
    | inr good ↦ All-of_none names (ground arith)
  ]
]

first_and_strip-All :
    (words : List Str) (head : Str) (strip : List Str)
    → first_and_strip words ≡ some (head, strip)
    → All IsNamed strip
unfolding first_and_strip
first_and_strip-All [] head strip h = absurd (ground arith)
first_and_strip-All (w ∷ parts) head strip h = elim (Option-cases (parse_strip parts)) [
  | inl e ↦ absurd (ground arith)
  | inr (s, e) ↦ parse_strip-All parts strip (ground arith)
]

-- What a parsed `claim:` rule has: a field that is not `uid`, and at least one value, none of
-- them empty or a misplaced strip.
pub record IsClaim (field : Str) (values : List Str) : Type 0 where
  pub named : is_empty field ≡ false
  pub not_uid : str_eq field (str "uid") ≡ false
  pub some_value : no_values values ≡ false
  pub no_strip : any (λ v. starts_with (str "!") v) values ≡ false

abbrev pub IsParsed : Rule → Type 0
IsParsed (claim field values strip) = IsClaim field values × All IsNamed strip
IsParsed (uid_self strip) = All IsNamed strip
IsParsed _ = ⊥

claim_head-IsParsed :
    (head : Str) (strip : List Str) (rule : Rule)
    → All IsNamed strip
    → claim_head head strip ≡ some rule
    → IsParsed rule
unfolding claim_head
claim_head-IsParsed head strip rule named h = elim (Bool-cases (str_eq head (str "uid=self"))) [
  | inl e ↦ let same : uid_self strip ≡ rule = ground arith in subst IsParsed same named
  | inr e ↦ elim (Option-cases (split_once b'=' head)) [
    | inl e' ↦ absurd (ground arith)
    | inr ((field, csv), e') ↦ elim (Bool-cases (is_empty field || str_eq field (str "uid"))) [
      | inl bad ↦ absurd (ground arith)
      | inr good ↦
          elim (Bool-cases (
            no_values (claim_values csv)
            || any (λ v. starts_with (str "!") v) (claim_values csv))) [
              | inl bad' ↦ absurd (ground arith)
              | inr good' ↦
                  let same : claim field (claim_values csv) strip ≡ rule = ground arith in
                  subst IsParsed same (
                    record {
                      named = ground arith;
                      not_uid = ground arith;
                      some_value = ground arith;
                      no_strip = ground arith;
                    },
                    named,
                  )
            ]
    ]
  ]
]

-- A body that `parse_claim` accepts gives a claim rule over a named field with proper values, or
-- the self rule; the names that it strips are not empty.
pub parse_claim-IsParsed : (body : Str) (rule : Rule) → parse_claim body ≡ some rule → IsParsed rule
unfolding parse_claim head_and_strip
parse_claim-IsParsed body rule h =
    let ((head, strip), e, h') =
      and_then-some (head_and_strip body) (λ x. claim_head x.0 x.1) rule h in
    claim_head-IsParsed head strip rule (first_and_strip-All (split_whitespace body) head strip e)
      h'

-- A range whose lower end is not above its upper end.
abbrev pub IsCond : FieldCond → Type 0
IsCond (int_range field lo hi) = leb_ℤ lo hi ≡ true
IsCond (eq_auth field attr) = IsNamed attr
IsCond (eq_lit field value) = Unit

abbrev pub IsFields : Rule → Type 0
IsFields (fields conds strip) = All IsCond conds × All IsNamed strip
IsFields _ = ⊥

range_cond-IsCond : (field rest : Str) (c : FieldCond) → range_cond field rest ≡ some c → IsCond c
unfolding range_cond
range_cond-IsCond field rest c h =
    let (x, _, h₁) =
      and_then-some (split_dots rest)
        (λ x. and_then (parse_i64 x.0) λ lo.
          and_then (parse_i64 x.1) λ hi. if leb_ℤ lo hi then some (int_range field lo hi) else none)
        c h in
    let (lo, _, h₂) =
      and_then-some (parse_i64 x.0)
        (λ lo.
          and_then (parse_i64 x.1) λ hi. if leb_ℤ lo hi then some (int_range field lo hi) else none)
        c h₁ in
    let (hi, _, h₃) =
      and_then-some (parse_i64 x.1)
        (λ hi. if leb_ℤ lo hi then some (int_range field lo hi) else none) c h₂ in
    elim (Bool-cases (leb_ℤ lo hi)) [
      | inl e ↦ let same : int_range field lo hi ≡ c = ground arith in subst IsCond same e
      | inr e ↦ absurd (ground arith)
    ]

fields_of-IsFields :
    (cs : List FieldCond) (strip : List Str) (rule : Rule)
    → All IsCond cs
    → All IsNamed strip
    → fields_of cs strip ≡ some rule
    → IsFields rule
unfolding fields_of
fields_of-IsFields [] strip rule a n h = absurd (ground arith)
fields_of-IsFields (c ∷ cs) strip rule a n h =
    let same : fields (c ∷ cs) strip ≡ rule = ground arith in subst IsFields same (a, n)

module _ (parse_f64 : Str → Option ℕ) where
  parse_cond-IsCond : (item : Str) (c : FieldCond) → parse_cond parse_f64 item ≡ some c → IsCond c
  unfolding parse_cond
  parse_cond-IsCond item c h = elim (Option-cases (split_once b'=' item)) [
    | inl e ↦ absurd (ground arith)
    | inr ((field, rhs), e) ↦ elim (Bool-cases (is_empty field)) [
      | inl bad ↦ absurd (ground arith)
      | inr good ↦ elim (Option-cases (strip_prefix (str "auth.") rhs)) [
        | inr (attr, e') ↦ elim (Bool-cases (is_empty attr)) [
          | inl bad' ↦ absurd (ground arith)
          | inr good' ↦ let same : eq_auth field attr ≡ c = ground arith in subst IsCond same good'
        ]
        | inl e' ↦ elim (Option-cases (strip_prefix (str "int:") rhs)) [
          | inr (rest, e'') ↦ range_cond-IsCond field rest c (ground arith)
          | inl e'' ↦
              let same : eq_lit field (parse_lit parse_f64 rhs) ≡ c = ground arith in
              subst IsCond same tt
        ]
      ]
    ]
  ]

  parse_conds-All :
      (items : List Str) (cs : List FieldCond)
      → parse_conds parse_f64 items ≡ some cs
      → All IsCond cs
  unfolding parse_conds
  parse_conds-All [] cs h = let same : [] ≡ cs = ground arith in subst (All IsCond) same tt
  parse_conds-All (item ∷ items) cs h = elim (Option-cases (parse_cond parse_f64 item)) [
    | inl e ↦ absurd (ground arith)
    | inr (c, e) ↦ elim (Option-cases (parse_conds parse_f64 items)) [
      | inl e' ↦ absurd (ground arith)
      | inr (rest, e') ↦
          let same : c ∷ rest ≡ cs = ground arith in
          subst (All IsCond) same (parse_cond-IsCond item c e, parse_conds-All items rest e')
    ]
  ]

  -- A body that `parse_fields` accepts gives a fields rule whose ranges are not empty, whose
  -- caller attributes are named, and whose strips are not empty.
  pub parse_fields-IsFields :
      (body : Str) (rule : Rule) → parse_fields parse_f64 body ≡ some rule → IsFields rule
  unfolding parse_fields head_and_strip
  parse_fields-IsFields body rule h =
      elim (Option-cases (first_and_strip (split_whitespace body))) [
        | inl e ↦ absurd (ground arith)
        | inr ((head, strip), e) ↦ elim (Option-cases (parse_conds parse_f64 (split b',' head))) [
          | inl e' ↦ absurd (ground arith)
          | inr (cs, e') ↦
              fields_of-IsFields cs strip rule (parse_conds-All (split b',' head) cs e')
                (first_and_strip-All (split_whitespace body) head strip e) (ground arith)
        ]
      ]

  claim_ne_deny : (body : Str) → parse_claim body ≢ some deny
  claim_ne_deny body e = parse_claim-IsParsed body deny e

  fields_ne_deny : (body : Str) → parse_fields parse_f64 body ≢ some deny
  fields_ne_deny body e = parse_fields-IsFields body deny e

  accepted-from :
      (s : Str) (rule : Rule) → deserialize parse_f64 s ≡ ok rule → rule ≡ rule_from parse_f64 s
  unfolding deserialize
  accepted-from s rule h = ground arith

  accepted-claim :
      (s body : Str) (rule : Rule)
      → deserialize parse_f64 s ≡ ok rule
      → strip_prefix (str "claim:") s ≡ some body
      → rule ≢ deny
  unfolding deserialize rule_from
  accepted-claim s body rule h e d = ground (arith, claim_ne_deny body)

  accepted-fields :
      (s body : Str) (rule : Rule)
      → deserialize parse_f64 s ≡ ok rule
      → strip_prefix (str "fields:") s ≡ some body
      → rule ≢ deny
  unfolding deserialize rule_from
  accepted-fields s body rule h e d = elim (Option-cases (strip_prefix (str "claim:") s)) [
    | inl e' ↦ ground (arith, fields_ne_deny body)
    | inr (body', e') ↦ accepted-claim s body' rule h e' d
  ]

  -- A rule text that the policy file accepts is read as `rule_from` reads it, and it denies only
  -- if it is no claim rule and no fields rule: a malformed one of those is an error.
  pub deserialize_sound :
      (s : Str) (rule : Rule)
      → deserialize parse_f64 s ≡ ok rule
      → (rule ≡ rule_from parse_f64 s)
        × (rule ≡ deny
            → (strip_prefix (str "claim:") s ≡ none) × (strip_prefix (str "fields:") s ≡ none))
  deserialize_sound s rule h = (
    accepted-from s rule h,
    λ d. (
      elim (Option-cases (strip_prefix (str "claim:") s)) [
        | inl e ↦ e
        | inr (body, e) ↦ absurd (accepted-claim s body rule h e d)
      ],
      elim (Option-cases (strip_prefix (str "fields:") s)) [
        | inl e ↦ e
        | inr (body, e) ↦ absurd (accepted-fields s body rule h e d)
      ],
    ),
  )
