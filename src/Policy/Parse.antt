-- ===== src/Policy/Parse.antt =====
-- Rule strings: `Rule::parse_claim`, `Rule::parse_fields`, `From<String>` and `Deserialize`.
use hakobackend.Base.{
  ℕ, zero, suc, ◌+◌, ◌-◌, ◌*◌, ◌/◌, ◌%◌, ◌^◌, Bool, true, false, not, ◌&&◌, ◌||◌, Option, none,
  some, List, [], ◌∷◌, ltb, leb, nat_eq, if◌then◌else◌, any, keep, and_then, is_some, is_some_and,
  unwrap_or, or_else, keep_if, Result, ok, err, nat_Eq, Str, str, str_eq, str_Eq, pair_Eq,
}
use hakobackend.Text.{strip_prefix, starts_with, split, split_once, is_empty, split_whitespace}
use hakobackend.Json.{pos_int, neg_int, float, Value, null, bool, number, string}
use hakobackend.Json.Int.{ℤ, pos, negsuc, leb_ℤ}
use hakobackend.Policy.Rule.{
  Rule, public, auth, deny, claim, uid_self, fields, FieldCond, eq_auth, eq_lit, int_range,
}

-- the loop over `parts`: every word is `!name`
unfoldable pub strip_names : List Str → Option (List Str)
strip_names [] = some []
strip_names (w ∷ ws) =
    let rest = strip_names ws in
    and_then (strip_prefix (str "!") w) (λ name. and_then rest (λ names. some (name ∷ names)))

-- the strip tail of a rule: `None` too if a name is empty
unfoldable pub parse_strip : List Str → Option (List Str)
unfolding strip_names any
parse_strip parts = keep_if (λ names. not (any is_empty names)) (strip_names parts)

-- `csv.split(',').filter(|v| !v.is_empty())`
unfoldable pub claim_values : Str → List Str
unfolding keep split
claim_values csv = keep (λ v. not (is_empty v)) (split b',' csv)

pub no_values : List Str → Bool
no_values [] = true
no_values (v ∷ vs) = false

unfoldable pub claim_head : Str → List Str → Option Rule
unfolding claim_values split_once any no_values
claim_head head strip =
    if str_eq head (str "uid=self")
    then some (uid_self strip)
    else and_then (split_once b'=' head) λ x.
      if is_empty x.0 || str_eq x.0 (str "uid")
      then none
      else let values = claim_values x.1 in
        if no_values values || any (λ v. starts_with (str "!") v) values
        then none
        else some (claim x.0 values strip)

-- the first word, and the strips after it
unfoldable pub first_and_strip : List Str → Option (Str × List Str)
unfolding parse_strip
first_and_strip [] = none
first_and_strip (head ∷ parts) =
    if is_empty head then none else and_then (parse_strip parts) (λ strip. some (head, strip))

unfoldable pub head_and_strip : Str → Option (Str × List Str)
unfolding split_whitespace first_and_strip
head_and_strip body = first_and_strip (split_whitespace body)

-- `Rule::parse_claim`
unfoldable pub parse_claim : Str → Option Rule
unfolding head_and_strip claim_head
parse_claim body = and_then (head_and_strip body) (λ x. claim_head x.0 x.1)

-- `str::parse::<i64>`: an optional sign, then digits, within the range
digits : Str → Option ℕ → Option ℕ
digits [] acc = acc
digits (c ∷ s) acc =
    digits s
      (and_then acc (λ n. if leb b'0' c && leb c b'9' then some (n * 10 + (c - b'0')) else none))

some_digits : Str → Option ℕ
some_digits [] = none
some_digits (c ∷ s) = digits (c ∷ s) (some 0)

abbrev negate : ℕ → ℤ
negate zero = pos 0
negate (suc n) = negsuc n

unfoldable pub parse_i64 : Str → Option ℤ
unfolding digits some_digits
parse_i64 [] = none
parse_i64 (c ∷ s) =
    if nat_eq c b'-'
    then and_then (some_digits s) (λ n. if leb n (2 ^ 63) then some (negate n) else none)
    else let n? = if nat_eq c b'+' then some_digits s else some_digits (c ∷ s) in
      and_then n? (λ n. if ltb n (2 ^ 63) then some (pos n) else none)

-- a JSON number from an integer
unfoldable pub int_value : ℤ → Value
int_value (pos n) = number (pos_int n)
int_value (negsuc n) = number (neg_int n)

-- `Number::from_f64` refuses what is not finite
abbrev pub is_finite : ℕ → Bool
is_finite bits = not (nat_eq (bits / 2 ^ 52 % 2048) 2047)

-- `rest.split_once("..")`
unfoldable pub split_dots : Str → Option (Str × Str)
split_dots [] = none
split_dots (c ∷ s) =
    let next = split_dots s in
    elim (strip_prefix (str "..") (c ∷ s)) [
      | some t ↦ some ([], t)
      | none ↦ and_then next (λ x. some (c ∷ x.0, x.1))
    ]

-- `f=int:min..max`
unfoldable pub range_cond : Str → Str → Option FieldCond
unfolding split_dots
range_cond field rest = and_then (split_dots rest) λ x.
    and_then (parse_i64 x.0) λ lo.
      and_then (parse_i64 x.1) λ hi. if leb_ℤ lo hi then some (int_range field lo hi) else none

unfoldable pub fields_of : List FieldCond → List Str → Option Rule
fields_of [] strip = none
fields_of (c ∷ cs) strip = some (fields (c ∷ cs) strip)

-- the messages of `Deserialize`
pub data PolicyError : Type 0 where
  removed malformed_claim malformed_fields : PolicyError

-- `parse_f64` is the standard library's `str::parse::<f64>`, its result as a bit pattern.
module _ (parse_f64 : Str → Option ℕ) where
  literal_word : Str → Value
  literal_word raw =
      if str_eq raw (str "true")
      then bool true
      else if str_eq raw (str "false")
      then bool false
      else if str_eq raw (str "null")
      then null
      else string raw

  -- `parse_lit`
  unfoldable pub parse_lit : Str → Value
  unfolding literal_word int_value parse_i64
  parse_lit raw = elim (parse_i64 raw) [
    | some i ↦ int_value i
    | none ↦ elim (keep_if is_finite (parse_f64 raw)) [
      | some f ↦ number (float f)
      | none ↦ literal_word raw
    ]
  ]

  unfoldable pub parse_cond : Str → Option FieldCond
  unfolding range_cond parse_lit split_once
  parse_cond item = and_then (split_once b'=' item) λ x.
      if is_empty x.0 then none else elim (strip_prefix (str "auth.") x.1) [
        | some attr ↦ if is_empty attr then none else some (eq_auth x.0 attr)
        | none ↦ elim (strip_prefix (str "int:") x.1) [
          | some rest ↦ range_cond x.0 rest
          | none ↦ some (eq_lit x.0 (parse_lit x.1))
        ]
      ]

  -- the loop over the conditions: one that is malformed spoils the rule
  unfoldable pub parse_conds : List Str → Option (List FieldCond)
  unfolding parse_cond
  parse_conds [] = some []
  parse_conds (item ∷ items) =
      let rest = parse_conds items in
      and_then (parse_cond item) (λ c. and_then rest (λ cs. some (c ∷ cs)))

  -- `Rule::parse_fields`
  unfoldable pub parse_fields : Str → Option Rule
  unfolding head_and_strip parse_conds fields_of split
  parse_fields body =
      and_then (head_and_strip body)
        λ x. and_then (parse_conds (split b',' x.0)) (λ conds. fields_of conds x.1)

  -- `impl From<String> for Rule`
  unfoldable pub rule_from : Str → Rule
  unfolding parse_claim parse_fields
  rule_from s =
      if str_eq s (str "public")
      then public
      else if str_eq s (str "auth")
      then auth
      else unwrap_or
          (or_else (and_then (strip_prefix (str "claim:") s) parse_claim)
            (and_then (strip_prefix (str "fields:") s) parse_fields))
          deny

  -- `impl Deserialize for Rule`
  unfoldable pub deserialize : Str → Result PolicyError Rule
  unfolding rule_from
  deserialize s =
      if str_eq s (str "owner") || starts_with (str "role:") s
      then err removed
      else if is_some_and (strip_prefix (str "claim:") s) (λ b. not (is_some (parse_claim b)))
      then err malformed_claim
      else if is_some_and (strip_prefix (str "fields:") s) (λ b. not (is_some (parse_fields b)))
      then err malformed_fields
      else ok (rule_from s)
