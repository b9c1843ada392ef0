-- ===== src/TokenCache/Decode.antt =====
-- The expiry of a JWT, read without verification, and the base64url decoder.
use hakobackend.Base.{
  ℕ, ◌+◌, ◌-◌, ◌*◌, ◌/◌, ◌%◌, ◌^◌, ◌<◌, ◌≡◌, inl, inr, false, ◌&&◌, ◌||◌, Option, none, some, List,
  [], ◌∷◌, ◌++◌, arith, leb, nat_eq, if◌then◌else◌, Option-cases, length, drop, length-append,
  and_then, first, nat_Eq, Str, str, str_Eq, pair_Eq,
}
use hakobackend.Text.{has, split}
use hakobackend.Json.{pos_int, Value, number, get_field, as_object}

-- `b64val`
unfoldable pub b64val : ℕ → Option ℕ
b64val c =
    if leb b'A' c && leb c b'Z'
    then some (c - b'A')
    else if leb b'a' c && leb c b'z'
    then some (c - b'a' + 26)
    else if leb b'0' c && leb c b'9'
    then some (c - b'0' + 52)
    else if nat_eq c b'-'
    then some 62
    else if nat_eq c b'_'
    then some 63
    else none

-- one character into the buffer, and a byte out of it once it holds eight bits. The low six bits
-- of the shifted buffer are 0, so `|` is an addition.
unfoldable pub push_bits : ℕ → ℕ → ℕ → List ℕ × (ℕ × ℕ)
push_bits v buf nbits =
    let buf = buf * 64 % 2 ^ 32 + v in
    let nbits = nbits + 6 in
    if leb 8 nbits
    then (buf / 2 ^ (nbits - 8) % 256 ∷ [], (buf % 2 ^ (nbits - 8), nbits - 8))
    else ([], (buf, nbits))

-- the loop: padding stops it
unfoldable pub decode : Str → ℕ → ℕ → Option (List ℕ)
unfolding push_bits b64val
decode [] buf nbits = some []
decode (c ∷ s) buf nbits =
    if nat_eq c b'='
    then some []
    else and_then (b64val c) (λ v.
      let step = push_bits v buf nbits in
      and_then (decode s step.1.0 step.1.1) (λ out. some (step.0 ++ out)))

-- `b64url_decode`
unfoldable pub b64url_decode : Str → Option (List ℕ)
unfolding decode
b64url_decode s = if nat_eq (length s) 0 || nat_eq (length s % 4) 1 then none else decode s 0 0

abbrev pub as_u64 : Value → Option ℕ
as_u64 (number (pos_int n)) = some n
as_u64 _ = none

-- `jwt_exp`
unfoldable pub jwt_exp : (Str → Option Value) → Str → Option ℕ
unfolding b64url_decode split get_field
jwt_exp from_slice token = and_then (first (drop 1 (split b'.' token))) (λ payload.
    and_then (b64url_decode payload) (λ raw.
      and_then (from_slice raw)
        (λ v. and_then (as_object v) (λ fs. and_then (get_field (str "exp") fs) as_u64))))

length-push_bits :
    (v buf nbits : ℕ)
    → nbits < 8
    → (length (push_bits v buf nbits).0 * 8 + (push_bits v buf nbits).1.1 ≡ nbits + 6)
      × ((push_bits v buf nbits).1.1 < 8)
unfolding push_bits
length-push_bits v buf nbits h = ground arith

length-decode :
    (s : Str) (buf nbits : ℕ) (out : List ℕ)
    → nbits < 8
    → has b'=' s ≡ false
    → decode s buf nbits ≡ some out
    → length out ≡ (nbits + 6 * length s) / 8
unfolding has
length-decode [] buf nbits out h free e = unfold decode in ground arith
length-decode (c ∷ s) buf nbits out h free e =
    let plain : nat_eq c b'=' ≡ false = ground arith in
    let rest : has b'=' s ≡ false = ground arith in
    elim (Option-cases (b64val c)) [
      | inl bad ↦ absurd (unfold decode in (let e' = rw (plain, bad) at e in cc))
      | inr (v, good) ↦
          let step = push_bits v buf nbits in
          let small = length-push_bits v buf nbits h in
          elim (Option-cases (decode s step.1.0 step.1.1)) [
            | inl bad ↦ absurd (unfold decode in (let e' = rw (plain, good, bad) at e in cc))
            | inr (out', good') ↦
                let here : some (step.0 ++ out') ≡ some out =
                  unfold decode in (rw (plain, good, good') at e) in
                let tail = length-decode s step.1.0 step.1.1 out' small.1 rest good' in
                let whole : step.0 ++ out' ≡ out = cc in
                rw (← whole, length-append step.0 out') (omega (arith, tail, small.0))
          ]
    ]

-- A text without padding that decodes gives the bytes of its six-bit digits, a last incomplete
-- byte left out.
pub length-b64url_decode :
    (s : Str) (out : List ℕ)
    → has b'=' s ≡ false
    → b64url_decode s ≡ some out
    → length out ≡ 6 * length s / 8
unfolding b64url_decode
length-b64url_decode s out free e =
    omega (arith, length-decode s 0 0 out (omega arith) free (ground arith))
