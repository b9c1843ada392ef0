-- ===== src/Alias/Encoding.antt =====
-- What a capture can hold once it is encoded.
use hakobackend.Base.{
  ℕ, ◌/◌, ◌%◌, ◌<◌, ◌≡◌, refl, Bool, true, ◌||◌, [], ◌∷◌, arith, ltb, nat_eq, all, nat_Eq, Str,
  str_Eq, pair_Eq,
}
use hakobackend.Alias.{hex_digit, is_unreserved, encode}

abbrev pub is_encoded : ℕ → Bool
is_encoded b = is_unreserved b || nat_eq b b'%'

hex_digit-alphanumeric : (n : ℕ) → n < 16 → is_encoded (hex_digit n) ≡ true
hex_digit-alphanumeric n h = ground arith

-- A capture that is filled into a target is letters, digits, `-`, `_`, `.`, `~` and `%`: no `/`, `&`,
-- `=`, `?` or `#` of it is left, so that it stays in its slot.
pub encode_lem :
    (value : Str) → all (λ b. ltb b 256) value ≡ true → all is_encoded (encode value) ≡ true
unfolding encode all
encode_lem [] h = refl
encode_lem (b ∷ value) h =
    let small : b < 256 = ground arith in
    let high : b / 16 < 16 = omega arith in
    let low : b % 16 < 16 = omega arith in
    ground (
      arith,
      encode_lem value (ground arith),
      hex_digit-alphanumeric (b / 16) high,
      hex_digit-alphanumeric (b % 16) low,
    )
