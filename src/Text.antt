-- ===== src/Text.antt =====
-- The operations of `&str` that the program uses. A text is the list of its Unicode code points,
-- `byte_len` is the length of its UTF-8 form (Rust's `len`). The delimiters and the character
-- classes that the program tests are ASCII, where a test of bytes and one of code points agree.
pub mod Split
pub mod Order
use hakobackend.Base.{
  ℕ, ◌+◌, Bool, true, false, not, ◌&&◌, ◌||◌, Option, none, some, List, [], ◌∷◌, ◌++◌, Str, ltb,
  leb, nat_eq, any, if◌then◌else◌,
}

-- `s.contains(c)` and `s.starts_with(p)`
unfoldable pub has : ℕ → Str → Bool
unfolding any
has c s = any (nat_eq c) s

-- `s.strip_prefix(p)`
unfoldable pub strip_prefix : Str → Str → Option Str
strip_prefix [] s = some s
strip_prefix (a ∷ p) [] = none
strip_prefix (a ∷ p) (b ∷ s) = if nat_eq a b then strip_prefix p s else none

unfoldable pub starts_with : Str → Str → Bool
starts_with [] s = true
starts_with (a ∷ p) [] = false
starts_with (a ∷ p) (b ∷ s) = nat_eq a b && starts_with p s

-- what `split` does with one more character in front
unfoldable pub push_first : ℕ → List Str → List Str
push_first c [] = (c ∷ []) ∷ []
push_first c (seg ∷ segs) = (c ∷ seg) ∷ segs

-- `s.split(sep)`: never empty, `"".split(sep)` is `[""]`
unfoldable pub split : ℕ → Str → List Str
unfolding push_first
split sep [] = [] ∷ []
split sep (c ∷ s) = let segs = split sep s in if nat_eq c sep then [] ∷ segs else push_first c segs

-- `s.split_once(sep)`
unfoldable pub split_once : ℕ → Str → Option (Str × Str)
split_once sep [] = none
split_once sep (c ∷ s) =
    let rest = split_once sep s in
    if nat_eq c sep then some ([], s) else elim rest [ none ↦ none | some (a, b) ↦ some (c ∷ a, b) ]

-- `segs.join(sep)`
unfoldable pub join : ℕ → List Str → Str
join sep [] = []
join sep (seg ∷ []) = seg
join sep (seg ∷ seg' ∷ segs) = seg ++ sep ∷ join sep (seg' ∷ segs)

abbrev pub is_empty : Str → Bool
is_empty [] = true
is_empty (c ∷ s) = false

-- `char::len_utf8` and `str::len`
abbrev pub utf8_len : ℕ → ℕ
utf8_len c = if ltb c 0x80 then 1 else if ltb c 0x800 then 2 else if ltb c 0x10000 then 3 else 4

unfoldable pub byte_len : Str → ℕ
byte_len [] = 0
byte_len (c ∷ s) = utf8_len c + byte_len s

-- `is_ascii_alphanumeric`
abbrev pub is_alphanumeric : ℕ → Bool
is_alphanumeric c =
    (leb b'0' c && leb c b'9') || (leb b'A' c && leb c b'Z') || (leb b'a' c && leb c b'z')

-- `char::is_whitespace` (Unicode `White_Space`)
abbrev pub is_whitespace : ℕ → Bool
is_whitespace c =
    (leb 9 c && leb c 13)
    || nat_eq c 32
    || nat_eq c 0x85
    || nat_eq c 0xA0
    || nat_eq c 0x1680
    || (leb 0x2000 c && leb c 0x200A)
    || nat_eq c 0x2028
    || nat_eq c 0x2029
    || nat_eq c 0x202F
    || nat_eq c 0x205F
    || nat_eq c 0x3000

-- `s.split_whitespace()`: the maximal runs of other characters
push_word : ℕ → Bool → List Str → List Str
push_word c true words = push_first c words
push_word c false words = (c ∷ []) ∷ words

starts_word : Str → Bool
starts_word [] = false
starts_word (c ∷ s) = not (is_whitespace c)

unfoldable pub split_whitespace : Str → List Str
unfolding push_word push_first starts_word
split_whitespace [] = []
split_whitespace (c ∷ s) =
    let words = split_whitespace s in
    if is_whitespace c then words else push_word c (starts_word s) words

-- `trim_start_matches(sep)` and `trim_matches(sep)` for one character
unfoldable pub trim_start : (ℕ → Bool) → Str → Str
trim_start p [] = []
trim_start p (c ∷ s) = if p c then trim_start p s else c ∷ s

unfoldable pub trim_end : (ℕ → Bool) → Str → Str
trim_end p [] = []
trim_end p (c ∷ s) = elim (trim_end p s) [ [] ↦ if p c then [] else c ∷ [] | d ∷ t ↦ c ∷ d ∷ t ]

unfoldable pub trim : Str → Str
unfolding trim_start trim_end
trim s = trim_end is_whitespace (trim_start is_whitespace s)

unfoldable pub trim_matches : ℕ → Str → Str
unfolding trim_start trim_end
trim_matches sep s = trim_end (nat_eq sep) (trim_start (nat_eq sep) s)
