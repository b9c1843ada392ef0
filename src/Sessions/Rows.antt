-- ===== src/Sessions/Rows.antt =====
-- The sessions as a driver in memory lists them.
use hakobackend.Base.{
  ℕ, min, ◌≡◌, refl, ◌↔◌, inl, inr, Bool, true, false, ◌&&◌, Option, none, some, List, [], ◌∷◌,
  arith, Option-cases, length, keep, keep_same, keep_all, take, and_then, and_then-some,
  is_some_and, first, nat_Eq, Str, str, str_eq, str_eq_iff, str_Eq, pair_Eq,
}
use hakobackend.Base.Map
use hakobackend.Base.Map.{
  Map, get-insert, get-remove, Unique, get-retain, insert-Unique, remove-Unique, retain-Unique,
}
use hakobackend.Json.{Number, Value, null, bool, number, string, array, object, as_str, value_eq}
use hakobackend.Policy.Rule.{Doc}
use hakobackend.Query.{
  Order, nested, is_value, apply_cursor, doc_matches, matches_cursor, sort_and_limit,
}
use hakobackend.Sessions.{sessions, refresh_hash, prev_hash, where_eq, text_of}
use hakobackend.Database.Memory.{Store, docs_in, select}

-- the test of a session by one of its texts
abbrev pub carries : Str → Str → Doc → Bool
carries f text d = is_some_and (text_of f d) (λ u. str_eq u text)

pub carries_iff : (f text : Str) (d : Doc) → (carries f text d ≡ true) ↔ (text_of f d ≡ some text)
carries_iff f text d = (
  λ h. elim (Option-cases (text_of f d)) [
    | inl e ↦ absurd (let h' = rw e at h in ground arith)
    | inr (u, e) ↦ let h' = rw e at h in rw (e, (str_eq_iff u text).0 h') refl
  ],
  λ e. rw e ((str_eq_iff text text).1 refl),
)

is_value-text :
    (v : Option Value) (text : Str)
    → is_value v (string text) ≡ is_some_and (and_then v as_str) (λ u. str_eq u text)
unfolding value_eq
is_value-text none text = refl
is_value-text (some null) text = refl
is_value-text (some (bool true)) text = refl
is_value-text (some (bool false)) text = refl
is_value-text (some (number _)) text = refl
is_value-text (some (string u)) text = refl
is_value-text (some (array _)) text = refl
is_value-text (some (object _)) text = refl

-- a field whose name is one part of a path
abbrev pub IsPlain : Str → Type 0
IsPlain f = (contents : Map Str Value) → nested contents f ≡ Map.get f contents

pub refresh_hash-IsPlain : IsPlain refresh_hash
unfolding nested
refresh_hash-IsPlain contents = and_then-some (Map.get refresh_hash contents)

pub prev_hash-IsPlain : IsPlain prev_hash
unfolding nested
prev_hash-IsPlain contents = and_then-some (Map.get prev_hash contents)

pub uid-IsPlain : IsPlain (str "uid")
unfolding nested
uid-IsPlain contents = and_then-some (Map.get (str "uid") contents)

first-take : (docs : List Doc) → first (take 1 docs) ≡ first docs
first-take [] = refl
first-take (_ ∷ _) = refl

module _ (number_cmp : Number → Number → Option Order) where
  matches-carries :
      (f text : Str) (limit : Option ℕ) (d : Doc)
      → IsPlain f
      → doc_matches number_cmp d (where_eq f text limit).filters ≡ carries f text d
  unfolding doc_matches text_of
  matches-carries f text limit d plain =
      let e : (carries f text d && true) ≡ carries f text d = ground arith in
      rw (plain d.contents, is_value-text (Map.get f d.contents) text) e

  passes :
      (f text : Str) (limit : Option ℕ) (d : Doc)
      → matches_cursor number_cmp d (where_eq f text limit) ≡ true
  unfolding matches_cursor
  passes f text limit d = refl

  pub sort_and_limit-plain :
      (f text : Str) (docs : List Doc)
      → (sort_and_limit number_cmp docs (where_eq f text none) ≡ docs)
        × (first (sort_and_limit number_cmp docs (where_eq f text (some 1))) ≡ first docs)
  unfolding sort_and_limit apply_cursor
  sort_and_limit-plain f text docs =
      let none_skipped : min 0 (length docs) ≡ 0 = ground arith in
      (
        rw
            (
              keep_all (λ d. matches_cursor number_cmp d (where_eq f text none)) docs
                  (passes f text none),
              none_skipped,
            )
            refl,
        rw
            (
              keep_all (λ d. matches_cursor number_cmp d (where_eq f text (some 1))) docs
                  (passes f text (some 1)),
              none_skipped,
            )
            (first-take docs),
      )

  -- what `revoke_user` and `session_by` read
  pub select-carries :
      (f text : Str) (limit : Option ℕ) (store : Store)
      → IsPlain f
      → select number_cmp sessions (where_eq f text limit) store
        ≡ keep (carries f text) (docs_in sessions store)
  unfolding select
  select-carries f text limit store plain =
      keep_same (λ d. doc_matches number_cmp d (where_eq f text limit).filters) (carries f text)
        (docs_in sessions store) (λ d. matches-carries f text limit d plain)
