-- ===== src/Alias/Tests.antt =====
-- Runs of the aliases, and their theorems at concrete inputs.
use hakobackend.Base.{
  ◌≡◌, refl, true, none, some, List, [], ◌∷◌, any, all, keep, nat_Eq, str, str_eq, str_Eq, pair_Eq,
}
use hakobackend.Base.Map
use hakobackend.Base.Map.{
  Map, get-insert, get-remove, Unique, get-retain, insert-Unique, remove-Unique, retain-Unique,
}
use hakobackend.Text.{split}
use hakobackend.Alias.{Seg, exact, param, parse_pattern, encode, match_path, is_db, merge_query}
use hakobackend.Alias.Encoding
use hakobackend.Alias.Encoding.{is_encoded}
use hakobackend.Alias.Authority

program : Unit {0}
unfolding parse_pattern match_path merge_query encode str_eq Map.get any all
program = tt

abbrev student : List Seg
student = exact (str "students") ∷ param (str "sid") ∷ []

runs :
    (parse_pattern (str "/students/:sid") ≡ some (student, str "sid" ∷ []))
    × (parse_pattern (str "/students/:") ≡ none)
    × (match_path student (str "/students/s1") ≡ some ((str "sid", str "s1") ∷ []))
    × (match_path student (str "/teachers/s1") ≡ none)
    × (encode (str "a/b") ≡ str "a%2Fb")
    × (merge_query (str "a=1&b=2") (some (str "b=9&c=3")) ≡ str "a=1&b=9&c=3")
    × (merge_query (str "db=x") (some (str "db=y&c=3")) ≡ str "db=x&c=3")
unfolding program
runs = (refl, refl, refl, refl, refl, refl, refl)

-- a key that is percent-encoded is none of the keys that the merge knows
encoded_key : merge_query (str "db=x") (some (str "d%62=y")) ≡ str "db=x&d%62=y"
unfolding program
encoded_key = refl

encode_lem_example : all is_encoded (encode (str "a/b&c=d")) ≡ true
unfolding program
encode_lem_example = Encoding.encode_lem (str "a/b&c=d") refl

merge_query-db_example :
    keep is_db (split b'&' (merge_query (str "a=1&db=x") (some (str "db=y&c=3"))))
    ≡ keep is_db (split b'&' (str "a=1&db=x"))
unfolding program
merge_query-db_example = Authority.merge_query-db (str "a=1&db=x") (some (str "db=y&c=3")) refl
