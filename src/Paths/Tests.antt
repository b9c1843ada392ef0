-- ===== src/Paths/Tests.antt =====
-- Runs of the path rules, and their theorems at concrete inputs.
use hakobackend.Base.{
  ◌≡◌, refl, true, false, ◌||◌, some, nat_eq, all, nat_Eq, Str, str, str_eq, str_Eq, pair_Eq,
}
use hakobackend.Text.{split, is_empty}
use hakobackend.Paths.{
  document, collection, parse_collection_path, is_name_char, valid_collection_path, valid_db_name,
  valid_doc_id, flat_table_name,
}
use hakobackend.Paths.Charset
use hakobackend.Paths.Documents
use hakobackend.Paths.Wire
use hakobackend.Paths.Wire.{FilterOp, in_list, as_wire, parse}

program : Unit {0}
unfolding parse_collection_path valid_collection_path valid_db_name valid_doc_id flat_table_name
    str_eq split
program = tt

abbrev raw : Str
raw = str "/posts/p1/revisions//r1/"

names :
    (parse_collection_path (str "posts/p1/revisions") ≡ collection (str "posts/p1/revisions"))
    × (flat_table_name (str "posts/123/revisions") ≡ str "posts_revisions")
    × (valid_collection_path (str "a/../b") ≡ false)
    × (valid_db_name (str "__sys") ≡ false)
    × (valid_doc_id (str "a/b") ≡ false)
unfolding program
names = (refl, refl, refl, refl, refl)

parse_collection_path_sound_example :
    Documents.Describes raw (document (str "posts/p1/revisions") (str "r1"))
unfolding program
parse_collection_path_sound_example = Documents.parse_collection_path_sound raw

valid_collection_path_sound_example :
    (is_empty (str "posts/p_1") ≡ false)
    × (all (λ c. is_name_char c || nat_eq c b'/') (str "posts/p_1") ≡ true)
unfolding program
valid_collection_path_sound_example = Charset.valid_collection_path_sound (str "posts/p_1") refl

parse-as_wire_example : parse (as_wire in_list) ≡ some in_list
parse-as_wire_example = Wire.parse-as_wire in_list
