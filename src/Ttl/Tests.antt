-- ===== src/Ttl/Tests.antt =====
-- Documents with an expiry on concrete stores.
use hakobackend.Base.{
  arith, ℕ, ◌≡◌, refl, true, false, Option, none, some, [], ◌∷◌, ltb, if◌then◌else◌, keep, ok,
  nat_Eq, Str, str, str_eq, str_Eq, pair_Eq,
}
use hakobackend.Base.Map
use hakobackend.Base.Map.{
  Map, get-insert, get-remove, Unique, get-retain, insert-Unique, remove-Unique, retain-Unique,
}
use hakobackend.Json.{Number, pos_int, number}
use hakobackend.Policy.Rule.{Doc}
use hakobackend.Query.{Order, doc_matches, matches_cursor, sort_and_limit}
use hakobackend.Database.Keyed.{IsKeyed}
use hakobackend.Query.{less, same, greater}
use hakobackend.Ttl.Counts
use hakobackend.Ttl.Counts.{ComparesNat}
use hakobackend.Ttl.Sweep
use hakobackend.Database.Memory.{Store, docs_in, select, memory}
use hakobackend.Ttl.{ttl_field, is_expired, unpaged, every, count, sweep_expired}

program : Unit {0}
unfolding select sort_and_limit doc_matches matches_cursor Map.get str_eq is_expired count docs_in
    keep
program = tt

-- whole numbers that are not negative
abbrev number_cmp : Number → Number → Option Order
number_cmp (pos_int a) (pos_int b) =
    some (if ltb a b then less else if ltb b a then greater else same)
number_cmp a b = none

abbrev dying : Str → ℕ → Doc
dying id t = record { id = id; contents = (ttl_field, number (pos_int t)) ∷ [] }

abbrev store : Store
store =
    ((str "c", str "a"), dying (str "a") 5)
    ∷ ((str "c", str "b"), dying (str "b") 50)
    ∷ ((str "c", str "d"), record { id = str "d"; contents = [] })
    ∷ []

native_total : count 10 (memory number_cmp true) (str "c") every store ≡ ok 2
unfolding program
native_total = refl

-- without native aggregation the count keeps the query's page
paged_total :
    (count 10 (memory number_cmp false) (str "c") (record every { limit = some 1 }) store ≡ ok 0)
    × (count 10 (memory number_cmp true) (str "c") (record every { limit = some 1 }) store ≡ ok 2)
unfolding program
paged_total = (refl, refl)

count-native_example :
    count 10 (memory number_cmp true) (str "c") every store
    ≡ count 10 (memory number_cmp false) (str "c") (unpaged every) store
count-native_example =
    Counts.count-native number_cmp 10 (omega arith) (λ a b h k. refl) (str "c") every store

keyed : IsKeyed store
unfolding program
keyed = (refl, refl, (refl, tt), (refl, refl, (refl, tt), (refl, refl, tt, tt)))

b_stored : Map.get (str "c", str "b") store ≡ some (dying (str "b") 50)
unfolding program
b_stored = refl

b_live : is_expired 10 (dying (str "b") 50) ≡ false
unfolding program
b_live = refl

get-sweep_expired_example :
    Map.get
      (str "c", str "b")
      (sweep_expired 10 (memory number_cmp true) 9 (str "c" ∷ []) (0, 0) store).1
    ≡ some (dying (str "b") 50)
get-sweep_expired_example =
    Sweep.get-sweep_expired number_cmp true 10 9 (str "c" ∷ []) (0, 0) store (str "c") (str "b")
      (dying (str "b") 50) keyed b_stored b_live
