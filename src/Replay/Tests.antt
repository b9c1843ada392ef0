-- ===== src/Replay/Tests.antt =====
-- Runs of the replay cache, and its theorems at concrete inputs.
use hakobackend.Base.{
  ℕ, ◌≡◌, refl, false, List, [], ◌∷◌, arith, nat_Eq, Str, str, str_eq, str_Eq, pair_Eq,
}
use hakobackend.Base.Map
use hakobackend.Base.Map.{
  Map, get-insert, get-remove, Unique, get-retain, insert-Unique, remove-Unique, retain-Unique,
}
use hakobackend.Replay

program : Unit {0}
unfolding Replay.check Replay.check_all Map.get str_eq
program = tt

abbrev proof : Str
proof = str "jti-1"

abbrev between : List (Str × ℕ)
between = (str "jti-2", 6) ∷ (str "jti-1", 7) ∷ []

check-once_example :
    (Replay.check (Replay.check_all (Replay.check [] proof 5).1 between) proof 9).0 ≡ false
unfolding program
check-once_example =
    Replay.check-once [] proof 100 100_000_000_000 5 between 9 tt (omega arith) refl refl
      ((omega arith, omega arith), ((omega arith, omega arith), tt)) refl
