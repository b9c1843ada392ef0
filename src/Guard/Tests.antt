-- ===== src/Guard/Tests.antt =====
-- Runs of the login guard, and its theorems at concrete inputs.
use hakobackend.Base.{
  ℕ, ◌+◌, ◌*◌, ◌≡◌, refl, not, ◌&&◌, none, some, [], ◌∷◌, arith, ltb, leb, if◌then◌else◌, length,
  is_some, nat_Eq, Str, str, str_eq, str_eq_iff, str_Eq, pair_Eq,
}
use hakobackend.Base.Map
use hakobackend.Base.Map.{
  Map, get-insert, get-remove, Unique, get-retain, insert-Unique, remove-Unique, retain-Unique,
}
use hakobackend.Guard.Safety
use hakobackend.Guard.Safety.{IsValid}
use hakobackend.Guard.Lockout
use hakobackend.Guard.Lockout.{fail_all, last_of}
use hakobackend.Guard.Capacity
use hakobackend.Guard.{second, Guard, with_clock, window_secs, locked_secs, fail, clear}

program : Unit {0}
unfolding with_clock locked_secs fail clear Map.get Map.insert Map.remove Map.retain str_eq fail_all
program = tt

-- the tests of the source: three strikes, a minute
abbrev guard_60 : Guard
guard_60 = record { max_attempts = 3; window = 60 * second; entries = [] }

abbrev u : Str
u = str "u"

abbrev two_strikes : Guard
two_strikes = record guard_60 {
  entries = (u, record { fails = 2; last = 5; locked_until = none }) ∷ [];
}

three_strikes :
    (with_clock 3 60 ≡ guard_60)
    × ((fail guard_60 u 5).1 ≡ none)
    × ((fail two_strikes u 5).1 ≡ some 60)
    × (locked_secs (fail two_strikes u 5).0 u (61 * second) ≡ none)
unfolding program
three_strikes = (refl, refl, refl, refl)

two_strikes-IsValid : IsValid 5 two_strikes
unfolding program
two_strikes-IsValid = record {
  positive = omega arith;
  unique = (refl, tt);
  entry = λ login e h. record { past = ground arith; ends = λ until h'. absurd (ground arith) };
}

locked_secs-fail_ne_example :
    locked_secs (fail two_strikes u 5).0 (str "v") 9 ≡ locked_secs two_strikes (str "v") 9
locked_secs-fail_ne_example =
    Safety.locked_secs-fail_ne two_strikes u 5 two_strikes-IsValid (str "v") 9
      (λ e. absurd (ground (arith, str_eq_iff u (str "v")))) (omega arith)

fail-IsValid_example : IsValid 5 (fail two_strikes u 5).0
fail-IsValid_example = Safety.fail-IsValid two_strikes u 5 two_strikes-IsValid

fail-edge_example : (fail two_strikes u 5).1 ≡ (
    if not (is_some (locked_secs two_strikes u 5))
      && is_some (locked_secs (fail two_strikes u 5).0 u 5)
    then some (window_secs two_strikes)
    else none)
fail-edge_example = Lockout.fail-edge two_strikes u 5 two_strikes-IsValid

locked_secs-fail_all_example :
    is_some (locked_secs (fail_all guard_60 u (5 ∷ 6 ∷ 7 ∷ [])) u 8)
    ≡ (leb 3 (length {A = ℕ} (6 ∷ 7 ∷ []) + 1) && ltb 8 (last_of 5 (6 ∷ 7 ∷ []) + 60 * second))
unfolding program
locked_secs-fail_all_example =
    Lockout.locked_secs-fail_all guard_60 u 5 (6 ∷ 7 ∷ []) 8 (omega arith) tt refl (omega arith)
      (omega arith)

length-fail_new_example :
    length (fail two_strikes (str "v") 5).0.entries ≡ length two_strikes.entries + 1
unfolding program
length-fail_new_example = Capacity.length-fail_new two_strikes (str "v") 5 refl refl (refl, tt)
