-- ===== src/Guard/Capacity.antt =====
-- How many logins the guard remembers.
use hakobackend.Base.{
  ℕ, ◌+◌, ◌≤◌, ◌≡◌, refl, Bool, true, false, none, [], ◌∷◌, arith, length, All, nat_Eq, Str, str_Eq,
  pair_Eq,
}
use hakobackend.Base.Map
use hakobackend.Base.Map.{
  Map, get-insert, get-remove, Unique, get-retain, insert-Unique, remove-Unique, retain-Unique,
}
use hakobackend.Guard.{Entry, Guard, is_off, is_warm, evict, strike, current, fail}

retain-All :
    (p : Str → Entry → Bool) (m : Map Str Entry)
    → All (λ x. p x.0 x.1 ≡ true) m
    → Map.retain p m ≡ m
unfolding Map.retain
retain-All p [] h = refl
retain-All p ((k, e) ∷ m) h = ground (arith, retain-All p m h.1)

length-insert_new :
    (k : Str) (e : Entry) (m : Map Str Entry)
    → Map.get k m ≡ none
    → length (Map.insert k e m) ≡ length m + 1
unfolding Map.insert Map.get
length-insert_new k e [] h = omega arith
length-insert_new k e ((j, f) ∷ m) h = ground (arith, length-insert_new k e m)

-- Where every remembered login failed less than a window ago, a failure of a new login makes the
-- guard remember one login more, however many it has: `cap` does not bound it.
pub length-fail_new :
    (g : Guard) (login : Str) (now : ℕ)
    → is_off g ≡ false
    → Map.get login g.entries ≡ none
    → All (λ x. is_warm g.window now x.1 ≡ true) g.entries
    → length (fail g login now).0.entries ≡ length g.entries + 1
unfolding fail evict
length-fail_new g login now on missing warm =
    let kept = retain-All (λ _ e. is_warm g.window now e) g.entries warm in
    ground (
      arith,
      kept,
      length-insert_new login (strike g.max_attempts g.window now (current g login now)) g.entries
          missing,
    )

length-retain-le : (p : Str → Entry → Bool) (m : Map Str Entry) → length (Map.retain p m) ≤ length m
unfolding Map.retain
length-retain-le p [] = omega arith
length-retain-le p ((k, e) ∷ m) = ground (arith, length-retain-le p m)
