-- ===== src/Coalesce/Drain.antt =====
-- A flush comes to its end, and leaves nothing that was due.
use hakobackend.Base.{ℕ, zero, suc, ◌≡◌, refl, List, [], ◌∷◌, nat_Eq, str_Eq, pair_Eq}
use hakobackend.Base.Map
use hakobackend.Base.Map.{
  Map, get-insert, get-remove, get-retain, insert-Unique, remove-Unique, retain-Unique,
}
use hakobackend.Coalesce.{Key, Due, Store, System, Event, settled, settle, step}

-- as many rounds of the loop
abbrev pub rounds : ℕ → ℕ → List Event
rounds now zero = []
rounds now (suc n) = settled now ∷ rounds now n

module _ {W : Type 0} (store : Store W) where
  pub step-settled :
      (now : ℕ) (key : Key) (due : Due) (rest : Map Key Due) (sys : System W)
      → sys.in_flight ≡ (key, due) ∷ rest
      → step store (settled now) sys ≡ settle store now key due rest sys
  unfolding step
  step-settled now key due rest sys e = rw (e, step) refl
