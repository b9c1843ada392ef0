-- ===== src/Guard/Lockout.antt =====
-- When an account is locked: the threshold, the signal and the end of a lock.
use hakobackend.Base.{
  ℕ, suc, ◌+◌, ◌%◌, ◌^◌, ◌≤◌, ◌<◌, ◌≡◌, refl, ◌∙◌, inl, inr, false, not, ◌&&◌, none, some, List, [],
  ◌∷◌, arith, ltb, leb, if◌then◌else◌, Bool-cases, Option-cases, length, and_then, is_some, eq_refl,
  nat_Eq, Str, str_eq, str_Eq, pair_Eq,
}
use hakobackend.Base.Map
use hakobackend.Base.Map.{
  Map, get-insert, get-remove, Unique, get-retain, insert-Unique, remove-Unique, retain-Unique,
}
use hakobackend.Guard.{
  Entry, Guard, is_off, window_secs, is_locked_at, secs_left, locked_secs, evict, fresh, slide,
  strike, edge, current, fail, clear,
}
use native.Mathlib.Nat.{add-zero, add_comm}
use hakobackend.Guard.Safety.{
  evict-Unique, IsValid, get-evict_self, secs_left-is_some, slide-locked,
}

module _ (g : Guard) (login : Str) (now : ℕ) (v : IsValid now g) where
  -- The lock that `fail` works with is the one that `locked_secs` shows.
  current-locked :
      is_locked_at now (current g login now).locked_until
      ≡ is_some (secs_left now (and_then (Map.get login g.entries) (λ e. e.locked_until)))
  unfolding current slide
  current-locked = elim (Option-cases (Map.get login g.entries)) [
    | inl missing ↦
        rw (get-evict_self g login now v.unique, missing) (unfold secs_left in ground arith)
    | inr (e, found) ↦
        rw (get-evict_self g login now v.unique, found, secs_left-is_some now e.locked_until)
          (slide-locked g.window now e (v.entry login e found))
  ]

  get-fail_self :
      is_off g ≡ false
      → Map.get login (fail g login now).0.entries
        ≡ some (strike g.max_attempts g.window now (current g login now))
  unfolding fail
  get-fail_self on = ground (
    arith,
    get-insert login login (strike g.max_attempts g.window now (current g login now))
        (evict g login now),
    eq_refl login,
  )

  locked_secs-before :
      is_off g ≡ false
      → is_some (locked_secs g login now) ≡ is_locked_at now (current g login now).locked_until
  unfolding locked_secs
  locked_secs-before on = ground (arith, current-locked)

  locked_secs-after :
      is_off g ≡ false
      → is_some (locked_secs (fail g login now).0 login now)
        ≡ is_locked_at now (strike g.max_attempts g.window now (current g login now)).locked_until
  locked_secs-after on =
      let e' = strike g.max_attempts g.window now (current g login now) in
      elim (Bool-cases (is_off (fail g login now).0)) [
        | inl off ↦ absurd (unfold fail in ground arith)
        | inr on' ↦
            unfold locked_secs in rw (on', get-fail_self on) (secs_left-is_some now e'.locked_until)
      ]

  fail-result :
      is_off g ≡ false
      → (fail g login now).1
        ≡ edge g.window now
            (current g login now)
            (strike g.max_attempts g.window now (current g login now))
  unfolding fail
  fail-result on = ground arith

  -- `fail` returns the seconds of the window exactly when this failure takes the login from open
  -- to locked, and nothing otherwise.
  pub fail-edge : (fail g login now).1 ≡ (
      if not (is_some (locked_secs g login now))
        && is_some (locked_secs (fail g login now).0 login now)
      then some (window_secs g)
      else none)
  fail-edge = elim (Bool-cases (is_off g)) [
    | inl off ↦ unfold fail locked_secs in ground arith
    | inr on ↦
        fail-result on ∙ rw (locked_secs-before on, locked_secs-after on) (unfold edge in refl)
  ]

-- Failures of one login at these times.
unfoldable pub fail_all : Guard → Str → List ℕ → Guard
fail_all g login [] = g
fail_all g login (t ∷ ts) = fail_all (fail g login t).0 login ts

-- Each time comes less than a window after the one before.
abbrev pub Within : ℕ → ℕ → List ℕ → Type 0
Within window last [] = Unit
Within window last (t ∷ ts) = (last ≤ t) × (t < last + window) × Within window t ts

abbrev pub last_of : ℕ → List ℕ → ℕ
last_of t [] = t
last_of t (u ∷ ts) = last_of u ts

-- An entry that is locked exactly from the threshold on, for a window from its last failure.
record IsCounted (max_attempts window : ℕ) (e : Entry) : Type 0 where
  full : max_attempts ≤ e.fails → e.locked_until ≡ some (e.last + window)
  few : e.fails < max_attempts → e.locked_until ≡ none

strike-IsCounted :
    (max_attempts window now : ℕ) (e : Entry)
    → 0 < max_attempts
    → e.fails + 1 < 2 ^ 32
    → IsCounted max_attempts window e
    → IsCounted max_attempts window (strike max_attempts window now e)
      × ((strike max_attempts window now e).fails ≡ e.fails + 1)
unfolding strike
strike-IsCounted max_attempts window now e positive room c =
    let same : (e.fails + 1) % 2 ^ 32 ≡ e.fails + 1 = omega arith in
    (record { full = λ h. ground arith; few = λ h. ground (arith, c.few) }, same)

-- What `n` more failures have made of the entry of a login.
record IsStruck (g g' : Guard) (login : Str) (fails last : ℕ) : Type 0 where
  limit : g'.max_attempts ≡ g.max_attempts
  span : g'.window ≡ g.window
  unique : Unique g'.entries
  entry : Entry
  stored : Map.get login g'.entries ≡ some entry
  counted : IsCounted g.max_attempts g.window entry
  number : entry.fails ≡ fails
  at : entry.last ≡ last

module _ (g : Guard) (login : Str) (now : ℕ) (on : 0 < g.max_attempts) (u : Unique g.entries) where
  -- One failure, from the entry that the window leaves.
  fail-IsStruck :
      (e : Entry)
      → current g login now ≡ e
      → IsCounted g.max_attempts g.window e
      → e.fails + 1 < 2 ^ 32
      → IsStruck g (fail g login now).0 login (e.fails + 1) now
  fail-IsStruck e same c room =
      let e' = strike g.max_attempts g.window now e in
      let open_ : is_off g ≡ false = ground arith in
      let counts = strike-IsCounted g.max_attempts g.window now e on room c in
      record {
        limit = unfold fail in ground arith;
        span = unfold fail in ground arith;
        unique = unfold fail in rw open_ (insert-Unique login _ _ (evict-Unique g login now u));
        entry = e';
        stored =
            unfold fail in
            ground (
              arith,
              same,
              get-insert login login (strike g.max_attempts g.window now (current g login now))
                  (evict g login now),
              eq_refl login,
            );
        counted = counts.0;
        number = counts.1;
        at = unfold strike in refl;
      }

  current_absent : Map.get login g.entries ≡ none → current g login now ≡ fresh now
  unfolding current slide
  current_absent missing = rw (get-evict_self g login now u, missing) (ground arith)

  current_within :
      (e : Entry)
      → Map.get login g.entries ≡ some e
      → e.last ≤ now
      → now < e.last + g.window
      → current g login now ≡ e
  unfolding current slide
  current_within e found le h = rw (get-evict_self g login now u, found) (ground arith)

suc_shift : (a n : ℕ) → a + suc n ≡ a + 1 + n
suc_shift a n = omega arith

abbrev SumFits : ℕ → List ℕ → Type 0
SumFits fails ts = fails + length ts < 2 ^ 32

fail_all-IsStruck :
    (g g' : Guard) (login : Str) (fails last : ℕ) (ts : List ℕ)
    → 0 < g.max_attempts
    → IsStruck g g' login fails last
    → Within g.window last ts
    → SumFits fails ts
    → IsStruck g (fail_all g' login ts) login (fails + length ts) (last_of last ts)
unfolding fail_all
fail_all-IsStruck g g' login fails last [] on s w room = rw add-zero s
fail_all-IsStruck g g' login fails last (t ∷ ts) on s w room =
    let e = s.entry in
    let there =
      fail-IsStruck g' login t (omega (arith, s.limit)) s.unique e
        (current_within g' login t (omega (arith, s.limit)) s.unique e s.stored
          (omega (arith, s.at, w.0)) (omega (arith, s.span, s.at, w.1)))
        (rw (s.limit, s.span) s.counted) (omega (arith, s.number)) in
    let here : IsStruck g (fail g' login t).0 login (fails + 1) t = record {
      limit = there.limit ∙ s.limit;
      span = there.span ∙ s.span;
      unique = there.unique;
      entry = there.entry;
      stored = there.stored;
      counted = rw (s.limit, s.span) at there.counted;
      number = omega (arith, there.number, s.number);
      at = there.at;
    } in
    rw (suc_shift fails (length ts))
      (fail_all-IsStruck g (fail g' login t).0 login (fails + 1) t ts on here w.2 (omega arith))

fresh-IsCounted :
    (max_attempts window now : ℕ) → 0 < max_attempts → IsCounted max_attempts window (fresh now)
fresh-IsCounted max_attempts window now on = record {
  full = λ h. absurd (omega arith);
  few = λ h. refl;
}

locked_secs-IsStruck :
    (g g' : Guard) (login : Str) (fails last now : ℕ)
    → 0 < g.max_attempts
    → IsStruck g g' login fails last
    → is_some (locked_secs g' login now) ≡ (leb g.max_attempts fails && ltb now (last + g.window))
locked_secs-IsStruck g g' login fails last now on s =
    let open_ : is_off g' ≡ false = ground (arith, s.limit) in
    unfold locked_secs in
    rw (open_, s.stored, secs_left-is_some now s.entry.locked_until)
      (ground (arith, s.counted.full, s.counted.few, s.number, s.at))

-- A login that the guard does not know fails at these times, each less than a window after the
-- one before: it is locked exactly if that makes `max_attempts` failures, and until a window has
-- passed since the last of them.
pub locked_secs-fail_all :
    (g : Guard) (login : Str) (t : ℕ) (ts : List ℕ) (now : ℕ)
    → 0 < g.max_attempts
    → Unique g.entries
    → Map.get login g.entries ≡ none
    → Within g.window t ts
    → length ts + 1 < 2 ^ 32
    → is_some (locked_secs (fail_all g login (t ∷ ts)) login now)
      ≡ (leb g.max_attempts (length ts + 1) && ltb now (last_of t ts + g.window))
locked_secs-fail_all g login t ts now on u missing w room =
    let start =
      fail-IsStruck g login t on u (fresh t) (current_absent g login t on u missing)
        (fresh-IsCounted g.max_attempts g.window t on) (omega arith) in
    unfold fail_all in
    rw (add_comm (length ts) 1) (
      locked_secs-IsStruck g (fail_all (fail g login t).0 login ts) login (1 + length ts)
        (last_of t ts) now on
        (fail_all-IsStruck g (fail g login t).0 login 1 t ts on start w (omega arith)))

-- A successful login unlocks its own account and changes no other.
pub locked_secs-clear :
    (g : Guard) (login other : Str) (now : ℕ)
    → locked_secs (clear g login) other now
      ≡ (if str_eq login other then none else locked_secs g other now)
unfolding locked_secs clear
locked_secs-clear g login other now = ground (arith, get-remove login other g.entries)
