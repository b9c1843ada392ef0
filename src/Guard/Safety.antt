-- ===== src/Guard/Safety.antt =====
-- What one login's failures do to the others, and the signal of a lockout.
use hakobackend.Base.{
  ℕ, ◌+◌, ◌-◌, ◌%◌, ◌^◌, ◌≤◌, ◌<◌, max, ◌≡◌, refl, sym, ◌∙◌, subst, ◌≢◌, ◌⊎◌, inl, inr, false, not,
  ◌&&◌, Option, none, some, arith, ltb, leb, Bool-cases, Option-cases, length, and_then, is_some,
  keep_if, nat_Eq, Str, str_eq, str_eq_iff, str_Eq, pair_Eq,
}
use hakobackend.Base.Map
use hakobackend.Base.Map.{
  Map, get-insert, get-remove, Unique, get-retain, insert-Unique, remove-Unique, retain-Unique,
}
use hakobackend.Guard.{
  cap, Entry, Guard, with_clock, is_off, is_locked_at, secs_left, locked_secs, is_warm, evict,
  fresh, slide, strike, current, fail, clear,
}

-- The state that the operations keep: no login twice, and a lock that ends within a window of
-- the last failure, which is not in the future.
pub record IsEntry (window now : ℕ) (e : Entry) : Type 0 where
  pub past : e.last ≤ now
  pub ends : (until : ℕ) → e.locked_until ≡ some until → until ≤ e.last + window

pub record IsValid (now : ℕ) (g : Guard) : Type 0 where
  pub positive : 0 < g.window
  pub unique : Unique g.entries
  pub entry : (login : Str) (e : Entry) → Map.get login g.entries ≡ some e → IsEntry g.window now e

module _ (g : Guard) (login : Str) (now : ℕ) where
  pub evict-Unique : Unique g.entries → Unique (evict g login now)
  unfolding evict
  evict-Unique u =
      elim (Bool-cases (not (Map.contains login g.entries) && leb cap (length g.entries))) [
        | inl e ↦ rw e (retain-Unique (λ _ e. is_warm g.window now e) g.entries u)
        | inr e ↦ rw e u
      ]

  -- The eviction keeps the entry of the login itself, and every warm one.
  get-evict :
      (other : Str)
      → Unique g.entries
      → (Map.get other (evict g login now) ≡ Map.get other g.entries)
        ⊎ (Map.get other (evict g login now)
            ≡ keep_if (is_warm g.window now) (Map.get other g.entries))
  unfolding evict
  get-evict other u =
      elim (Bool-cases (not (Map.contains login g.entries) && leb cap (length g.entries))) [
        | inl e ↦ inr (rw e (get-retain (λ _ e. is_warm g.window now e) other g.entries u))
        | inr e ↦ inl (rw e refl)
      ]

  pub get-evict_self :
      Unique g.entries → Map.get login (evict g login now) ≡ Map.get login g.entries
  unfolding evict
  get-evict_self u = elim (Option-cases (Map.get login g.entries)) [
    | inr (e, found) ↦ ground arith
    | inl missing ↦ elim (Bool-cases (leb cap (length g.entries))) [
      | inl e ↦ ground (arith, get-retain (λ _ e. is_warm g.window now e) login g.entries u)
      | inr e ↦ ground arith
    ]
  ]

-- A cold entry locks nobody, now or later: its lock ended when it became cold.
cold_unlocked :
    (window now later : ℕ) (e : Entry)
    → IsEntry window now e
    → is_warm window now e ≡ false
    → now ≤ later
    → secs_left later e.locked_until ≡ none
unfolding secs_left
cold_unlocked window now later e v cold le = elim (Option-cases e.locked_until) [
  | inl free ↦ rw free refl
  | inr (until, locked) ↦
      let ended : until ≤ e.last + window = v.ends until locked in
      let over : ltb later until ≡ false = ground arith in rw (locked, over) refl
]

module _ (g : Guard) (login : Str) (now : ℕ) (v : IsValid now g) where
  evict-keeps_locks :
      (other : Str) (later : ℕ)
      → now ≤ later
      → secs_left later (and_then (Map.get other (evict g login now)) (λ e. e.locked_until))
        ≡ secs_left later (and_then (Map.get other g.entries) (λ e. e.locked_until))
  evict-keeps_locks other later le = elim (get-evict g login now other v.unique) [
    | inl same ↦ rw same refl
    | inr kept ↦ elim (Option-cases (Map.get other g.entries)) [
      | inl missing ↦ rw (kept, missing) refl
      | inr (e, found) ↦ elim (Bool-cases (is_warm g.window now e)) [
        | inl warm ↦ rw (kept, found, warm) refl
        | inr cold ↦
            rw (kept, found, cold)
              (unfold secs_left in
                sym (
                  unfold secs_left in
                  cold_unlocked g.window now later e (v.entry other e found) cold le))
      ]
    ]
  ]

  -- A failed login changes the lock of no other login, now or later, even when it makes the
  -- guard evict entries.
  pub locked_secs-fail_ne :
      (other : Str) (later : ℕ)
      → login ≢ other
      → now ≤ later
      → locked_secs (fail g login now).0 other later ≡ locked_secs g other later
  unfolding locked_secs fail
  locked_secs-fail_ne other later ne le = ground (
    arith,
    get-insert login other (strike g.max_attempts g.window now (current g login now))
        (evict g login now),
    str_eq_iff login other,
    evict-keeps_locks other later le,
  )

pub secs_left-is_some : (now : ℕ) (l : Option ℕ) → is_some (secs_left now l) ≡ is_locked_at now l
unfolding secs_left
secs_left-is_some now none = refl
secs_left-is_some now (some until) = ground arith

pub slide-locked :
    (window now : ℕ) (e : Entry)
    → IsEntry window now e
    → is_locked_at now (slide window now e).locked_until ≡ is_locked_at now e.locked_until
unfolding slide
slide-locked window now e v = elim (Option-cases e.locked_until) [
  | inl free ↦ ground arith
  | inr (until, locked) ↦ ground (arith, v.ends until locked)
]

strike-IsEntry :
    (max_attempts window now : ℕ) (e : Entry)
    → IsEntry window now e
    → IsEntry window now (strike max_attempts window now e)
unfolding strike
strike-IsEntry max_attempts window now e v = record {
  past = omega arith;
  ends = λ until h. elim (Bool-cases (leb (max max_attempts 1) ((e.fails + 1) % 2 ^ 32))) [
    | inl full ↦ ground arith
    | inr few ↦ ground (arith, v.ends until)
  ];
}

slide-IsEntry :
    (window now : ℕ) (e : Entry) → IsEntry window now e → IsEntry window now (slide window now e)
unfolding slide
slide-IsEntry window now e v = elim (Bool-cases (leb window (now - e.last))) [
  | inl passed ↦ rw passed (record { past = v.past; ends = λ until h. absurd (ground arith) })
  | inr within ↦ rw within v
]

fresh-IsEntry : (window now : ℕ) → IsEntry window now (fresh now)
fresh-IsEntry window now = record { past = omega arith; ends = λ until h. absurd (ground arith) }

later-IsEntry :
    (window now later : ℕ) (e : Entry) → IsEntry window now e → now ≤ later → IsEntry window later e
later-IsEntry window now later e v le = record { past = omega (arith, v.past); ends = v.ends }

-- The invariant is one of time passing.
pub later-IsValid : (now later : ℕ) (g : Guard) → IsValid now g → now ≤ later → IsValid later g
later-IsValid now later g v le = record {
  positive = v.positive;
  unique = v.unique;
  entry = λ login e h. later-IsEntry g.window now later e (v.entry login e h) le;
}

-- A new guard keeps the invariant.
pub with_clock-IsValid :
    (now max_attempts lockout_secs : ℕ) → IsValid now (with_clock max_attempts lockout_secs)
unfolding with_clock Map.get
with_clock-IsValid now max_attempts lockout_secs = record {
  positive = ground arith;
  unique = tt;
  entry = λ login e h. absurd (ground arith);
}

module _ (g : Guard) (login : Str) (now : ℕ) (v : IsValid now g) where
  evict-entry :
      (other : Str) (e : Entry)
      → Map.get other (evict g login now) ≡ some e
      → IsEntry g.window now e
  evict-entry other e h = elim (get-evict g login now other v.unique) [
    | inl same ↦ v.entry other e (sym same ∙ h)
    | inr kept ↦ elim (Option-cases (Map.get other g.entries)) [
      | inl missing ↦ absurd (ground arith)
      | inr (e', found) ↦ elim (Bool-cases (is_warm g.window now e')) [
        | inl warm ↦ v.entry other e (ground arith)
        | inr cold ↦ absurd (ground arith)
      ]
    ]
  ]

  current-IsEntry : IsEntry g.window now (current g login now)
  unfolding current
  current-IsEntry =
      slide-IsEntry g.window now _ (elim (Option-cases (Map.get login (evict g login now))) [
        | inl missing ↦ rw missing (fresh-IsEntry g.window now)
        | inr (e, found) ↦ rw found (evict-entry login e found)
      ])

  -- A failed login keeps the state valid: no login twice, no failure in the future, and every lock
  -- ends within a window of the last failure.
  pub fail-IsValid : IsValid now (fail g login now).0
  unfolding fail
  fail-IsValid = elim (Bool-cases (is_off g)) [
    | inl off ↦ rw off v
    | inr on ↦ rw on (record {
      positive = v.positive;
      unique = insert-Unique login _ _ (evict-Unique g login now v.unique);
      entry = λ other e h. elim (Bool-cases (str_eq login other)) [
        | inl same ↦
            let what : strike g.max_attempts g.window now (current g login now) ≡ e = ground (
              arith,
              get-insert login other (strike g.max_attempts g.window now (current g login now))
                  (evict g login now),
            ) in
            subst (IsEntry g.window now) what
              (strike-IsEntry g.max_attempts g.window now _ current-IsEntry)
        | inr apart ↦ evict-entry other e (
            ground (
              arith,
              get-insert login other (strike g.max_attempts g.window now (current g login now))
                  (evict g login now),
            ))
      ];
    })
  ]

  -- So does a successful one.
  pub clear-IsValid : IsValid now (clear g login)
  unfolding clear
  clear-IsValid = elim (Bool-cases (is_off g)) [
    | inl off ↦ rw off v
    | inr on ↦ rw on (record {
      positive = v.positive;
      unique = remove-Unique login g.entries v.unique;
      entry = λ other e h. v.entry other e (ground (arith, get-remove login other g.entries));
    })
  ]
