-- ===== src/Ttl/Visible.antt =====
-- The dead do not show.
use hakobackend.Base.{
  ℕ, ◌≡◌, refl, inl, inr, Bool, true, Option, none, some, List, [], ◌∷◌, arith, Bool-cases, all,
  keep, keep_if, Result, ok, err, Result-cases, nat_Eq, Str, str_Eq, pair_Eq,
}
use hakobackend.Policy.Rule.{Doc}
use hakobackend.Query.{QueryOptions}
use hakobackend.Database.{AppError, Database}
use hakobackend.Ttl.{is_expired, map_ok, is_live, ttl_db}

-- no dead document in an answer
abbrev pub shows_live : ℕ → Result AppError (Option Doc) → Bool
shows_live now (ok (some d)) = is_live now d
shows_live now _ = true

abbrev pub shows_all_live : ℕ → Result AppError (List Doc) → Bool
shows_all_live now (ok docs) = all (is_live now) docs
shows_all_live now (err _) = true

shows_live-keep_if :
    (now : ℕ) (r : Result AppError (Option Doc))
    → shows_live now (map_ok (keep_if (is_live now)) r) ≡ true
shows_live-keep_if now (err e) = refl
shows_live-keep_if now (ok none) = refl
shows_live-keep_if now (ok (some d)) = elim (Bool-cases (is_expired now d)) [
  | inl e ↦ rw e refl
  | inr e ↦ rw (e, e) refl
]

all-keep : (p : Doc → Bool) (docs : List Doc) → all p (keep p docs) ≡ true
unfolding all keep
all-keep p [] = refl
all-keep p (d ∷ docs) = ground (arith, all-keep p docs)

-- Over any driver, no document that is read, listed or answered by a deletion is past its expiry.
pub ttl_db-is_live :
    {W : Type 0} (now : ℕ) (inner : Database W) (c id : Str) (q : QueryOptions) (w : W)
    → let db = ttl_db now inner in
      (shows_live now (db.get c id w) ≡ true)
      × (shows_all_live now (db.list c q w) ≡ true)
      × (shows_live now (db.delete c id w).0 ≡ true)
ttl_db-is_live now inner c id q w = (
  shows_live-keep_if now (inner.get c id w),
  elim (Result-cases (inner.list c q w)) [
    | inl (docs, e) ↦ rw e (all-keep (is_live now) docs)
    | inr (e, f) ↦ rw f refl
  ],
  shows_live-keep_if now (inner.delete c id w).0,
)
