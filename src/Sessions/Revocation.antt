-- ===== src/Sessions/Revocation.antt =====
-- What `session_by` finds and `revoke_user` deletes, over the driver in memory.
use hakobackend.Base.{
  ◌≡◌, refl, sym, ◌∙◌, subst, inl, inr, Bool, true, false, ◌&&◌, ◌||◌, Option, none, some, List, [],
  ◌∷◌, arith, if◌then◌else◌, Option-cases, any, keep, is_some_and, first, ok, nat_Eq, Str, str,
  str_eq, str_Eq, pair_Eq,
}
use hakobackend.Base.Map
use hakobackend.Base.Map.{
  Map, get-insert, get-remove, Unique, get-retain, insert-Unique, remove-Unique, retain-Unique,
}
use hakobackend.Json.{Number}
use hakobackend.Policy.Rule.{Doc}
use hakobackend.Query.{Order}
use hakobackend.Database.{Database}
use hakobackend.Sessions.{sessions, Crypto, Config, where_eq}
use hakobackend.Sessions.Refresh.{session_by, delete_all, revoke_user}
use hakobackend.Sessions.Rows.{carries, IsPlain, uid-IsPlain, sort_and_limit-plain, select-carries}
use hakobackend.Database.Keyed.{IsKeyed, any-docs_in, first-docs_in}
use hakobackend.Database.Memory.{Store, docs_in, select, memory}

pub or_left :
    (o : Option Doc) (p q : Doc → Bool)
    → is_some_and o p ≡ true
    → is_some_and o (λ d. p d || q d) ≡ true
or_left none p q h = h
or_left (some d) p q h = ground arith

pub or_right :
    (o : Option Doc) (p q : Doc → Bool)
    → is_some_and o q ≡ true
    → is_some_and o (λ d. p d || q d) ≡ true
or_right none p q h = h
or_right (some d) p q h = ground arith

if_fails :
    (o : Option Doc) (p : Doc → Bool)
    → is_some_and (if str_eq sessions sessions && is_some_and o p then none else o) p ≡ false
unfolding str_eq
if_fails none p = refl
if_fails (some d) p = ground arith

first-none : (p : Doc → Bool) (rows : List Doc) → first rows ≡ none → any p rows ≡ false
unfolding any
first-none p [] e = refl
first-none p (d ∷ rows) e = absurd (ground arith)

-- whether the session `i` passes
abbrev pub at_session : (Doc → Bool) → Store → Str → Bool
at_session p store i = is_some_and (Map.get (sessions, i) store) p

pub first-alone :
    (p : Doc → Bool) (store : Store) (j : Str) (d : Doc)
    → IsKeyed store
    → Map.get (sessions, j) store ≡ some d
    → p d ≡ true
    → ((i : Str) → at_session p store i ≡ true → i ≡ j)
    → first (keep p (docs_in sessions store)) ≡ some d
first-alone p store j d k e h alone =
    elim (Option-cases (first (keep p (docs_in sessions store)))) [
      | inl n ↦ absurd (
          let empty = first-none (λ d. str_eq d.id j) (keep p (docs_in sessions store)) n in
          let full = rw e at (any-docs_in sessions j p store k) in ground arith)
      | inr (d', s) ↦
          let found = first-docs_in sessions p d' store k s in
          let here : d'.id ≡ j = alone d'.id (rw found.0 found.1) in
          let same = subst (λ i. Map.get (sessions, i) store ≡ some d') here found.0 in
          s ∙ sym same ∙ e
    ]

pub first-nowhere :
    (p : Doc → Bool) (store : Store)
    → IsKeyed store
    → ((i : Str) → at_session p store i ≡ false)
    → first (keep p (docs_in sessions store)) ≡ none
first-nowhere p store k h = elim (Option-cases (first (keep p (docs_in sessions store)))) [
  | inl n ↦ n
  | inr (d, s) ↦ absurd (
      let found = first-docs_in sessions p d store k s in
      let no = rw found.0 at (h d.id) in ground arith)
]

module _ (number_cmp : Number → Number → Option Order) (native : Bool) (crypto : Crypto)
    (cfg : Config) where
  abbrev pub db : Database Store
  db = memory number_cmp native

  pub session_by-first :
      (f hash : Str) (store : Store)
      → IsPlain f
      → session_by db crypto cfg f hash store
        ≡ ok (first (keep (carries f hash) (docs_in sessions store)))
  unfolding session_by
  session_by-first f hash store plain =
      rw
        (
          (sort_and_limit-plain number_cmp f hash
              (select number_cmp sessions (where_eq f hash (some 1)) store)).1,
          select-carries number_cmp f hash (some 1) store plain,
        )
        refl

  get-delete_all :
      (c i : Str) (rows : List Doc) (store : Store)
      → Map.get (c, i) (delete_all db crypto cfg rows store).1 ≡ (
          if str_eq sessions c && any (λ d. str_eq d.id i) rows then none else Map.get (c, i) store)
  unfolding delete_all any
  get-delete_all c i [] store = ground arith
  get-delete_all c i (d ∷ rows) store =
      get-delete_all c i rows (Map.remove (sessions, d.id) store)
      ∙ rw (get-remove (sessions, d.id) (c, i) store) (ground arith)

  -- `revoke_user` deletes the sessions of a user and nothing else.
  pub get-revoke_user :
      (uid c i : Str) (store : Store)
      → IsKeyed store
      → Map.get (c, i) (revoke_user db crypto cfg uid store).1 ≡ (
          if str_eq sessions c
            && is_some_and (Map.get (sessions, i) store) (carries (str "uid") uid)
          then none
          else Map.get (c, i) store)
  unfolding revoke_user
  get-revoke_user uid c i store k =
      rw
        (
          (sort_and_limit-plain number_cmp (str "uid") uid
              (select number_cmp sessions (where_eq (str "uid") uid none) store)).0,
          select-carries number_cmp (str "uid") uid none store uid-IsPlain,
        )
        (rw
          (
            get-delete_all c i (keep (carries (str "uid") uid) (docs_in sessions store)) store,
            any-docs_in sessions i (carries (str "uid") uid) store k,
          )
          refl)

  -- nothing is left of a user whose sessions are revoked
  pub revoke_user-gone :
      (uid : Str) (store : Store) (i : Str)
      → IsKeyed store
      → at_session (carries (str "uid") uid) (revoke_user db crypto cfg uid store).1 i ≡ false
  revoke_user-gone uid store i k =
      rw (get-revoke_user uid sessions i store k)
        (if_fails (Map.get (sessions, i) store) (carries (str "uid") uid))
