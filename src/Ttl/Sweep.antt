-- ===== src/Ttl/Sweep.antt =====
-- A sweep deletes no document that is alive.
use hakobackend.Base.{
  ℕ, zero, suc, min, ◌≡◌, refl, ap, ◌∙◌, inl, inr, Bool, false, ◌&&◌, Option, none, some, List, [],
  ◌∷◌, map, arith, if◌then◌else◌, Bool-cases, length, any, keep, keep_all, take, is_some_and, ok,
  nat_Eq, Str, str, str_eq, str_eq_iff, str_Eq, pair_Eq,
}
use hakobackend.Base.Map
use hakobackend.Base.Map.{
  Map, get-insert, get-remove, Unique, get-retain, insert-Unique, remove-Unique, retain-Unique,
}
use hakobackend.Text.{starts_with}
use hakobackend.Json.{Number}
use hakobackend.Policy.Rule.{Doc}
use hakobackend.Query.{
  Order, apply_offset_limit, apply_cursor, doc_matches, matches_cursor, sort_and_limit,
}
use hakobackend.Database.{Database}
use hakobackend.Database.Keyed.{IsKeyed, remove-IsKeyed, any-docs_in}
use hakobackend.Query.{apply_cursor, apply_offset_limit}
use hakobackend.Database.Memory.{Store, docs_in, select, memory}
use hakobackend.Ttl.{is_expired, every, delete_ids, sweep_expired}

-- whether the document of an id passes
abbrev pub passes_at : (Doc → Bool) → Str → Str → Store → Bool
passes_at p c i store = is_some_and (Map.get (c, i) store) p

has_id : Str → List Str → Bool
has_id i ids = any (λ j. str_eq j i) ids

any-take-map :
    (i : Str) (n : ℕ) (docs : List Doc)
    → any (λ d. str_eq d.id i) docs ≡ false
    → any (λ j. str_eq j i) (map (λ d. d.id) (take n docs)) ≡ false
unfolding any
any-take-map i zero docs h = refl
any-take-map i (suc n) [] h = refl
any-take-map i (suc n) (d ∷ docs) h = ground (arith, any-take-map i n docs)

-- one round of the loop
sweep_expired-visit :
    {W : Type 0} (now : ℕ) (db : Database W) (cap : ℕ) (c : Str) (cs : List Str)
    (visited deleted : ℕ) (docs : List Doc) (w : W)
    → starts_with (str "__") c ≡ false
    → db.list c every w ≡ ok docs
    → sweep_expired now db cap (c ∷ cs) (visited, deleted) w ≡ (
        let r =
          delete_ids db c (map (λ d. d.id) (take cap (keep (is_expired now) docs))) (deleted, w) in
        sweep_expired now db cap cs (suc visited, r.0) r.1)
unfolding sweep_expired
sweep_expired-visit now db cap c cs visited deleted docs w s l = rw (s, l, sweep_expired) refl

module _ (number_cmp : Number → Number → Option Order) (native : Bool) (now : ℕ) where
  abbrev db : Database Store
  db = memory number_cmp native

  get-delete_ids :
      (c j i : Str) (ids : List Str) (deleted : ℕ) (store : Store)
      → Map.get (j, i) (delete_ids db c ids (deleted, store)).1
        ≡ (if str_eq c j && any (λ k. str_eq k i) ids then none else Map.get (j, i) store)
  unfolding delete_ids any
  get-delete_ids c j i [] deleted store = ground arith
  get-delete_ids c j i (id ∷ ids) deleted store =
      get-delete_ids c j i ids (suc deleted) (Map.remove (c, id) store)
      ∙ rw (get-remove (c, id) (j, i) store) (ground arith)

  list-every : (c : Str) (store : Store) → db.list c every store ≡ ok (docs_in c store)
  unfolding select sort_and_limit apply_cursor apply_offset_limit doc_matches matches_cursor
  list-every c store =
      let none_skipped : min 0 (length (docs_in c store)) ≡ 0 = ground arith in
      rw
        (
          keep_all (λ d. doc_matches number_cmp d []) (docs_in c store) (λ d. refl),
          keep_all (λ d. matches_cursor number_cmp d every) (docs_in c store) (λ d. refl),
          none_skipped,
        )
        refl

  delete_ids-IsKeyed :
      (c : Str) (ids : List Str) (deleted : ℕ) (store : Store)
      → IsKeyed store
      → IsKeyed (delete_ids db c ids (deleted, store)).1
  unfolding delete_ids
  delete_ids-IsKeyed c [] deleted store k = k
  delete_ids-IsKeyed c (id ∷ ids) deleted store k =
      delete_ids-IsKeyed c ids (suc deleted) (Map.remove (c, id) store)
        (remove-IsKeyed c id store k)

  -- a deletion in the collection `c'` spares it
  spare :
      (cap : ℕ) (c' c i : Str) (d : Doc) (store : Store)
      → IsKeyed store
      → Map.get (c, i) store ≡ some d
      → is_expired now d ≡ false
      → (str_eq c' c
          && any
              (λ j. str_eq j i)
              (map (λ d. d.id) (take cap (keep (is_expired now) (docs_in c' store)))))
        ≡ false
  spare cap c' c i d store k h live = elim (Bool-cases (str_eq c' c)) [
    | inr e ↦ rw e refl
    | inl e ↦
        let here : any (λ d. str_eq d.id i) (keep (is_expired now) (docs_in c' store)) ≡ false =
          rw ((str_eq_iff c' c).0 e) (any-docs_in c i (is_expired now) store k ∙ rw h live) in
        rw e (any-take-map i cap (keep (is_expired now) (docs_in c' store)) here)
  ]

  -- A sweep, whatever its cap and the collections it visits, leaves each document that is not past
  -- its expiry as it is, in a store where an id names one document.
  pub get-sweep_expired :
      (cap : ℕ) (cs : List Str) (counts : ℕ × ℕ) (store : Store) (c i : Str) (d : Doc)
      → IsKeyed store
      → Map.get (c, i) store ≡ some d
      → is_expired now d ≡ false
      → Map.get (c, i) (sweep_expired now db cap cs counts store).1 ≡ some d
  unfolding sweep_expired
  get-sweep_expired cap [] counts store c i d k h live = h
  get-sweep_expired cap (c' ∷ cs) (visited, deleted) store c i d k h live =
      let ids = map (λ d. d.id) (take cap (keep (is_expired now) (docs_in c' store))) in
      let after = (delete_ids db c' ids (deleted, store)).1 in
      let spared : Map.get (c, i) after ≡ some d =
        get-delete_ids c' c i ids deleted store ∙ rw (spare cap c' c i d store k h live) h in
      let rest =
        get-sweep_expired cap cs (suc visited, (delete_ids db c' ids (deleted, store)).0) after c i
          d (delete_ids-IsKeyed c' ids deleted store k) spared live in
      elim (Bool-cases (starts_with (str "__") c')) [
        | inl e ↦
            rw (e, sweep_expired) (get-sweep_expired cap cs (visited, deleted) store c i d k h live)
        | inr e ↦
            ap (λ r. Map.get (c, i) r.1)
              (sweep_expired-visit now db cap c' cs visited deleted (docs_in c' store) store e
                (list-every c' store))
            ∙ rest
      ]
