-- ===== src/Planner/Diff.antt =====
-- diffRoutes and diffRules of internal/planner/planner.go, which are one function over the key.
-- `order` is the order in which Go ranges over a map.
use route_sync.Base.{
  ◌≡◌, refl, ◌∙◌, ap, sym, any_of_count, ap₂, String, Bool, true, not, ◌&&◌, ◌||◌, none, some, List,
  [], ◌∷◌, arith, str_eq, str_eq_iff, any, count, once, All, inl, inr,
}
use route_sync.Base.Maps.{
  GoMap, lookup, insert, has, has-insert, lookup-cases, NodupKeys, insert-NodupKeys, IsOrder,
}

module _ {A : Type 0} (key : A → String) where
  -- `for _, r := range rs { m[key(r)] = r }`
  unfoldable pub index_by : List A → GoMap A → GoMap A
  index_by [] m = m
  index_by (r ∷ rs) m = index_by rs (insert (key r) r m)

  -- Some element of the list has the key.
  abbrev pub has_key : String → List A → Bool
  has_key k = any (λ r. str_eq (key r) k)

  pub has-index_by :
      (k : String) (rs : List A) (m : GoMap A) → has k (index_by rs m) ≡ (has k m || has_key k rs)
  unfolding index_by
  has-index_by k [] m = ground arith
  has-index_by k (r ∷ rs) m =
      ground (arith, has-index_by k rs (insert (key r) r m), has-insert (key r) k r m)

-- `for k, r := range m { if _, ok := other[k]; !ok { out = append(out, r) } }`
unfoldable pub missing_from : {A : Type 0} → GoMap A → GoMap A → List A
missing_from other [] = []
missing_from other ((k, r) ∷ m) = elim (lookup k other) [
  | none ↦ r ∷ missing_from other m
  | some old ↦ missing_from other m
]

-- What is to be added, and what is to be removed.
unfoldable pub diff_by :
    {A : Type 0} → (A → String) → (GoMap A → GoMap A) → List A → List A → List A × List A
unfolding index_by missing_from
diff_by key order desired current =
    let dm = index_by key desired [] in
    let cm = index_by key current [] in (missing_from cm (order dm), missing_from dm (order cm))

module _ {A : Type 0} (key : A → String) where
  -- A map of elements under their own keys.
  abbrev IsKeyed : GoMap A → Type 0
  IsKeyed = All (λ (e : String × A). e.0 ≡ key e.1)

  insert-IsKeyed : (r : A) (m : GoMap A) → IsKeyed m → IsKeyed (insert (key r) r m)
  unfolding insert
  insert-IsKeyed r [] h = (refl, tt)
  insert-IsKeyed r ((j, w) ∷ m) (e, h) = ground (arith, insert-IsKeyed r m h)

  index_by-IsKeyed : (rs : List A) (m : GoMap A) → IsKeyed m → IsKeyed (index_by key rs m)
  unfolding index_by
  index_by-IsKeyed [] m h = h
  index_by-IsKeyed (r ∷ rs) m h = index_by-IsKeyed rs _ (insert-IsKeyed r m h)

  index_by-NodupKeys : (rs : List A) (m : GoMap A) → NodupKeys m → NodupKeys (index_by key rs m)
  unfolding index_by
  index_by-NodupKeys [] m h = h
  index_by-NodupKeys (r ∷ rs) m h = index_by-NodupKeys rs _ (insert-NodupKeys (key r) r m h)

  count-missing_from :
      (f : A → Bool) (other m : GoMap A)
      → count f (missing_from other m) ≡ count (λ (e : String × A). f e.1 && not (has e.0 other)) m
  unfolding missing_from
  count-missing_from f other [] = refl
  count-missing_from f other ((k, r) ∷ m) = elim (lookup-cases k other) [
    | inl (e, absent) ↦ rw (e, missing_from, absent) (ground (arith, count-missing_from f other m))
    | inr (v, e, there) ↦ rw (e, missing_from, there) (ground (arith, count-missing_from f other m))
  ]

  -- In a keyed map each key counts once.
  count-keyed :
      (k : String) (other m : GoMap A)
      → IsKeyed m
      → NodupKeys m
      → count (λ (e : String × A). str_eq (key e.1) k && not (has e.0 other)) m
        ≡ once (has k m && not (has k other))
  count-keyed k other [] h u = refl
  count-keyed k other ((j, r) ∷ m) (e, h) (fresh, u) =
      let same =
        λ (s : str_eq j k ≡ true) (n : GoMap A). ap (λ t. has t n) ((str_eq_iff j k).0 s) in
      rw (← e) (
        ground (
          arith,
          count-keyed k other m h u,
          fresh,
          λ (s : str_eq j k ≡ true). same s m,
          λ (s : str_eq j k ≡ true). same s other,
        ))

module _ {A : Type 0} (key : A → String) (order : GoMap A → GoMap A) (ordered : IsOrder order)
    (desired current : List A) (k : String) where
  count-missing :
      (ms ns : List A)
      → count
          (λ r. str_eq (key r) k)
          (missing_from (index_by key ns []) (order (index_by key ms [])))
        ≡ once (has_key key k ms && not (has_key key k ns))
  count-missing ms ns =
      count-missing_from key (λ r. str_eq (key r) k) (index_by key ns [])
        (order (index_by key ms []))
      ∙ ordered _ (index_by key ms [])
      ∙ count-keyed key k (index_by key ns []) (index_by key ms []) (index_by-IsKeyed key ms [] tt)
          (index_by-NodupKeys key ms [] tt)
      ∙ ap₂ (λ a b. once (a && not b)) (has-index_by key k ms []) (has-index_by key k ns [])

  -- A key is added, once, exactly if a desired element has it and no current one does.
  pub count-diff_by-add :
      count (λ r. str_eq (key r) k) (diff_by key order desired current).0
      ≡ once (has_key key k desired && not (has_key key k current))
  unfolding diff_by
  count-diff_by-add = count-missing desired current

  -- A key is removed, once, exactly if a current element has it and no desired one does.
  pub count-diff_by-remove :
      count (λ r. str_eq (key r) k) (diff_by key order desired current).1
      ≡ once (has_key key k current && not (has_key key k desired))
  unfolding diff_by
  count-diff_by-remove = count-missing current desired

module _ {A : Type 0} (key : A → String) (order : GoMap A → GoMap A) (ordered : IsOrder order)
    (f : A → Bool) where
  any-missing_from :
      (other m : GoMap A)
      → any f (missing_from other m) ≡ true
      → any (λ (e : String × A). f e.1) m ≡ true
  unfolding missing_from
  any-missing_from other [] h = h
  any-missing_from other ((k, r) ∷ m) h = ground (arith, any-missing_from other m)

  any-insert :
      (r : A) (k : String) (m : GoMap A)
      → any (λ (e : String × A). f e.1) (insert k r m) ≡ true
      → (f r || any (λ (e : String × A). f e.1) m) ≡ true
  unfolding insert
  any-insert r k [] h = h
  any-insert r k ((j, w) ∷ m) h = ground (arith, any-insert r k m)

  any-index_by :
      (rs : List A) (m : GoMap A)
      → any (λ (e : String × A). f e.1) (index_by key rs m) ≡ true
      → (any f rs || any (λ (e : String × A). f e.1) m) ≡ true
  unfolding index_by
  any-index_by [] m h = h
  any-index_by (r ∷ rs) m h =
      ground (arith, any-index_by rs (insert (key r) r m), any-insert r (key r) m)

  any-missing :
      (ms ns : List A)
      → any f (missing_from (index_by key ns []) (order (index_by key ms []))) ≡ true
      → any f ms ≡ true
  any-missing ms ns h =
      let listed = any-missing_from (index_by key ns []) (order (index_by key ms [])) h in
      let same = any_of_count (λ (e : String × A). f e.1) _ _ (ordered _ (index_by key ms [])) in
      ground (arith, any-index_by ms [] (sym same ∙ listed))

  -- Whatever is added is desired, and whatever is removed is current.
  pub any-diff_by :
      (desired current : List A)
      → (any f (diff_by key order desired current).0 ≡ true → any f desired ≡ true)
        × (any f (diff_by key order desired current).1 ≡ true → any f current ≡ true)
  unfolding diff_by
  any-diff_by desired current = (any-missing desired current, any-missing current desired)
