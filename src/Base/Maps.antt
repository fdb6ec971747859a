-- ===== src/Base/Maps.antt =====
-- Go maps with string keys as association lists: the last value that was set counts. Go leaves
-- the order of `range` open; code that ranges over a map takes the order as an argument.
use route_sync.Base.{
  ◌≡◌, refl, String, Bool, true, false, ◌||◌, Option, none, some, List, [], ◌∷◌, arith, str_eq,
  str_eq_iff, any, count, if◌then◌else◌, ◌↔◌, ◌⊎◌, inl, inr, Option-cases,
}

abbrev pub GoMap {ℓ} : Type ℓ → Type ℓ
GoMap V = List (String × V)

module _ {ℓ} {V : Type ℓ} where
  unfoldable pub lookup : String → GoMap V → Option V
  lookup k [] = none
  lookup k ((j, v) ∷ m) = if str_eq j k then some v else lookup k m

  -- `m[k] = v`
  unfoldable pub insert : String → V → GoMap V → GoMap V
  insert k v [] = (k, v) ∷ []
  insert k v ((j, w) ∷ m) = if str_eq j k then (k, v) ∷ m else (j, w) ∷ insert k v m

  abbrev pub has : String → GoMap V → Bool
  has k m = any (λ (e : String × V). str_eq e.0 k) m

  pub lookup-insert :
      (k j : String) (v : V) (m : GoMap V)
      → lookup j (insert k v m) ≡ (if str_eq k j then some v else lookup j m)
  unfolding lookup insert
  lookup-insert k j v [] = refl
  lookup-insert k j v ((i, w) ∷ m) =
      ground (arith, str_eq_iff k j, str_eq_iff i k, str_eq_iff i j, lookup-insert k j v m)

  pub has-insert :
      (k j : String) (v : V) (m : GoMap V) → has j (insert k v m) ≡ (str_eq k j || has j m)
  unfolding insert
  has-insert k j v [] = refl
  has-insert k j v ((i, w) ∷ m) =
      ground (arith, str_eq_iff k j, str_eq_iff i k, str_eq_iff i j, has-insert k j v m)

-- An order of `range`: the entries of the map, each as often.
abbrev pub IsOrder {ℓ} : {V : Type ℓ} → (GoMap V → GoMap V) → Type ℓ
IsOrder {V} order = (f : String × V → Bool) (m : GoMap V) → count f (order m) ≡ count f m

module _ {ℓ} {V : Type ℓ} where
  abbrev pub NodupKeys : GoMap V → Type 0
  NodupKeys [] = Unit
  NodupKeys ((k, v) ∷ m) = (has k m ≡ false) × NodupKeys m

  pub insert-NodupKeys : (k : String) (v : V) (m : GoMap V) → NodupKeys m → NodupKeys (insert k v m)
  unfolding insert
  insert-NodupKeys k v [] u = (refl, tt)
  insert-NodupKeys k v ((j, w) ∷ m) (fresh, u) =
      ground (arith, str_eq_iff j k, str_eq_iff k j, has-insert k j v m, insert-NodupKeys k v m u)

  has-lookup : (k : String) (m : GoMap V) → (lookup k m ≡ none) ↔ (has k m ≡ false)
  unfolding lookup
  has-lookup k [] = (λ _. refl, λ _. refl)
  has-lookup k ((j, v) ∷ m) = ground (arith, has-lookup k m)

  pub lookup-cases :
      (k : String) (m : GoMap V)
      → ((lookup k m ≡ none) × (has k m ≡ false))
        ⊎ ((v : V) × (lookup k m ≡ some v) × (has k m ≡ true))
  lookup-cases k m = elim (Option-cases (lookup k m)) [
    | inl e ↦ inl (e, (has-lookup k m).0 e)
    | inr (v, e) ↦ inr (v, e, ground (arith, has-lookup k m))
  ]
