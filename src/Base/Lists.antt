-- ===== src/Base/Lists.antt =====
-- Lists measured by native numbers, Boolean searches and filters, and a predicate on all elements.
use Prim.Native.Nat.{ℕ, suc, ◌+◌, ◌≤◌}
use mathlib.Core.Path.{◌≡◌, refl, sym, ap, ◌∙◌}
use mathlib.Core.Bool.{Bool, true, false, ◌||◌, ◌&&◌}
use mathlib.Core.Logic.{inl, inr}
use mathlib.Core.List.{List, [], ◌∷◌, ◌++◌, map}
use native.Mathlib.Omega.{arith}
use package.route_sync.Base.Tests.{ltb, if◌then◌else◌, Bool-cases}

-- 1 for true, as a count.
abbrev pub once : Bool → ℕ
once b = if b then 1 else 0

module _ {ℓ} {A : Type ℓ} where
  abbrev pub length : List A → ℕ
  length [] = 0
  length (x ∷ xs) = suc (length xs)

  abbrev pub any : (A → Bool) → List A → Bool
  any p [] = false
  any p (x ∷ xs) = p x || any p xs

  abbrev pub all : (A → Bool) → List A → Bool
  all p [] = true
  all p (x ∷ xs) = p x && all p xs

  abbrev pub count : (A → Bool) → List A → ℕ
  count p [] = 0
  count p (x ∷ xs) = if p x then suc (count p xs) else count p xs

  -- The loop `for _, x := range xs { if p(x) { out = append(out, x) } }`.
  abbrev pub keep : (A → Bool) → List A → List A
  keep p [] = []
  keep p (x ∷ xs) = if p x then x ∷ keep p xs else keep p xs

  abbrev pub All {κ} : (A → Type κ) → List A → Type κ
  All P [] = Unit
  All P (x ∷ xs) = P x × All P xs

module _ {ℓ} {A : Type ℓ} where
  pub length-append : (xs ys : List A) → length (xs ++ ys) ≡ length xs + length ys
  length-append [] ys = omega arith
  length-append (x ∷ xs) ys = omega (arith, length-append xs ys)

  pub append_nil : (xs : List A) → xs ++ [] ≡ xs
  append_nil [] = refl
  append_nil (x ∷ xs) = ap (λ l. x ∷ l) (append_nil xs)

  pub append_assoc : (xs ys zs : List A) → xs ++ (ys ++ zs) ≡ (xs ++ ys) ++ zs
  append_assoc [] ys zs = refl
  append_assoc (x ∷ xs) ys zs = ap (λ l. x ∷ l) (append_assoc xs ys zs)

  pub any-append : (p : A → Bool) (xs ys : List A) → any p (xs ++ ys) ≡ (any p xs || any p ys)
  any-append p [] ys = refl
  any-append p (x ∷ xs) ys = ground (arith, any-append p xs ys)

  pub count-append : (p : A → Bool) (xs ys : List A) → count p (xs ++ ys) ≡ count p xs + count p ys
  count-append p [] ys = omega arith
  count-append p (x ∷ xs) ys = ground (arith, count-append p xs ys)

  pub any-keep : (p q : A → Bool) (xs : List A) → any p (keep q xs) ≡ any (λ x. q x && p x) xs
  any-keep p q [] = refl
  any-keep p q (x ∷ xs) = ground (arith, any-keep p q xs)

  pub count-keep : (p q : A → Bool) (xs : List A) → count p (keep q xs) ≡ count (λ x. q x && p x) xs
  count-keep p q [] = refl
  count-keep p q (x ∷ xs) = ground (arith, count-keep p q xs)

  any-count : (p : A → Bool) (xs : List A) → any p xs ≡ ltb 0 (count p xs)
  any-count p [] = refl
  any-count p (x ∷ xs) = ground (arith, any-count p xs)

  -- Lists that agree on a count agree on there being any.
  pub any_of_count : (p : A → Bool) (xs ys : List A) → count p xs ≡ count p ys → any p xs ≡ any p ys
  any_of_count p xs ys h = any-count p xs ∙ ap (ltb 0) h ∙ sym (any-count p ys)

  pub any_of_once : (p : A → Bool) (xs : List A) (b : Bool) → count p xs ≡ once b → any p xs ≡ b
  any_of_once p xs true h = ground (arith, any-count p xs, h)
  any_of_once p xs false h = ground (arith, any-count p xs, h)

  -- A list counted in two parts.
  pub any_of_parts :
      (p : A → Bool) (xs ys zs : List A)
      → count p xs + count p ys ≡ count p zs
      → (any p xs || any p ys) ≡ any p zs
  any_of_parts p xs ys zs h = ground (arith, any-count p xs, any-count p ys, any-count p zs)

  pub any-map {κ} :
      {B : Type κ} (p : B → Bool) (f : A → B) (xs : List A)
      → any p (map f xs) ≡ any (λ x. p (f x)) xs
  any-map p f [] = refl
  any-map p f (x ∷ xs) = ground (arith, any-map p f xs)

  pub keep-append : (q : A → Bool) (xs ys : List A) → keep q (xs ++ ys) ≡ keep q xs ++ keep q ys
  keep-append q [] ys = refl
  keep-append q (x ∷ xs) ys = ground (arith, keep-append q xs ys)

  pub length-keep : (q : A → Bool) (xs : List A) → length (keep q xs) ≤ length xs
  length-keep q [] = omega arith
  length-keep q (x ∷ xs) = ground (arith, length-keep q xs)

  pub any_mono :
      (p q : A → Bool)
      → ((x : A) → p x ≡ true → q x ≡ true)
      → (xs : List A) → any p xs ≡ true
      → any q xs ≡ true
  any_mono p q h [] e = e
  any_mono p q h (x ∷ xs) e = ground (arith, h x, any_mono p q h xs)

  pub any-ext : (p q : A → Bool) (xs : List A) → ((x : A) → p x ≡ q x) → any p xs ≡ any q xs
  any-ext p q [] h = refl
  any-ext p q (x ∷ xs) h = ground (arith, h x, any-ext p q xs h)

  pub any-or : (p q : A → Bool) (xs : List A) → any (λ x. p x || q x) xs ≡ (any p xs || any q xs)
  any-or p q [] = refl
  any-or p q (x ∷ xs) = ground (arith, any-or p q xs)

  pub All-map {κ μ} :
      {P : A → Type κ} {Q : A → Type μ}
      → ((x : A) → P x → Q x)
      → (xs : List A) → All P xs
      → All Q xs
  All-map f [] h = tt
  All-map f (x ∷ xs) h = (f x h.0, All-map f xs h.1)

  pub All-append {κ} : (P : A → Type κ) (xs ys : List A) → All P xs → All P ys → All P (xs ++ ys)
  All-append P [] ys hx hy = hy
  All-append P (x ∷ xs) ys hx hy = (hx.0, All-append P xs ys hx.1 hy)

-- x is an element of xs: every test that it passes, some element passes.
abbrev pub In : {A : Type 0} → A → List A → Type 0
In {A} x xs = (f : A → Bool) → f x ≡ true → any f xs ≡ true

module _ {A : Type 0} where
  -- An element that passes a test that some element passes.
  pub find_any : (p : A → Bool) (xs : List A) → any p xs ≡ true → (x : A) × (p x ≡ true) × In x xs
  find_any p [] e = cc
  find_any p (x ∷ xs) e = elim (Bool-cases (p x)) [
    | inl h ↦ (x, h, λ f k. ground (arith, k))
    | inr h ↦
        let (y, k, i) = find_any p xs (ground (arith, e, h)) in (y, k, λ f m. ground (arith, i f m))
  ]

  pub none_of : (p : A → Bool) (xs : List A) → ((x : A) → In x xs → p x ≡ false) → any p xs ≡ false
  none_of p xs h = elim (Bool-cases (any p xs)) [
    | inl e ↦ let (x, k, i) = find_any p xs e in ground (arith, h x i, k)
    | inr e ↦ e
  ]

  pub fails_of : (p : A → Bool) (xs : List A) (x : A) → any p xs ≡ false → In x xs → p x ≡ false
  fails_of p xs x e i = ground (arith, i p)

  -- Every element of a list is in it.
  pub members : (xs : List A) → All (λ x. In x xs) xs
  members [] = tt
  members (x ∷ xs) =
      (λ f k. ground (arith, k), All-map (λ y i f k. ground (arith, i f k)) xs (members xs))
