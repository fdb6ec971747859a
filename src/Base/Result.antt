-- ===== src/Base/Result.antt =====
-- Go's `(A, error)`: a value or an error with its message. A method with effects takes the state
-- of its world and returns the new one beside its result, on errors too.
use route_sync.Base.{String, ◌≡◌, refl, ap, List, [], ◌∷◌}

pub data Result {ℓ} (A : Type ℓ) : Type ℓ where
  ok : A → Result A
  err : String → Result A

infixl 10 ◌>>=◌
abbrev pub ◌>>=◌ {ℓ κ} : {A : Type ℓ} {B : Type κ} → Result A → (A → Result B) → Result B
ok a >>= f = f a
err e >>= f = err e

abbrev pub Action {ℓ} : Type ℓ → Type ℓ → Type ℓ
Action S A = S → Result A × S

module _ {ℓ} {S : Type ℓ} {A : Type ℓ} where
  -- `if err := m; err != nil { return err }`, and the rest
  abbrev pub after_ok {κ} : {B : Type κ} → Result A × S → (A → S → B) → (String → S → B) → B
  after_ok (ok a, s) next fail = next a s
  after_ok (err e, s) next fail = fail e s

  -- `for _, x := range xs { if err := body(x); err != nil { return err } }`
  abbrev pub for_each {κ} : {X : Type κ} → (X → Action S A) → List X → S → Result (Unit {0}) × S
  for_each body [] s = (ok tt, s)
  for_each body (x ∷ xs) s = after_ok (body x s) (λ _ t. for_each body xs t) (λ e t. (err e, t))

module _ {ℓ} {A : Type ℓ} where
  pub err≢ok : (e : String) (a : A) → ◌≡◌ {A = Result A} (err e) (ok a) → ⊥
  err≢ok e a h = cc

  ok-injective : (a b : A) → ◌≡◌ {A = Result A} (ok a) (ok b) → a ≡ b
  ok-injective a b h = cc

-- A run that ends well: each part ended well, and left what the next one started from.
module _ {ℓ} {S A B : Type ℓ} where
  pub after_ok-eq-ok :
      (m : Result A × S) (next : A → S → Result B × S) {b : B} {t : S}
      → after_ok m next (λ e u. (err e, u)) ≡ (ok b, t)
      → (a : A) × (s : S) × (m ≡ (ok a, s)) × (next a s ≡ (ok b, t))
  after_ok-eq-ok (ok a, s) next h = (a, s, refl, h)
  after_ok-eq-ok (err e, s) next {b} h = absurd (err≢ok e b (ap (λ p. p.0) h))

module _ {ℓ} {S A : Type ℓ} where
  pub value_of_eq : {a b : A} {s t : S} → ◌≡◌ {A = Result A × S} (ok a, s) (ok b, t) → a ≡ b
  value_of_eq {a} {b} h = ok-injective a b (ap (λ p. p.0) h)

  pub state_of_eq : {a b : Result A} {s t : S} → ◌≡◌ {A = Result A × S} (a, s) (b, t) → s ≡ t
  state_of_eq h = ap (λ p. p.1) h

-- A predicate on states that holds after a run holds after what goes on from there.
pub after_ok-keeps {ℓ κ μ} :
    {S A : Type ℓ} {B : Type κ} (P : S → Type μ) (m : Result A × S) (next : A → S → B × S)
    (fail : String → S → B × S)
    → P m.1
    → ((a : A) (t : S) → P t → P (next a t).1)
    → ((e : String) (t : S) → P t → P (fail e t).1)
    → P (after_ok m next fail).1
after_ok-keeps P (ok a, s) next fail h n f = n a s h
after_ok-keeps P (err e, s) next fail h n f = f e s h
