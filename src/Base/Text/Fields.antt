-- ===== src/Base/Text/Fields.antt =====
-- Texts cut at a separator, and numbers read back from their decimal digits.
use Prim.Native.Char.{Char, code}
use Prim.Native.String.{[], ◌∷◌}
use text.Mathlib.TextLemmas.{
  append_cancel_left, nil-append, cons-append, head-eq_of_cons-eq, tail-eq_of_cons-eq,
}
use route_sync.Base.{
  ℕ, zero, suc, ◌+◌, ◌-◌, ◌*◌, ◌/◌, ◌%◌, ◌<◌, ◌≡◌, refl, sym, ◌∙◌, ap, ap₂, String, ◌<>◌, Bool,
  true, false, ◌||◌, ltb, ◌==◌, arith, Bool-cases, inl, inr,
}
use route_sync.Base.Int.{ℤ, pos, negsuc, digit, digits, show_ℕ, show_ℤ}
use route_sync.Base.Text.{has_any, count_any}

-- The text has no character that passes the test.
abbrev pub IsFree : (ℕ → Bool) → String → Type 0
IsFree test s = has_any test s ≡ false

pub has_any-append :
    (test : ℕ → Bool) (a b : String) → has_any test (a <> b) ≡ (has_any test a || has_any test b)
unfolding has_any
has_any-append test [] b = rw (nil-append b) refl
has_any-append test (c ∷ a) b = rw (cons-append c a b) (ground (arith, has_any-append test a b))

pub count_any-append :
    (test : ℕ → Bool) (a b : String) → count_any test (a <> b) ≡ count_any test a + count_any test b
unfolding count_any
count_any-append test [] b = rw (nil-append b) (omega arith)
count_any-append test (c ∷ a) b = rw (cons-append c a b) (omega (arith, count_any-append test a b))

pub count_any-IsFree : (test : ℕ → Bool) (s : String) → IsFree test s → count_any test s ≡ 0
unfolding count_any has_any
count_any-IsFree test [] h = refl
count_any-IsFree test (c ∷ s) h = ground (arith, h, count_any-IsFree test s)

-- The first separator cuts a text in one way.
pub cut_once :
    (test : ℕ → Bool) (m : Char)
    → test (code m) ≡ true
    → (a c b d : String) → IsFree test a
    → IsFree test c
    → a <> (m ∷ b) ≡ c <> (m ∷ d)
    → (a ≡ c) × (b ≡ d)
unfolding has_any
cut_once test m is [] [] b d h k e =
    (refl, tail-eq_of_cons-eq (rw (nil-append (m ∷ b), nil-append (m ∷ d)) at e))
cut_once test m is [] (y ∷ c) b d h k e =
    let same =
      ap (λ t. test (code t))
        (head-eq_of_cons-eq (rw (nil-append (m ∷ b), cons-append y c (m ∷ d)) at e)) in
    ground (arith, is, k, same)
cut_once test m is (x ∷ a) [] b d h k e =
    let same =
      ap (λ t. test (code t))
        (head-eq_of_cons-eq (rw (cons-append x a (m ∷ b), nil-append (m ∷ d)) at e)) in
    ground (arith, is, h, same)
cut_once test m is (x ∷ a) (y ∷ c) b d h k e =
    let f = rw (cons-append x a (m ∷ b), cons-append y c (m ∷ d)) at e in
    let (same, tails) =
      cut_once test m is a c b d (ground (arith, h)) (ground (arith, k)) (tail-eq_of_cons-eq f) in
    (ap₂ ◌∷◌ (head-eq_of_cons-eq f) same, tails)

digit-IsFree : (test : ℕ → Bool) (n : ℕ) → IsFree test "0123456789" → IsFree test (digit n)
unfolding has_any
digit-IsFree test zero h = ground arith
digit-IsFree test (suc zero) h = ground arith
digit-IsFree test (suc (suc zero)) h = ground arith
digit-IsFree test (suc (suc (suc zero))) h = ground arith
digit-IsFree test (suc (suc (suc (suc zero)))) h = ground arith
digit-IsFree test (suc (suc (suc (suc (suc zero))))) h = ground arith
digit-IsFree test (suc (suc (suc (suc (suc (suc zero)))))) h = ground arith
digit-IsFree test (suc (suc (suc (suc (suc (suc (suc zero))))))) h = ground arith
digit-IsFree test (suc (suc (suc (suc (suc (suc (suc (suc zero)))))))) h = ground arith
digit-IsFree test n h = ground arith

digits-IsFree : (test : ℕ → Bool) (f n : ℕ) → IsFree test "0123456789" → IsFree test (digits f n)
unfolding digits has_any
digits-IsFree test zero n h = refl
digits-IsFree test (suc f) n h = ground (
  arith,
  digits-IsFree test f (n / 10) h,
  digit-IsFree test n h,
  digit-IsFree test (n % 10) h,
  has_any-append test (digits f (n / 10)) (digit (n % 10)),
)

abbrev read : ℕ → String → ℕ
read acc [] = acc
read acc (c ∷ s) = read (acc * 10 + (code c - 48)) s

read-append : (acc : ℕ) (a b : String) → read acc (a <> b) ≡ read (read acc a) b
read-append acc [] b = rw (nil-append b) refl
read-append acc (c ∷ a) b = rw (cons-append c a b) (read-append (acc * 10 + (code c - 48)) a b)

read-digit : (acc n : ℕ) → n < 10 → read acc (digit n) ≡ acc * 10 + n
read-digit acc zero h = omega arith
read-digit acc (suc zero) h = omega arith
read-digit acc (suc (suc zero)) h = omega arith
read-digit acc (suc (suc (suc zero))) h = omega arith
read-digit acc (suc (suc (suc (suc zero)))) h = omega arith
read-digit acc (suc (suc (suc (suc (suc zero))))) h = omega arith
read-digit acc (suc (suc (suc (suc (suc (suc zero)))))) h = omega arith
read-digit acc (suc (suc (suc (suc (suc (suc (suc zero))))))) h = omega arith
read-digit acc (suc (suc (suc (suc (suc (suc (suc (suc zero)))))))) h = omega arith
read-digit acc (suc (suc (suc (suc (suc (suc (suc (suc (suc zero))))))))) h = omega arith
read-digit acc n h = absurd (omega arith)

read-digits : (f n : ℕ) → n < f → read 0 (digits f n) ≡ n
unfolding digits
read-digits zero n h = absurd (omega arith)
read-digits (suc f) n h = elim (Bool-cases (ltb n 10)) [
  | inl short ↦ rw short (read-digit 0 n (ground arith) ∙ omega arith)
  | inr long ↦ rw long (
      read-append 0 (digits f (n / 10)) (digit (n % 10))
      ∙ read-digit (read 0 (digits f (n / 10))) (n % 10) (omega arith)
      ∙ ap (λ t. t * 10 + n % 10) (read-digits f (n / 10) (ground arith))
      ∙ omega arith)
]

abbrev is_minus : ℕ → Bool
is_minus c = c == 45

-- Digits and signs have no separator that is neither.
pub show_ℕ-IsFree : (test : ℕ → Bool) (n : ℕ) → IsFree test "0123456789" → IsFree test (show_ℕ n)
unfolding show_ℕ
show_ℕ-IsFree test n h = digits-IsFree test (suc n) n h

pub show_ℤ-IsFree :
    (test : ℕ → Bool) (a : ℤ) → IsFree test "0123456789" → test 45 ≡ false → IsFree test (show_ℤ a)
unfolding show_ℤ has_any
show_ℤ-IsFree test (pos n) h m = show_ℕ-IsFree test n h
show_ℤ-IsFree test (negsuc n) h m =
    ground (arith, has_any-append test "-" (show_ℕ (suc n)), show_ℕ-IsFree test (suc n) h)

read-show_ℕ : (n : ℕ) → read 0 (show_ℕ n) ≡ n
unfolding show_ℕ
read-show_ℕ n = read-digits (suc n) n (omega arith)

pub show_ℕ_injective : (m n : ℕ) → show_ℕ m ≡ show_ℕ n → m ≡ n
show_ℕ_injective m n e = sym (read-show_ℕ m) ∙ ap (read 0) e ∙ read-show_ℕ n

minus-IsFree : (n : ℕ) → IsFree is_minus (show_ℕ n)
unfolding has_any
minus-IsFree n = show_ℕ-IsFree is_minus n refl

minus_sign : (n : ℕ) → has_any is_minus (show_ℤ (negsuc n)) ≡ true
unfolding show_ℤ has_any
minus_sign n = has_any-append is_minus "-" (show_ℕ (suc n))

pub show_ℤ_injective : (a b : ℤ) → show_ℤ a ≡ show_ℤ b → a ≡ b
unfolding show_ℤ
show_ℤ_injective (pos m) (pos n) e = ap pos (show_ℕ_injective m n e)
show_ℤ_injective (pos m) (negsuc n) e =
    ground (arith, minus-IsFree m, minus_sign n, ap (has_any is_minus) e)
show_ℤ_injective (negsuc m) (pos n) e =
    ground (arith, minus-IsFree n, minus_sign m, ap (has_any is_minus) e)
show_ℤ_injective (negsuc m) (negsuc n) e =
    let same : suc m ≡ suc n = show_ℕ_injective (suc m) (suc n) (append_cancel_left "-" _ _ e) in
    ap negsuc (omega (arith, same))

abbrev pub is_bar : ℕ → Bool
is_bar c = c == 124

-- The first bar cuts a text in one way.
pub cut_bar :
    (a c b d : String)
    → IsFree is_bar a
    → IsFree is_bar c
    → a <> ("|" <> b) ≡ c <> ("|" <> d)
    → (a ≡ c) × (b ≡ d)
cut_bar a c b d h k e = cut_once is_bar bar refl a c b d h k (rw (bar-cons b, bar-cons d) at e)
  where
    bar : Char
    bar = "|"

    bar-cons : (s : String) → "|" <> s ≡ (bar ∷ s)
    bar-cons s = cons-append bar "" s ∙ ap (λ t. bar ∷ t) (nil-append s)

pub show_ℤ_bar : (a : ℤ) → IsFree is_bar (show_ℤ a)
unfolding has_any
show_ℤ_bar a = show_ℤ-IsFree is_bar a refl refl

pub show_ℕ_bar : (n : ℕ) → IsFree is_bar (show_ℕ n)
unfolding has_any
show_ℕ_bar n = show_ℕ-IsFree is_bar n refl
