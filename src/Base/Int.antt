-- ===== src/Base/Int.antt =====
-- Signed integers over the native numbers, under the library's names, for Go's `int`.
use route_sync.Base.{
  ◌*◌, ◌^◌, ℕ, zero, suc, ◌+◌, ◌-◌, ◌/◌, ◌%◌, String, ◌<>◌, ◌≡◌, Bool, arith, ltb, leb, ◌==◌,
  if◌then◌else◌,
}

-- `negsuc n` is -(n + 1).
pub data ℤ : Type 0 where
  pos : ℕ → ℤ
  negsuc : ℕ → ℤ

abbrev pub pos_part : ℤ → ℕ
pos_part (pos n) = n
pos_part (negsuc n) = 0

abbrev pub neg_part : ℤ → ℕ
neg_part (pos n) = 0
neg_part (negsuc n) = suc n

-- a - b, as an integer.
abbrev pub sub_ℕ : ℕ → ℕ → ℤ
sub_ℕ a b = if leb b a then pos (a - b) else negsuc (b - a - 1)

abbrev pub ltb_ℤ : ℤ → ℤ → Bool
ltb_ℤ a b = ltb (pos_part a + neg_part b) (pos_part b + neg_part a)

abbrev pub leb_ℤ : ℤ → ℤ → Bool
leb_ℤ a b = leb (pos_part a + neg_part b) (pos_part b + neg_part a)

abbrev pub eqb_ℤ : ℤ → ℤ → Bool
eqb_ℤ a b = (pos_part a + neg_part b) == (pos_part b + neg_part a)

pub eq_of_eqb_ℤ : (a b : ℤ) → eqb_ℤ a b ≡ Bool.true → a ≡ b
eq_of_eqb_ℤ a b h = ground arith

pub eqb_ℤ_refl : (a : ℤ) → eqb_ℤ a a ≡ Bool.true
eqb_ℤ_refl a = ground arith

-- x - 1
abbrev pub pred_ℤ : ℤ → ℤ
pred_ℤ (pos n) = elim n [ zero ↦ negsuc 0 | suc m ↦ pos m ]
pred_ℤ (negsuc n) = negsuc (suc n)

-- Decimal digits, with fuel for the digits left.
abbrev pub digit : ℕ → String
digit zero = "0"
digit (suc zero) = "1"
digit (suc (suc zero)) = "2"
digit (suc (suc (suc zero))) = "3"
digit (suc (suc (suc (suc zero)))) = "4"
digit (suc (suc (suc (suc (suc zero))))) = "5"
digit (suc (suc (suc (suc (suc (suc zero)))))) = "6"
digit (suc (suc (suc (suc (suc (suc (suc zero))))))) = "7"
digit (suc (suc (suc (suc (suc (suc (suc (suc zero)))))))) = "8"
digit _ = "9"

unfoldable pub digits : ℕ → ℕ → String
digits zero n = ""
digits (suc f) n =
    let higher = digits f (n / 10) in if ltb n 10 then digit n else higher <> digit (n % 10)

-- `%d`
unfoldable pub show_ℕ : ℕ → String
unfolding digits
show_ℕ n = digits (suc n) n

unfoldable pub show_ℤ : ℤ → String
unfolding show_ℕ
show_ℤ (pos n) = show_ℕ n
show_ℤ (negsuc n) = "-" <> show_ℕ (suc n)

-- A value modulo 2 ^ 64, as Go's 64-bit `int` holds it.
abbrev of_word : ℕ → ℤ
of_word r = if ltb r (2 ^ 63) then pos r else negsuc (2 ^ 64 - r - 1)

unfoldable pub wrap_int : ℤ → ℤ
wrap_int (pos n) = of_word (n % 2 ^ 64)
wrap_int (negsuc n) = of_word (2 ^ 64 - 1 - n % 2 ^ 64)

-- `a + b` and `a * b` on `int`
unfoldable pub add_int : ℤ → ℤ → ℤ
unfolding wrap_int
add_int a b = wrap_int (sub_ℕ (pos_part a + pos_part b) (neg_part a + neg_part b))

unfoldable pub mul_int : ℤ → ℤ → ℤ
unfolding wrap_int
mul_int a b = wrap_int (
    sub_ℕ (pos_part a * pos_part b + neg_part a * neg_part b)
      (pos_part a * neg_part b + neg_part a * pos_part b))
