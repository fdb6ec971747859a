-- ===== src/Base/Numbers.antt =====
-- Division by powers of two: shifting right in two steps, and the blocks of the two halves.
use Prim.Native.Nat.add
use Prim.Native.Nat.{ℕ, zero, suc, ◌+◌, ◌-◌, ◌*◌, ◌/◌, ◌^◌, ◌≤◌}
use mathlib.Core.Path.{◌≡◌, sym, ap, ◌∙◌, subst}
use mathlib.Core.Logic.{◌≢◌, ◌⊎◌}
use native.Mathlib.Omega.{arith}
use native.Mathlib.Nat.{pow-suc, div-div-eq-div-mul, mul-div_cancel, one-le-pow, div-mul-le_self}

pub div-pow-suc : (n k : ℕ) → n / 2 ^ suc k ≡ n / 2 ^ k / 2
div-pow-suc n k = rw pow-suc (sym (div-div-eq-div-mul n (2 ^ k) 2))

-- Equal blocks of size 2 ^ k lie in equal blocks of every larger size.
div-pow_widen : (m n k : ℕ) → m / 2 ^ k ≡ n / 2 ^ k → (d : ℕ) → m / 2 ^ (d + k) ≡ n / 2 ^ (d + k)
div-pow_widen m n k h zero = rw add.zero h
div-pow_widen m n k h (suc d) =
    simp (add.suc, div-pow-suc) (ap (λ t. t / 2) (div-pow_widen m n k h d))

pub div-pow_mono : (m n k l : ℕ) → k ≤ l → m / 2 ^ k ≡ n / 2 ^ k → m / 2 ^ l ≡ n / 2 ^ l
div-pow_mono m n k l le h =
    subst (λ t. m / 2 ^ t ≡ n / 2 ^ t) (omega arith) (div-pow_widen m n k h (l - k))

-- The block of a number is the block of its first element.
pub div-pow_base : (n k : ℕ) → n / 2 ^ k * 2 ^ k / 2 ^ k ≡ n / 2 ^ k
div-pow_base n k = mul-div_cancel (n / 2 ^ k) (one-le-pow k 2 (omega arith))

-- A number that begins a block is at most every number of it.
pub block_start : (n m k : ℕ) → n / 2 ^ k * 2 ^ k ≡ n → n / 2 ^ k ≡ m / 2 ^ k → n ≤ m
block_start n m k start same =
    let below : m / 2 ^ k * 2 ^ k ≤ m = div-mul-le_self m (2 ^ k) in
    subst (λ t. t ≤ m) (sym (ap (λ t. t * 2 ^ k) same) ∙ start) below

-- Of two distinct blocks with one parent, every block with that parent is one.
pub half_blocks :
    (a b x k : ℕ)
    → a / 2 ^ k ≢ b / 2 ^ k
    → a / 2 ^ suc k ≡ b / 2 ^ suc k
    → x / 2 ^ suc k ≡ a / 2 ^ suc k
    → (x / 2 ^ k ≡ a / 2 ^ k) ⊎ (x / 2 ^ k ≡ b / 2 ^ k)
half_blocks a b x k ne e f = omega (
  arith,
  sym (div-pow-suc a k) ∙ e ∙ div-pow-suc b k,
  sym (div-pow-suc x k) ∙ f ∙ div-pow-suc a k,
)
