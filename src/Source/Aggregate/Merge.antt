-- ===== src/Source/Aggregate/Merge.antt =====
-- mergePair of internal/source/aggregate.go.
use route_sync.Base.{
  ℕ, zero, suc, ◌-◌, ◌≡◌, ◌≢◌, ◌≤◌, refl, sym, ◌∙◌, ap, subst, true, false, ◌||◌, some, arith,
  ==_iff, div-pow_base, leb, ◌&&◌, String, str_eq, ◌==◌, ◌-◌, ◌/◌, ◌^◌, ◌*◌, div-pow-suc,
}
use text.Mathlib.TextPositions.{eq_refl}
use route_sync.Netip.{
  Addr, Prefix, ip4, ip6, zero_addr, bits, contains, masked, prefix_from, eqb_prefix, mask,
  same_bits,
}
use route_sync.Source.Aggregate.{merge_pair, parent_of, remasked}

halves : (n m x : ℕ) → n ≢ m → n / 2 ≡ m / 2 → (n / 2 == x / 2) ≡ (n == x || m == x)
halves n m x ne e = ground arith

merge_blocks :
    (k n m x : ℕ)
    → n / 2 ^ k ≢ m / 2 ^ k
    → n / 2 ^ suc k ≡ m / 2 ^ suc k
    → (n / 2 ^ suc k == x / 2 ^ suc k) ≡ (n / 2 ^ k == x / 2 ^ k || m / 2 ^ k == x / 2 ^ k)
merge_blocks k n m x = simp div-pow-suc (halves (n / 2 ^ k) (m / 2 ^ k) (x / 2 ^ k))

-- The numbers behind mergePair: x has the first b bits of n exactly if it has the first b + 1
-- bits of n or of m, where n and m share the first b bits and not the first b + 1.
merge_bits :
    (w b n m x : ℕ)
    → suc b ≤ w
    → mask w (suc b) n ≢ mask w (suc b) m
    → same_bits w b (mask w b n) m ≡ true
    → same_bits w b (mask w b n) x ≡ (same_bits w (suc b) n x || same_bits w (suc b) m x)
merge_bits w b n m x le ne e =
    let up : w - b ≡ suc (w - suc b) = omega arith in
    let shared : n / 2 ^ (w - b) ≡ m / 2 ^ (w - b) =
      sym (div-pow_base n (w - b)) ∙ (==_iff _ _).0 e in
    rw (div-pow_base n (w - b), up)
      (merge_blocks (w - suc b) n m x (λ h. ne (ap (λ t. t * 2 ^ (w - suc b)) h)) (rw up at shared))

abbrev at : Addr → ℕ → Prefix
at i c = record { ip = i; bits_plus_one = c }

-- What the tests of mergePair say when it returns a prefix.
record IsPair (a b : Prefix) : Type 0 where
  same_length : a.bits_plus_one ≡ b.bits_plus_one
  not_whole : a.bits_plus_one ≢ 1
  has_first : contains (parent_of a) a.ip ≡ true
  has_second : contains (parent_of a) b.ip ≡ true
  distinct : eqb_prefix (remasked a) (remasked b) ≡ false

merge_pair-IsPair : (a b q : Prefix) → merge_pair a b ≡ some q → IsPair a b × (q ≡ parent_of a)
unfolding merge_pair bits
merge_pair-IsPair a b q h = ground arith

parent_of_ip4 :
    (b n x : ℕ)
    → contains (parent_of (at (ip4 n) (suc (suc b)))) (ip4 x)
      ≡ (leb b 32 && same_bits 32 b (mask 32 b n) x)
unfolding contains parent_of masked prefix_from bits
parent_of_ip4 b n x = ground arith

parent_of_ip6 :
    (b n x : ℕ) (z w : String)
    → contains (parent_of (at (ip6 n z) (suc (suc b)))) (ip6 x w)
      ≡ (leb b 128 && str_eq w "" && same_bits 128 b (mask 128 b n) x)
unfolding contains parent_of masked prefix_from bits
parent_of_ip6 b n x z w = ground arith

-- The parent of an IPv4 prefix covers IPv4 addresses only, that of an IPv6 prefix IPv6 ones.
parent_of_families :
    (c n m : ℕ) (z w : String)
    → (contains (parent_of (at (ip4 n) c)) zero_addr ≡ false)
      × (contains (parent_of (at (ip4 n) c)) (ip6 m w) ≡ false)
      × (contains (parent_of (at (ip6 n z) c)) zero_addr ≡ false)
      × (contains (parent_of (at (ip6 n z) c)) (ip4 m) ≡ false)
      × (contains (parent_of (at zero_addr c)) zero_addr ≡ false)
unfolding contains parent_of masked prefix_from bits
parent_of_families zero n m z w = (refl, refl, refl, refl, refl)
parent_of_families (suc zero) n m z w = (refl, refl, refl, refl, refl)
parent_of_families (suc (suc b)) n m z w =
    (ground arith, ground arith, ground arith, ground arith, ground arith)

distinct_ip4 :
    (b n m : ℕ)
    → eqb_prefix (remasked (at (ip4 n) (suc (suc b)))) (remasked (at (ip4 m) (suc (suc b)))) ≡ false
    → (suc b ≤ 32) × (mask 32 (suc b) n ≢ mask 32 (suc b) m)
unfolding eqb_prefix remasked masked prefix_from bits
distinct_ip4 b n m h = ground arith

distinct_ip6 :
    (b n m : ℕ) (z w : String)
    → eqb_prefix (remasked (at (ip6 n z) (suc (suc b)))) (remasked (at (ip6 m w) (suc (suc b))))
      ≡ false
    → (suc b ≤ 128) × (mask 128 (suc b) n ≢ mask 128 (suc b) m)
unfolding eqb_prefix remasked masked prefix_from bits
distinct_ip6 b n m z w h = ground (arith, eq_refl "")

pair_ip4 :
    (b n m : ℕ) (x : Addr)
    → IsPair (at (ip4 n) (suc (suc b))) (at (ip4 m) (suc (suc b)))
    → contains (parent_of (at (ip4 n) (suc (suc b)))) x
      ≡ (contains (at (ip4 n) (suc (suc b))) x || contains (at (ip4 m) (suc (suc b))) x)
unfolding contains
pair_ip4 b n m zero_addr h = (parent_of_families (suc (suc b)) n 0 "" "").0
pair_ip4 b n m (ip6 x w) h = (parent_of_families (suc (suc b)) n x "" w).1
pair_ip4 b n m (ip4 x) h =
    let fits = distinct_ip4 b n m h.distinct in
    ground (
      arith,
      parent_of_ip4 b n x,
      parent_of_ip4 b n m,
      h.has_second,
      merge_bits 32 b n m x fits.0 fits.1,
    )

pair_ip6 :
    (b n m : ℕ) (z v : String) (x : Addr)
    → IsPair (at (ip6 n z) (suc (suc b))) (at (ip6 m v) (suc (suc b)))
    → contains (parent_of (at (ip6 n z) (suc (suc b)))) x
      ≡ (contains (at (ip6 n z) (suc (suc b))) x || contains (at (ip6 m v) (suc (suc b))) x)
unfolding contains
pair_ip6 b n m z v zero_addr h = (parent_of_families (suc (suc b)) n 0 z "").2
pair_ip6 b n m z v (ip4 x) h = (parent_of_families (suc (suc b)) n x z "").3
pair_ip6 b n m z v (ip6 x w) h =
    let fits = distinct_ip6 b n m z v h.distinct in
    ground (
      arith,
      parent_of_ip6 b n x z w,
      parent_of_ip6 b n m z v,
      h.has_second,
      merge_bits 128 b n m x fits.0 fits.1,
    )

no_parent : (i : Addr) → ¬ (contains (parent_of (at i 0)) i ≡ true)
unfolding contains parent_of masked prefix_from bits
no_parent zero_addr h = cc
no_parent (ip4 n) h = cc
no_parent (ip6 n z) h = cc

-- A prefix of no bits or of a zero address, and two families, fail a test.
pair_same :
    (c : ℕ) (i j x : Addr)
    → IsPair (at i c) (at j c)
    → contains (parent_of (at i c)) x ≡ (contains (at i c) x || contains (at j c) x)
pair_same (suc (suc b)) (ip4 n) (ip4 m) x h = pair_ip4 b n m x h
pair_same (suc (suc b)) (ip6 n z) (ip6 m v) x h = pair_ip6 b n m z v x h
pair_same c zero_addr j x h = cc (h.has_first, (parent_of_families c 0 0 "" "").4)
pair_same c (ip4 n) zero_addr x h = cc (h.has_second, (parent_of_families c n 0 "" "").0)
pair_same c (ip4 n) (ip6 m w) x h = cc (h.has_second, (parent_of_families c n m "" w).1)
pair_same c (ip6 n z) zero_addr x h = cc (h.has_second, (parent_of_families c n 0 z "").2)
pair_same c (ip6 n z) (ip4 m) x h = cc (h.has_second, (parent_of_families c n m z "").3)
pair_same (suc zero) i j x h = absurd (h.not_whole refl)
pair_same zero (ip4 n) (ip4 m) x h = absurd (no_parent (ip4 n) h.has_first)
pair_same zero (ip6 n z) (ip6 m v) x h = absurd (no_parent (ip6 n z) h.has_first)

pair_covers :
    (a b : Prefix) (x : Addr)
    → IsPair a b
    → contains (parent_of a) x ≡ (contains a x || contains b x)
pair_covers a b x h =
    subst
      (λ c.
        IsPair a (at b.ip c) → contains (parent_of a) x ≡ (contains a x || contains (at b.ip c) x))
      h.same_length (pair_same a.bits_plus_one a.ip b.ip x) h

-- The prefix that mergePair returns covers exactly what the two prefixes cover together.
pub contains-merge_pair :
    (a b q : Prefix) (x : Addr)
    → merge_pair a b ≡ some q
    → contains q x ≡ (contains a x || contains b x)
contains-merge_pair a b q x h =
    let (pair, e) = merge_pair-IsPair a b q h in rw e (pair_covers a b x pair)
