-- ===== src/Source/Sorting/Commutes.antt =====
-- sortPrefixes of internal/source/source.go on prefixes without zones, which masked ones are.
use Prim.Native.Nat.{Ordering}
use Prim.Native.String.{compare as compare_str}
use text.Mathlib.TextPositions.{compare_refl}
use route_sync.Base.{
  ℕ, zero, suc, leb, ◌≡◌, refl, sym, ◌∙◌, ap, String, true, false, ◌&&◌, ◌||◌, List, [], ◌∷◌, All,
  ltb, ◌==◌, arith, if◌then◌else◌, Bool-cases, inl, inr,
}
use route_sync.Base.Int.{ltb_ℤ}
use route_sync.Netip.{
  Addr, Prefix, zero_addr, ip4, ip6, less, bits, addr_prefix, prefix_from, masked,
}
use route_sync.Source.Sorting.{prefix_less, insert_prefix}

abbrev pub zone_of : Addr → String
zone_of zero_addr = ""
zone_of (ip4 n) = ""
zone_of (ip6 n z) = z

abbrev pub IsPlain : Prefix → Type 0
IsPlain p = zone_of p.ip ≡ ""

addr_prefix-IsPlain : (i : Addr) (c : ℕ) → IsPlain (addr_prefix i c)
unfolding addr_prefix prefix_from
addr_prefix-IsPlain zero_addr c = refl
addr_prefix-IsPlain (ip4 n) zero = refl
addr_prefix-IsPlain (ip6 n z) zero = refl
addr_prefix-IsPlain (ip4 n) (suc b) = elim (Bool-cases (leb b 32)) [
  | inl fits ↦ rw fits refl
  | inr long ↦ rw long refl
]
addr_prefix-IsPlain (ip6 n z) (suc b) = elim (Bool-cases (leb b 128)) [
  | inl fits ↦ rw fits refl
  | inr long ↦ rw long refl
]

pub masked-IsPlain : (p : Prefix) → IsPlain (masked p)
unfolding masked
masked-IsPlain p = addr_prefix-IsPlain p.ip p.bits_plus_one

-- The kind of an address and its value.
abbrev pub kind : Addr → ℕ
kind zero_addr = 0
kind (ip4 n) = 1
kind (ip6 n z) = 2

abbrev pub value : Addr → ℕ
value zero_addr = 0
value (ip4 n) = n
value (ip6 n z) = n

less-plain :
    (a b : Addr)
    → zone_of a ≡ ""
    → zone_of b ≡ ""
    → less a b ≡ (ltb (kind a) (kind b) || (kind a == kind b && ltb (value a) (value b)))
unfolding less
less-plain zero_addr zero_addr h k = refl
less-plain zero_addr (ip4 m) h k = refl
less-plain zero_addr (ip6 m w) h k = refl
less-plain (ip4 n) zero_addr h k = refl
less-plain (ip4 n) (ip4 m) h k = refl
less-plain (ip4 n) (ip6 m w) h k = refl
less-plain (ip6 n z) zero_addr h k = refl
less-plain (ip6 n z) (ip4 m) h k = refl
less-plain (ip6 n z) (ip6 m w) h k =
    let same : compare_str z w ≡ Ordering.eq = ap (compare_str z) (k ∙ sym h) ∙ compare_refl z in
    ground (arith, same)

addr_of-plain :
    (a b : Addr) → zone_of a ≡ "" → zone_of b ≡ "" → kind a ≡ kind b → value a ≡ value b → a ≡ b
addr_of-plain zero_addr zero_addr h k e f = refl
addr_of-plain (ip4 n) (ip4 m) h k e f = ap ip4 f
addr_of-plain (ip6 n z) (ip6 m w) h k e f = cc
addr_of-plain _ _ h k e f = ground arith

less-bits : (p q : Prefix) → ltb_ℤ (bits p) (bits q) ≡ ltb p.bits_plus_one q.bits_plus_one
unfolding bits
less-bits p q = ground arith

-- The comparison of prefixes without zones, in numbers.
pub prefix_less-plain :
    (p q : Prefix)
    → IsPlain p
    → IsPlain q
    → prefix_less p q ≡ (
        ltb (kind p.ip) (kind q.ip)
        || (kind p.ip == kind q.ip
            && (ltb (value p.ip) (value q.ip)
                || (value p.ip == value q.ip && ltb p.bits_plus_one q.bits_plus_one))))
unfolding prefix_less
prefix_less-plain p q h k =
    ground (arith, less-plain p.ip q.ip h k, less-plain q.ip p.ip k h, less-bits p q)

pub less_between :
    (x p q : Prefix)
    → IsPlain x
    → IsPlain p
    → IsPlain q
    → prefix_less x p ≡ true
    → prefix_less x q ≡ false
    → prefix_less q p ≡ true
less_between x p q hx hp hq e f = ground (
  arith,
  prefix_less-plain x p hx hp,
  prefix_less-plain x q hx hq,
  prefix_less-plain q p hq hp,
  e,
  f,
)

pub less_asym :
    (p q : Prefix) → IsPlain p → IsPlain q → prefix_less p q ≡ true → prefix_less q p ≡ false
less_asym p q hp hq e = ground (arith, prefix_less-plain p q hp hq, prefix_less-plain q p hq hp, e)

pub less_neither :
    (p q : Prefix)
    → IsPlain p
    → IsPlain q
    → prefix_less p q ≡ false
    → prefix_less q p ≡ false
    → p ≡ q
less_neither p q hp hq e f =
    let pq = prefix_less-plain p q hp hq in
    let qp = prefix_less-plain q p hq hp in
    let kinds : kind p.ip ≡ kind q.ip = ground (arith, pq, qp, e, f) in
    let values : value p.ip ≡ value q.ip = ground (arith, pq, qp, e, f) in
    let lengths : p.bits_plus_one ≡ q.bits_plus_one = ground (arith, pq, qp, e, f) in
    let same : p.ip ≡ q.ip = addr_of-plain p.ip q.ip hp hq kinds values in
    λ i. record { ip = same i; bits_plus_one = lengths i }

-- Two prefixes in front of a list, in order.
abbrev ordered_pair : Prefix → Prefix → List Prefix → List Prefix
ordered_pair p q xs = if prefix_less q p then q ∷ p ∷ xs else p ∷ q ∷ xs

ordered_pair_comm :
    (p q : Prefix) (xs : List Prefix)
    → IsPlain p
    → IsPlain q
    → ordered_pair p q xs ≡ ordered_pair q p xs
ordered_pair_comm p q xs hp hq =
    ground (arith, less_asym p q hp hq, less_asym q p hq hp, less_neither p q hp hq)

-- The order of two insertions does not matter.
pub insert_comm :
    (p q : Prefix) (xs : List Prefix)
    → IsPlain p
    → IsPlain q
    → All IsPlain xs
    → insert_prefix p (insert_prefix q xs) ≡ insert_prefix q (insert_prefix p xs)
unfolding insert_prefix
insert_comm p q [] hp hq h = ordered_pair_comm p q [] hp hq
insert_comm p q (x ∷ xs) hp hq (hx, h) = ground (
  arith,
  insert_comm p q xs hp hq h,
  ordered_pair_comm p q (x ∷ xs) hp hq,
  less_between x p q hx hp hq,
  less_between x q p hx hq hp,
)
