-- ===== src/Netip.antt =====
-- What the program uses of Go's net/netip: addresses, prefixes and the tests on them.
-- An address is the zero Addr, an IPv4 address or an IPv6 address with its zone. A Prefix has the
-- two fields of Go's struct, an address and bits + 1, which is 0 in an invalid prefix.
pub mod Laws
pub mod Text
pub mod Classes
use Prim.Native.Nat.{Ordering, compare}
use Prim.Native.String.{compare as compare_str}
use route_sync.Base.{
  ℕ, zero, suc, ◌-◌, ◌*◌, ◌/◌, ◌^◌, String, Bool, true, false, ◌&&◌, List, [], leb, ltb, ◌==◌,
  str_eq, if◌then◌else◌, not,
}
use route_sync.Base.Int.{ℤ, pos, negsuc}

pub data Addr : Type 0 where
  zero_addr : Addr
  ip4 : ℕ → Addr
  ip6 : ℕ → String → Addr

pub record Prefix : Type 0 where
  pub ip : Addr
  pub bits_plus_one : ℕ

-- Addr.IsValid, Addr.Is4, Addr.Is6
unfoldable pub is_valid_addr : Addr → Bool
is_valid_addr zero_addr = false
is_valid_addr _ = true

unfoldable pub is4 : Addr → Bool
is4 (ip4 n) = true
is4 _ = false

unfoldable pub is6 : Addr → Bool
is6 (ip6 n z) = true
is6 _ = false

unfoldable pub bit_len : Addr → ℕ
bit_len zero_addr = 0
bit_len (ip4 n) = 32
bit_len (ip6 n z) = 128

unfoldable pub without_zone : Addr → Addr
without_zone (ip6 n z) = ip6 n ""
without_zone a = a

-- `==` on Addr
unfoldable pub eqb_addr : Addr → Addr → Bool
eqb_addr zero_addr zero_addr = true
eqb_addr (ip4 n) (ip4 m) = n == m
eqb_addr (ip6 n z) (ip6 m w) = n == m && str_eq z w
eqb_addr _ _ = false

-- Addr.Less: by length, then by value, then by zone.
unfoldable pub less : Addr → Addr → Bool
less zero_addr zero_addr = false
less zero_addr _ = true
less (ip4 n) (ip4 m) = ltb n m
less (ip4 n) (ip6 m w) = true
less (ip6 n z) (ip6 m w) = elim (compare n m) [
  | Ordering.lt ↦ true
  | Ordering.eq ↦ elim (compare_str z w) [ Ordering.lt ↦ true | _ ↦ false ]
  | Ordering.gt ↦ false
]
less _ _ = false

-- Prefix{}
abbrev pub zero_prefix : Prefix
zero_prefix = record { ip = zero_addr; bits_plus_one = 0 }

-- Prefix.Bits, which is -1 for an invalid prefix
unfoldable pub bits : Prefix → ℤ
bits p = elim p.bits_plus_one [ zero ↦ negsuc 0 | suc b ↦ pos b ]

-- Prefix.IsValid
unfoldable pub is_valid : Prefix → Bool
is_valid p = elim p.bits_plus_one [ zero ↦ false | suc b ↦ true ]

-- netip.PrefixFrom
unfoldable pub prefix_from : Addr → ℤ → Prefix
unfolding without_zone is_valid_addr bit_len
prefix_from a (negsuc b) = record { ip = without_zone a; bits_plus_one = 0 }
prefix_from a (pos b) = record {
  ip = without_zone a;
  bits_plus_one = if is_valid_addr a && leb b (bit_len a) then suc b else 0;
}

-- Clears all but the first b of w bits.
abbrev pub mask : ℕ → ℕ → ℕ → ℕ
mask w b n = n / 2 ^ (w - b) * 2 ^ (w - b)

-- Addr.Prefix at bits + 1, with the error dropped as Prefix.Masked drops it
unfoldable pub addr_prefix : Addr → ℕ → Prefix
unfolding prefix_from
addr_prefix (ip4 n) (suc b) =
    if leb b 32 then prefix_from (ip4 (mask 32 b n)) (pos b) else zero_prefix
addr_prefix (ip6 n z) (suc b) =
    if leb b 128 then prefix_from (ip6 (mask 128 b n) z) (pos b) else zero_prefix
addr_prefix _ _ = zero_prefix

-- Prefix.Masked
unfoldable pub masked : Prefix → Prefix
unfolding addr_prefix
masked p = addr_prefix p.ip p.bits_plus_one

-- The same first b of w bits: the exclusive or, shifted right, is 0.
abbrev pub same_bits : ℕ → ℕ → ℕ → ℕ → Bool
same_bits w b n m = (n / 2 ^ (w - b)) == (m / 2 ^ (w - b))

unfoldable pub contains_at : ℕ → Addr → Addr → Bool
contains_at (suc b) (ip4 n) (ip4 m) = same_bits 32 b n m
contains_at (suc b) (ip6 n z) (ip6 m w) = str_eq w "" && same_bits 128 b n m
contains_at _ _ _ = false

-- Prefix.Contains
unfoldable pub contains : Prefix → Addr → Bool
unfolding contains_at
contains p a = contains_at p.bits_plus_one p.ip a

-- `==` on Prefix
unfoldable pub eqb_prefix : Prefix → Prefix → Bool
unfolding eqb_addr
eqb_prefix p q = eqb_addr p.ip q.ip && p.bits_plus_one == q.bits_plus_one
