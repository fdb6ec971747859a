-- ===== src/Netip/Classes.antt =====
-- The classes of addresses of net/netip, netip.AddrFromSlice and Addr.Unmap.
use route_sync.Base.{
  zero, suc, ◌++◌, ℕ, ◌+◌, ◌*◌, ◌-◌, ◌/◌, ◌%◌, ◌^◌, Bool, true, false, not, ◌&&◌, ◌||◌, Option,
  none, some, List, [], ◌∷◌, length, ◌==◌, if◌then◌else◌,
}
use route_sync.Netip.{Addr, zero_addr, ip4, ip6, eqb_addr}

-- Addr.IsPrivate: 10/8, 172.16/12, 192.168/16 and fc00::/7
unfoldable pub is_private : Addr → Bool
is_private zero_addr = false
is_private (ip4 n) = n / 2 ^ 24 == 10 || n / 2 ^ 20 == 0xac1 || n / 2 ^ 16 == 0xc0a8
is_private (ip6 n z) = n / 2 ^ 121 == 0x7e

-- Addr.IsLoopback: 127/8 and ::1
unfoldable pub is_loopback : Addr → Bool
is_loopback zero_addr = false
is_loopback (ip4 n) = n / 2 ^ 24 == 127
is_loopback (ip6 n z) = n == 1

-- Addr.IsLinkLocalUnicast: 169.254/16 and fe80::/10
unfoldable pub is_link_local_unicast : Addr → Bool
is_link_local_unicast zero_addr = false
is_link_local_unicast (ip4 n) = n / 2 ^ 16 == 0xa9fe
is_link_local_unicast (ip6 n z) = n / 2 ^ 118 == 0x3fa

-- Addr.IsMulticast: 224/4 and ff00::/8
unfoldable pub is_multicast : Addr → Bool
is_multicast zero_addr = false
is_multicast (ip4 n) = n / 2 ^ 28 == 14
is_multicast (ip6 n z) = n / 2 ^ 120 == 255

-- The addresses that Addr.IsGlobalUnicast refuses by value: unspecified and broadcast.
abbrev is_special : Addr → Bool
is_special zero_addr = true
is_special (ip4 n) = n == 0 || n == 2 ^ 32 - 1
is_special (ip6 n z) = eqb_addr (ip6 n z) (ip6 0 "")

-- Addr.IsGlobalUnicast
unfoldable pub is_global_unicast : Addr → Bool
unfolding is_loopback is_multicast is_link_local_unicast eqb_addr
is_global_unicast a =
    not (is_special a)
    && not (is_loopback a)
    && not (is_multicast a)
    && not (is_link_local_unicast a)

abbrev pub bytes_value : ℕ → List ℕ → ℕ
bytes_value acc [] = acc
bytes_value acc (b ∷ bs) = bytes_value (acc * 256 + b) bs

-- netip.AddrFromSlice, over the bytes of the slice
unfoldable pub addr_from_slice : List ℕ → Option Addr
addr_from_slice bytes =
    if length bytes == 4
    then some (ip4 (bytes_value 0 bytes))
    else if length bytes == 16
    then some (ip6 (bytes_value 0 bytes) "")
    else none

-- Addr.Unmap
unfoldable pub unmap : Addr → Addr
unmap (ip6 n z) = if n / 2 ^ 32 == 0xffff then ip4 (n % 2 ^ 32) else ip6 n z
unmap a = a

-- The last k bytes of a number, the highest first.
unfoldable pub low_bytes : ℕ → ℕ → List ℕ
low_bytes zero n = []
low_bytes (suc k) n = low_bytes k (n / 256) ++ (n % 256 ∷ [])

-- Addr.AsSlice, which is nil for the zero Addr
unfoldable pub as_slice : Addr → List ℕ
unfolding low_bytes
as_slice zero_addr = []
as_slice (ip4 n) = low_bytes 4 n
as_slice (ip6 n z) = low_bytes 16 n
