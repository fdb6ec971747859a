-- ===== src/App/Locals/Masked.antt =====
-- addrPrefix and localNonPrivatePrefixes of internal/app/app.go on an interface's IPv4 address.
use route_sync.Base.{ℕ, suc, ◌≡◌, ◌≤◌, Bool, true, some, List, [], ◌∷◌, arith, any, if◌then◌else◌}
use route_sync.Base.Int.{pos}
use route_sync.Netip.{Addr, ip4, is4, eqb_addr, mask, masked, prefix_from}
use route_sync.Netip.Classes.{addr_from_slice, unmap}
use route_sync.Netip.Text.{NetipText}
use route_sync.App.Locals.{ip_net, addr_prefix, is_skipped, local_prefix}

addr_prefix-masked :
    (text : NetipText) (bytes : List ℕ) (ones n : ℕ) (a : Addr)
    → addr_from_slice bytes ≡ some a
    → unmap a ≡ ip4 n
    → ones ≤ 32
    → addr_prefix text (ip_net bytes ones)
      ≡ some (record { ip = ip4 (mask 32 ones n); bits_plus_one = suc ones })
unfolding addr_prefix masked prefix_from
addr_prefix-masked text bytes ones n a e f le = rw (e, addr_prefix, f) (ground arith)

-- Of a prefix whose address is m, only m can be listed.
listed_address :
    (n m : ℕ) (skipped : Bool)
    → any
        (λ p. eqb_addr p.ip (ip4 n))
        (if skipped
          then []
          else (if is4 (ip4 m) then prefix_from (ip4 m) (pos 32) else prefix_from (ip4 m) (pos 128))
            ∷ [])
      ≡ true
    → m ≡ n
unfolding eqb_addr prefix_from is4
listed_address n m skipped h = ground arith

-- An interface has the IPv4 address n and a mask of at most 32 ones: if n is among the addresses
-- that localNonPrivatePrefixes makes of the interface, then the mask leaves n as it is. So the
-- address of a host inside its network is never among them.
pub local_prefix-network :
    (text : NetipText) (bytes : List ℕ) (ones n : ℕ) (a : Addr)
    → addr_from_slice bytes ≡ some a
    → unmap a ≡ ip4 n
    → ones ≤ 32
    → any (λ p. eqb_addr p.ip (ip4 n)) (local_prefix text (ip_net bytes ones)) ≡ true
    → mask 32 ones n ≡ n
unfolding local_prefix
local_prefix-network text bytes ones n a e f le h =
    listed_address n (mask 32 ones n) (is_skipped (ip4 (mask 32 ones n)))
      (rw (addr_prefix-masked text bytes ones n a e f le, local_prefix) at h)
