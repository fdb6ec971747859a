-- ===== src/App/Locals.antt =====
-- The addresses of the machine, and the exclusions of a group, in internal/app/app.go.
pub mod Masked
use route_sync.Base.{
  ℕ, String, Bool, true, false, not, ◌&&◌, ◌||◌, Option, none, some, List, [], ◌∷◌, ◌++◌, map,
  if◌then◌else◌,
}
use route_sync.Base.Int.{ℤ, pos}
use route_sync.Base.Result.{Result, ok, err, ◌>>=◌, Action, after_ok}
use route_sync.Netip.{Addr, Prefix, is4, is_valid_addr, prefix_from, masked}
use route_sync.Netip.Classes.{
  addr_from_slice, unmap, is_private, is_loopback, is_link_local_unicast, is_multicast,
  is_global_unicast,
}
use route_sync.Netip.Text.{NetipText}
use route_sync.Config.{TargetConfig}
use route_sync.Source.Sorting.{filter_family}
use route_sync.Source.Normalize.{normalize}

-- What net.InterfaceAddrs returns: a *net.IPNet with the bytes of its IP and the length of its
-- mask, or another net.Addr with its text.
pub data NetAddr : Type 0 where
  ip_net : List ℕ → ℕ → NetAddr
  other : String → NetAddr

-- addrPrefix
unfoldable pub addr_prefix : NetipText → NetAddr → Option Prefix
addr_prefix text (ip_net ip ones) = elim (addr_from_slice ip) [
  | none ↦ none
  | some addr ↦ some (masked (prefix_from (unmap addr) (pos ones)))
]
addr_prefix text (other s) = elim (text.parse_prefix s) [ none ↦ none | some p ↦ some (masked p) ]

-- The condition of the second `continue` of localNonPrivatePrefixes.
unfoldable pub is_skipped : Addr → Bool
is_skipped a =
    not (is_valid_addr a)
    || is_private a
    || is_loopback a
    || is_link_local_unicast a
    || is_multicast a
    || not (is_global_unicast a)

-- The body of the loop of localNonPrivatePrefixes.
unfoldable pub local_prefix : NetipText → NetAddr → List Prefix
unfolding is_skipped
local_prefix text a = elim (addr_prefix text a) [
  | none ↦ []
  | some p ↦
      if is_skipped p.ip
      then []
      else (if is4 p.ip then prefix_from p.ip (pos 32) else prefix_from p.ip (pos 128)) ∷ []
]

-- localNonPrivatePrefixes, after net.InterfaceAddrs has returned
unfoldable pub local_non_private_prefixes : NetipText → List NetAddr → List Prefix
unfolding local_prefix addr_prefix
local_non_private_prefixes text [] = []
local_non_private_prefixes text (a ∷ rest) =
    local_prefix text a ++ local_non_private_prefixes text rest

-- prefixAddrs
unfoldable pub prefix_addrs : List Prefix → List Addr
prefix_addrs = map (λ p. p.ip)

-- The loop of exclusionInputs over the excluded texts.
unfoldable pub parse_excluded : NetipText → List String → Result (List Prefix)
parse_excluded text [] = ok []
parse_excluded text (raw ∷ rest) = elim (text.parse_prefix raw) [
  | none ↦ err (text.parse_prefix_error raw)
  | some p ↦ parse_excluded text rest >>= λ ps. ok (masked p ∷ ps)
]

-- exclusionInputs
unfoldable pub exclusion_inputs :
    {S : Type 0}
    → NetipText
    → Action S (List NetAddr)
    → TargetConfig
    → Action S (List Prefix × List Addr)
unfolding parse_excluded local_non_private_prefixes prefix_addrs
exclusion_inputs text interface_addrs target s =
    elim (parse_excluded text target.exclude_prefixes) [
      | err e ↦ (err e, s)
      | ok parsed ↦
          let throws = normalize (filter_family parsed target.family) false in
          if not target.exclude_local_ips
          then (ok (throws, []), s)
          else after_ok (interface_addrs s)
              (λ addrs t. (
                ok (
                  throws,
                  prefix_addrs
                      (filter_family (local_non_private_prefixes text addrs) target.family),
                ),
                t,
              ))
              (λ e t. (err e, t))
    ]
