-- ===== src/Rtnl/Netlink/RoundTrip.antt =====
-- The two directions of routes and rules in internal/rtnl/netlink_linux.go.
use native.Mathlib.Numerals.{unary_clauses}
use route_sync.Base.{
  ℕ, zero, suc, ◌+◌, ◌*◌, ◌/◌, ◌%◌, ◌^◌, ◌<◌, ◌≡◌, ◌≢◌, refl, sym, ◌∙◌, ap, ap₂, Bool, true, false,
  not, none, some, List, [], ◌∷◌, ◌++◌, map, arith, All, length, length-append, ◌==◌, if◌then◌else◌,
  ◌⊎◌, inl, inr,
}
use route_sync.Base.Int.{pos}
use route_sync.Netip.{
  Addr, Prefix, zero_addr, ip4, ip6, zero_prefix, is6, is_valid, is_valid_addr, prefix_from, masked,
}
use route_sync.Netip.Classes.{addr_from_slice, as_slice, unmap, bytes_value, low_bytes}
use route_sync.Rtnl.{Route, Rule, route_type_unicast, route_type_throw}
use route_sync.Rtnl.Netlink.{
  NlRoute, NlRule, cidr_ones, prefix_to_ip_net, ip_net_to_prefix, to_nl_route, from_nl_route,
  gateway_of, dst_prefix, listed_routes, to_nl_rule, from_nl_rule, source_of, listed_rules,
}

bytes_value-append :
    (acc : ℕ) (xs : List ℕ) (b : ℕ)
    → bytes_value acc (xs ++ (b ∷ [])) ≡ bytes_value acc xs * 256 + b
bytes_value-append acc [] b = refl
bytes_value-append acc (x ∷ xs) b = bytes_value-append (acc * 256 + x) xs b

length-low_bytes : (k n : ℕ) → length (low_bytes k n) ≡ k
unfolding low_bytes
length-low_bytes zero n = refl
length-low_bytes (suc k) n =
    omega
      (arith, length-append (low_bytes k (n / 256)) (n % 256 ∷ []), length-low_bytes k (n / 256))

smaller : (k n : ℕ) → n < 256 ^ suc k → n / 256 < 256 ^ k
smaller k n h = lt_div (256 ^ k) (simp unary_clauses at h)
  where
    lt_div : (x : ℕ) → n < x * 256 → n / 256 < x
    lt_div x e = omega arith

bytes_value-low_bytes : (k n : ℕ) → n < 256 ^ k → bytes_value 0 (low_bytes k n) ≡ n
unfolding low_bytes
bytes_value-low_bytes zero n h = omega arith
bytes_value-low_bytes (suc k) n h =
    bytes_value-append 0 (low_bytes k (n / 256)) (n % 256)
    ∙ ap (λ t. t * 256 + n % 256) (bytes_value-low_bytes k (n / 256) (smaller k n h))
    ∙ omega arith

-- An address that its bytes determine: in range, with no zone, and no IPv4 address in IPv6 form.
abbrev pub IsWire : Addr → Type 0
IsWire zero_addr = Unit
IsWire (ip4 n) = n < 2 ^ 32
IsWire (ip6 n z) = (n < 2 ^ 128) × (z ≡ "") × (n / 2 ^ 32 ≢ 0xffff)

addr_from_slice-as_slice :
    (a : Addr) → IsWire a → is_valid_addr a ≡ true → addr_from_slice (as_slice a) ≡ some a
unfolding addr_from_slice as_slice is_valid_addr
addr_from_slice-as_slice zero_addr h v = cc
addr_from_slice-as_slice (ip4 n) h v = ap (λ t. some (ip4 t)) (bytes_value-low_bytes 4 n h)
addr_from_slice-as_slice (ip6 n z) (h, e, _) v =
    ap₂ (λ t w. some (ip6 t w)) (bytes_value-low_bytes 16 n h) (sym e)

unmap-IsWire : (a : Addr) → IsWire a → unmap a ≡ a
unfolding unmap
unmap-IsWire zero_addr h = refl
unmap-IsWire (ip4 n) h = refl
unmap-IsWire (ip6 n z) h = ground arith

-- A masked valid prefix with such an address.
pub record IsDst (p : Prefix) : Type 0 where
  pub wire : IsWire p.ip
  pub valid : is_valid p ≡ true
  pub whole : masked p ≡ p

-- A masked valid prefix fits its address.
prefix_parts :
    (p : Prefix)
    → IsDst p
    → (is_valid_addr p.ip ≡ true)
      × (prefix_from p.ip (pos (cidr_ones p.bits_plus_one (if is6 p.ip then 128 else 32))) ≡ p)
unfolding is_valid masked is_valid_addr prefix_from is6
prefix_parts p h = parts p.ip p.bits_plus_one h.wire h.valid h.whole
  where
    parts :
        (i : Addr) (c : ℕ)
        → IsWire i
        → is_valid (record { ip = i; bits_plus_one = c }) ≡ true
        → masked (record { ip = i; bits_plus_one = c }) ≡ record { ip = i; bits_plus_one = c }
        → (is_valid_addr i ≡ true)
          × (prefix_from i (pos (cidr_ones c (if is6 i then 128 else 32)))
              ≡ record { ip = i; bits_plus_one = c })
    parts i zero w v m = cc
    parts zero_addr (suc b) w v m = cc
    parts (ip4 n) (suc b) w v m = (refl, ground arith)
    parts (ip6 n z) (suc b) w v m = (refl, ground arith)

pub ip_net_to_prefix-prefix_to_ip_net :
    (p : Prefix) → IsDst p → ip_net_to_prefix (prefix_to_ip_net p) ≡ some p
unfolding ip_net_to_prefix prefix_to_ip_net
ip_net_to_prefix-prefix_to_ip_net p h =
    let (fits, same) = prefix_parts p h in
    rw
      (
        h.whole,
        ip_net_to_prefix,
        addr_from_slice-as_slice p.ip h.wire fits,
        unmap-IsWire p.ip h.wire,
        same,
        h.whole,
      )
      refl

gateway_of-as_slice :
    (a : Addr) → IsWire a → gateway_of (if is_valid_addr a then some (as_slice a) else none) ≡ a
unfolding is_valid_addr
gateway_of-as_slice a h = by_validity a h (is_valid_addr a) refl
  where
    by_validity :
        (a : Addr)
        → IsWire a
        → (b : Bool) → is_valid_addr a ≡ b
        → gateway_of (if b then some (as_slice a) else none) ≡ a
    by_validity a w true v = rw (gateway_of, addr_from_slice-as_slice a w v) (unmap-IsWire a w)
    by_validity zero_addr w false v = refl
    by_validity (ip4 n) w false v = cc
    by_validity (ip6 n z) w false v = cc

-- A route as the planner makes them: a masked destination, a gateway in range, and a throw route
-- has neither link nor gateway.
pub record IsPlanned (r : Route) : Type 0 where
  pub has_dst : IsDst r.dst
  pub has_via : IsWire r.via
  pub has_type :
      (r.route_type ≡ route_type_unicast)
      ⊎ ((r.route_type ≡ route_type_throw)
          × (r.link_index ≡ pos 0)
          × (r.via ≡ zero_addr)
          × (r.on_link ≡ false))

-- The route without what netlink does not hold.
abbrev pub anonymous : Route → Route
anonymous r = record r { group = ""; dev = "" }

flag_read : (b : Bool) → not ((if b then 4 else 0) / 4 % 2 == 0) ≡ b
flag_read true = refl
flag_read false = refl

from_nl_route-to_nl_route :
    (r : Route) → IsPlanned r → from_nl_route (to_nl_route r) r.dst ≡ anonymous r
unfolding from_nl_route to_nl_route
from_nl_route-to_nl_route r h = elim h.has_type [
  | inl unicast ↦ rw (unicast, gateway_of-as_slice r.via h.has_via, flag_read r.on_link) refl
  | inr (throws, no_link, no_via, plain) ↦ rw (throws, no_link, no_via, plain) refl
]

-- The loop of ListRoutes on what AddRoute makes of a route as the planner makes them, and more: it
-- is the same route, without group and device, which netlink does not hold.
pub listed_routes-anonymous :
    (r : Route) (qs : List NlRoute)
    → IsPlanned r
    → listed_routes (to_nl_route r ∷ qs) ≡ anonymous r ∷ listed_routes qs
unfolding listed_routes dst_prefix to_nl_route
listed_routes-anonymous r qs k =
    rw (listed_routes, ip_net_to_prefix-prefix_to_ip_net r.dst k.has_dst)
      (ap (λ x. x ∷ listed_routes qs) (from_nl_route-to_nl_route r k))

-- The conversion of AddRoute and then that of ListRoutes, on routes as the planner makes them.
pub listed_routes-to_nl_route :
    (rs : List Route) → All IsPlanned rs → listed_routes (map to_nl_route rs) ≡ map anonymous rs
unfolding listed_routes
listed_routes-to_nl_route [] h = refl
listed_routes-to_nl_route (r ∷ rs) (k, h) =
    listed_routes-anonymous r (map to_nl_route rs) k
    ∙ ap (λ qs. anonymous r ∷ qs) (listed_routes-to_nl_route rs h)

pub record IsPlannedRule (r : Rule) : Type 0 where
  pub has_source : IsDst r.from ⊎ (r.from ≡ zero_prefix)
  pub has_mark : r.has_fw_mark ≡ false → (r.fw_mark ≡ 0) × (r.mask ≡ 0)

abbrev pub anonymous_rule : Rule → Rule
anonymous_rule r = record r { group = "" }

source_of-prefix_to_ip_net :
    (p : Prefix)
    → IsDst p ⊎ (p ≡ zero_prefix)
    → source_of (if is_valid p then some (prefix_to_ip_net p) else none) ≡ p
unfolding is_valid source_of
source_of-prefix_to_ip_net p (inl h) =
    rw (h.valid, source_of, ip_net_to_prefix-prefix_to_ip_net p h) refl
source_of-prefix_to_ip_net p (inr e) = rw e refl

from_nl_rule-to_nl_rule :
    (r : Rule) → IsPlannedRule r → from_nl_rule (to_nl_rule r) ≡ anonymous_rule r
unfolding from_nl_rule to_nl_rule
from_nl_rule-to_nl_rule r h = by_mark r.has_fw_mark r.fw_mark r.mask h.has_mark
  where
    by_mark :
        (b : Bool) (mark m : ℕ)
        → (b ≡ false → (mark ≡ 0) × (m ≡ 0))
        → from_nl_rule (to_nl_rule (record r { has_fw_mark = b; fw_mark = mark; mask = m }))
          ≡ record r { group = ""; has_fw_mark = b; fw_mark = mark; mask = m }
    by_mark true mark m e = rw (source_of-prefix_to_ip_net r.from h.has_source) refl
    by_mark false mark m e =
        rw ((e refl).0, (e refl).1, source_of-prefix_to_ip_net r.from h.has_source) refl

-- The loop of ListRules on what AddRule makes of a rule with a mark that has a mask, or neither, and
-- with a masked source or none, and more: it is the same rule, without its group.
pub listed_rules-anonymous_rule :
    (r : Rule) (qs : List NlRule)
    → IsPlannedRule r
    → listed_rules (to_nl_rule r ∷ qs) ≡ anonymous_rule r ∷ listed_rules qs
unfolding listed_rules
listed_rules-anonymous_rule r qs k = ap (λ x. x ∷ listed_rules qs) (from_nl_rule-to_nl_rule r k)

-- The conversion of AddRule and then that of ListRules, on such rules.
pub listed_rules-to_nl_rule :
    (rs : List Rule)
    → All IsPlannedRule rs
    → listed_rules (map to_nl_rule rs) ≡ map anonymous_rule rs
unfolding listed_rules
listed_rules-to_nl_rule [] h = refl
listed_rules-to_nl_rule (r ∷ rs) (k, h) =
    listed_rules-anonymous_rule r (map to_nl_rule rs) k
    ∙ ap (λ qs. anonymous_rule r ∷ qs) (listed_rules-to_nl_rule rs h)
