-- ===== src/Rtnl/Netlink.antt =====
-- internal/rtnl/netlink_linux.go: the kernel behind the netlink library. The library's calls enter
-- as a record of operations; an IPNet is its bytes and the number of ones of its mask.
pub mod Listed
pub mod RoundTrip
use route_sync.Base.{
  ℕ, zero, suc, ◌+◌, ◌/◌, ◌%◌, String, Bool, true, false, not, ◌||◌, Option, none, some, List, [],
  ◌∷◌, leb, ◌==◌, if◌then◌else◌,
}
use route_sync.Base.Int.{ℤ, pos, eqb_ℤ}
use route_sync.Base.Result.{Result, ok, err, Action, after_ok}
use route_sync.Netip.{
  Addr, Prefix, zero_addr, zero_prefix, is6, is_valid, is_valid_addr, prefix_from, masked,
}
use route_sync.Netip.Classes.{addr_from_slice, as_slice, unmap}
use route_sync.Rtnl.{Route, Rule, Kernel, route_type_unicast, route_type_throw}

-- net.IPNet
pub record IpNet : Type 0 where
  pub ip : List ℕ
  pub ones : ℕ

-- The fields of netlink.Route that the program reads or sets; a nil Gw is no bytes.
pub record NlRoute : Type 0 where
  pub table : ℤ
  pub protocol : ℤ
  pub link_index : ℤ
  pub dst : Option IpNet
  pub priority : ℤ
  pub nl_type : ℤ
  pub gw : Option (List ℕ)
  pub flags : ℕ

-- The fields of netlink.Rule that the program reads or sets.
pub record NlRule : Type 0 where
  pub priority : ℤ
  pub table : ℤ
  pub mark : ℕ
  pub mask : Option ℕ
  pub src : Option IpNet

-- The errors that the program asks for with errors.Is.
pub data Errno : Type 0 where
  eexist esrch enoent : Errno

pub record Netlink : Type 1 where
  pub State : Type 0
  pub link_by_name : String → Action State ℤ
  pub route_list_filtered : ℤ → ℤ → ℤ → Action State (List NlRoute)
  pub route_add : NlRoute → Action State (Unit {0})
  pub route_del : NlRoute → Action State (Unit {0})
  pub rule_list : ℤ → Action State (List NlRule)
  pub rule_add : NlRule → Action State (Unit {0})
  pub rule_del : NlRule → Action State (Unit {0})
  pub is_error : Errno → String → Bool

-- unix.RTN_THROW, netlink.FLAG_ONLINK as a place of a bit, netlink.FAMILY_V4 and FAMILY_V6
abbrev rtn_throw : ℤ
rtn_throw = pos 9

abbrev flag_onlink : ℕ
flag_onlink = 4

abbrev pub nl_family : ℤ → ℤ
nl_family family = if eqb_ℤ family (pos 6) then pos 10 else pos 2

-- The ones of net.CIDRMask(bits, width), which is nil, with no ones, out of range.
abbrev cidr_ones : ℕ → ℕ → ℕ
cidr_ones zero width = 0
cidr_ones (suc bits) width = if leb bits width then bits else 0

-- prefixToIPNet
unfoldable pub prefix_to_ip_net : Prefix → IpNet
prefix_to_ip_net p = record {
  ip = as_slice (masked p).ip;
  ones = cidr_ones p.bits_plus_one (if is6 p.ip then 128 else 32);
}

-- ipNetToPrefix
unfoldable pub ip_net_to_prefix : IpNet → Option Prefix
ip_net_to_prefix n = elim (addr_from_slice n.ip) [
  | none ↦ none
  | some addr ↦ some (masked (prefix_from (unmap addr) (pos n.ones)))
]

-- The netlink route that AddRoute and DeleteRoute make.
unfoldable pub to_nl_route : Route → NlRoute
unfolding prefix_to_ip_net
to_nl_route r =
    let throws = eqb_ℤ r.route_type route_type_throw in
    record {
      table = r.table;
      protocol = r.protocol;
      link_index = if throws then pos 0 else r.link_index;
      dst = some (prefix_to_ip_net r.dst);
      priority = r.metric;
      nl_type = if throws then rtn_throw else pos 0;
      gw = if throws then none else if is_valid_addr r.via then some (as_slice r.via) else none;
      flags = if throws then 0 else if r.on_link then flag_onlink else 0;
    }

abbrev gateway_of : Option (List ℕ) → Addr
gateway_of none = zero_addr
gateway_of (some bytes) = elim (addr_from_slice bytes) [ none ↦ zero_addr | some addr ↦ unmap addr ]

-- The body of the loop of ListRoutes once Dst is a prefix.
unfoldable pub from_nl_route : NlRoute → Prefix → Route
from_nl_route r p = record {
  group = "";
  table = r.table;
  protocol = r.protocol;
  route_type = if eqb_ℤ r.nl_type rtn_throw then route_type_throw else route_type_unicast;
  dev = "";
  link_index = r.link_index;
  via = gateway_of r.gw;
  on_link = not (r.flags / flag_onlink % 2 == 0);
  metric = r.priority;
  dst = p;
}

unfoldable dst_prefix : Option IpNet → Option Prefix
unfolding ip_net_to_prefix
dst_prefix none = none
dst_prefix (some n) = ip_net_to_prefix n

-- The loop of ListRoutes.
unfoldable pub listed_routes : List NlRoute → List Route
unfolding from_nl_route dst_prefix
listed_routes [] = []
listed_routes (r ∷ rs) = elim (dst_prefix r.dst) [
  | none ↦ listed_routes rs
  | some p ↦ from_nl_route r p ∷ listed_routes rs
]

-- The netlink rule that AddRule and DeleteRule make.
unfoldable pub to_nl_rule : Rule → NlRule
unfolding prefix_to_ip_net
to_nl_rule r = record {
  priority = r.priority;
  table = r.table;
  mark = if r.has_fw_mark then r.fw_mark else 0;
  mask = if r.has_fw_mark then some r.mask else none;
  src = if is_valid r.from then some (prefix_to_ip_net r.from) else none;
}

abbrev is_given : Option ℕ → Bool
is_given none = false
is_given (some n) = true

abbrev mask_or_zero : Option ℕ → ℕ
mask_or_zero none = 0
mask_or_zero (some n) = n

unfoldable source_of : Option IpNet → Prefix
unfolding ip_net_to_prefix
source_of none = zero_prefix
source_of (some n) = elim (ip_net_to_prefix n) [ none ↦ zero_prefix | some p ↦ p ]

-- The body of the loop of ListRules.
unfoldable pub from_nl_rule : NlRule → Rule
unfolding source_of
from_nl_rule r = record {
  group = "";
  priority = r.priority;
  table = r.table;
  has_fw_mark = is_given r.mask;
  fw_mark = r.mark;
  mask = mask_or_zero r.mask;
  from = source_of r.src;
}

unfoldable pub listed_rules : List NlRule → List Rule
unfolding from_nl_rule
listed_rules [] = []
listed_rules (r ∷ rs) = from_nl_rule r ∷ listed_rules rs

module _ (n : Netlink) where
  -- An error that passes the test counts as none.
  abbrev ignoring : (String → Bool) → Action n.State (Unit {0}) → Action n.State (Unit {0})
  ignoring test m s =
      after_ok (m s) (λ _ t. (ok tt, t)) (λ e t. (if test e then ok tt else err e, t))

  -- ignoreExists and ignoreNotFound
  unfoldable pub ignore_exists : Action n.State (Unit {0}) → Action n.State (Unit {0})
  ignore_exists = ignoring (n.is_error eexist)

  unfoldable pub ignore_not_found : Action n.State (Unit {0}) → Action n.State (Unit {0})
  ignore_not_found = ignoring (λ e. n.is_error esrch e || n.is_error enoent e)

  -- ListRoutes and ListRules
  unfoldable pub list_routes : ℤ → ℤ → ℤ → Action n.State (List Route)
  unfolding listed_routes
  list_routes table family protocol s =
      after_ok (n.route_list_filtered (nl_family family) table protocol s)
        (λ rs t. (ok (listed_routes rs), t)) (λ e t. (err e, t))

  unfoldable pub list_rules : ℤ → Action n.State (List Rule)
  unfolding listed_rules
  list_rules family s =
      after_ok (n.rule_list (nl_family family) s) (λ rs t. (ok (listed_rules rs), t))
        (λ e t. (err e, t))

  -- NetlinkKernel
  unfoldable pub netlink_kernel : Kernel
  unfolding list_routes list_rules to_nl_route to_nl_rule ignore_exists ignore_not_found
  netlink_kernel = record {
    State = n.State;
    link_index_by_name = n.link_by_name;
    list_routes = list_routes;
    add_route = λ r. ignore_exists (n.route_add (to_nl_route r));
    delete_route = λ r. ignore_not_found (n.route_del (to_nl_route r));
    list_rules = list_rules;
    add_rule = λ r. ignore_exists (n.rule_add (to_nl_rule r));
    delete_rule = λ r. ignore_not_found (n.rule_del (to_nl_rule r));
  }
