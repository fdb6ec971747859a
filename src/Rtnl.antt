-- ===== src/Rtnl.antt =====
-- internal/rtnl/types.go: routes, rules and the kernel's methods.
pub mod Netlink
pub mod Unsupported
use route_sync.Base.{ℕ, String, Bool, List}
use route_sync.Base.Int.{ℤ, pos}
use route_sync.Base.Result.{Action}
use route_sync.Netip.{Addr, Prefix}

abbrev pub route_type_unicast : ℤ
route_type_unicast = pos 0

abbrev pub route_type_throw : ℤ
route_type_throw = pos 1

pub record Route : Type 0 where
  pub group : String
  pub table : ℤ
  pub protocol : ℤ
  pub route_type : ℤ
  pub dev : String
  pub link_index : ℤ
  pub via : Addr
  pub on_link : Bool
  pub metric : ℤ
  pub dst : Prefix

pub record Rule : Type 0 where
  pub group : String
  pub priority : ℤ
  pub table : ℤ
  pub has_fw_mark : Bool
  pub fw_mark : ℕ
  pub mask : ℕ
  pub from : Prefix

-- The interface Kernel. `State` is what the methods read and change.
pub record Kernel : Type 1 where
  pub State : Type 0
  pub link_index_by_name : String → Action State ℤ
  pub list_routes : ℤ → ℤ → ℤ → Action State (List Route)
  pub add_route : Route → Action State (Unit {0})
  pub delete_route : Route → Action State (Unit {0})
  pub list_rules : ℤ → Action State (List Rule)
  pub add_rule : Rule → Action State (Unit {0})
  pub delete_rule : Rule → Action State (Unit {0})
