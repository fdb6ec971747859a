-- ===== src/Rtnl/Unsupported.antt =====
-- internal/rtnl/netlink_unsupported.go: the kernel of systems other than Linux.
use route_sync.Base.{String}
use route_sync.Base.Result.{err}
use route_sync.Rtnl.{Kernel}

-- ErrUnsupported
abbrev pub unsupported : String
unsupported = "netlink reconciliation is supported on linux only"

-- NetlinkKernel, over any state
abbrev pub unsupported_kernel : Type 0 → Kernel
unsupported_kernel S = record {
  State = S;
  link_index_by_name = λ name s. (err unsupported, s);
  list_routes = λ table family protocol s. (err unsupported, s);
  add_route = λ r s. (err unsupported, s);
  delete_route = λ r s. (err unsupported, s);
  list_rules = λ family s. (err unsupported, s);
  add_rule = λ r s. (err unsupported, s);
  delete_rule = λ r s. (err unsupported, s);
}
