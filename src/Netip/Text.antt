-- ===== src/Netip/Text.antt =====
-- The texts of addresses and prefixes: netip.ParseAddr, netip.ParsePrefix, Addr.String and
-- Prefix.String, the text of ParsePrefix's error, and the quoted text that fmt prints for %q. The syntax itself is not modelled, and
-- enters as this record.
use route_sync.Base.{String, Option}
use route_sync.Netip.{Addr, Prefix}

pub record NetipText : Type 0 where
  pub parse_addr : String → Option Addr
  pub parse_prefix : String → Option Prefix
  pub parse_prefix_error : String → String
  pub addr_string : Addr → String
  pub prefix_string : Prefix → String
  pub quote : String → String
