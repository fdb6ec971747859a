-- ===== src/Tests/Machine.antt =====
-- A small machine for the tests: one link, routes and rules in lists, one file, four texts of
-- addresses and prefixes.
use text.Mathlib.TextPositions.{eq_refl}
use route_sync.Base.{
  ◌≡◌, refl, subst, ap, String, ◌<>◌, Bool, true, false, not, ◌&&◌, Option, none, some, List, [],
  ◌∷◌, arith, keep, str_eq, str_eq_iff, if◌then◌else◌,
}
use route_sync.Base.Int.{ℤ, pos, eqb_ℤ, eq_of_eqb_ℤ, show_ℕ}
use route_sync.Base.Result.{Result, ok, err, state_of_eq}
use route_sync.Netip.{Addr, Prefix, ip4, ip6, zero_addr, eqb_prefix}
use route_sync.Netip.Text.{NetipText}
use route_sync.Config.{Config, RouteGroup, TargetConfig, HealthCheck}
use route_sync.Rtnl.{Route, Rule, Kernel}
use route_sync.State.{Files, GroupState}
use route_sync.State.RoundTrip.{IsFileSystem}
use route_sync.Planner.{Ranges}
use route_sync.App.World.{World}
use route_sync.App.Locals.{ip_net}

-- 10.0.0.1
abbrev pub gateway : Addr
gateway = ip4 167_772_161

-- 192.0.2.0/25, 192.0.2.128/25 and 192.0.2.0/24
abbrev pub first_half : Prefix
first_half = record { ip = ip4 3_221_225_984; bits_plus_one = 26 }

abbrev pub second_half : Prefix
second_half = record { ip = ip4 3_221_226_112; bits_plus_one = 26 }

abbrev pub whole_net : Prefix
whole_net = record { ip = ip4 3_221_225_984; bits_plus_one = 25 }

abbrev parse_addr : String → Option Addr
parse_addr s = if str_eq s "10.0.0.1" then some gateway else none

abbrev parse_prefix : String → Option Prefix
parse_prefix s =
    if str_eq s "192.0.2.0/24"
    then some whole_net
    else if str_eq s "192.0.2.0/25"
    then some first_half
    else none

abbrev addr_string : Addr → String
addr_string zero_addr = "invalid IP"
addr_string (ip4 n) = show_ℕ n
addr_string (ip6 n z) = show_ℕ n <> ("%" <> z)

abbrev prefix_string : Prefix → String
prefix_string p =
    if eqb_prefix p whole_net
    then "192.0.2.0/24"
    else if eqb_prefix p first_half
    then "192.0.2.0/25"
    else addr_string p.ip <> ("/" <> show_ℕ p.bits_plus_one)

abbrev pub net_text : NetipText
net_text = record {
  parse_addr = parse_addr;
  parse_prefix = parse_prefix;
  parse_prefix_error = λ raw. "netip.ParsePrefix: no '/'";
  addr_string = addr_string;
  prefix_string = prefix_string;
  quote = λ s. s;
}

pub record Machine : Type 0 where
  pub routes : List Route
  pub rules : List Rule
  pub file : Option (String × String)

abbrev pub empty_machine : Machine
empty_machine = record { routes = []; rules = []; file = none }

abbrev pub kernel : Kernel
kernel = record {
  State = Machine;
  link_index_by_name = λ name s. (if str_eq name "eth0" then ok (pos 2) else err "no link", s);
  list_routes = λ table family protocol s.
      (ok (keep (λ r. eqb_ℤ r.table table && eqb_ℤ r.protocol protocol) s.routes), s);
  add_route = λ r s. (ok tt, record s { routes = r ∷ s.routes });
  delete_route = λ r s. (
    ok tt,
    record s {
      routes = keep (λ q. not (eqb_prefix q.dst r.dst && eqb_ℤ q.table r.table)) s.routes;
    },
  );
  list_rules = λ family s. (ok s.rules, s);
  add_rule = λ r s. (ok tt, record s { rules = r ∷ s.rules });
  delete_rule =
      λ r s. (ok tt, record s { rules = keep (λ q. not (eqb_ℤ q.priority r.priority)) s.rules });
}

abbrev read_slot : String → Option (String × String) → Result String
read_slot name none = err "no such file"
read_slot name (some (n, bytes)) = if str_eq n name then ok bytes else err "no such file"

-- The JSON of a state with one prefix of the group "zone" is that prefix.
abbrev stored : String → GroupState
stored bytes = record {
  group = "zone";
  source_type = "txt";
  prefixes = bytes ∷ [];
  fetched_at = pos 0;
  from_fallback = false;
}

abbrev marshal_parts : String → String → List String → ℤ → Bool → Result String
marshal_parts group kind (p ∷ []) at false =
    if str_eq group "zone" && str_eq kind "txt" && eqb_ℤ at (pos 0) then ok p else err "no JSON"
marshal_parts _ _ _ _ _ = err "no JSON"

abbrev pub files : Files Machine
files = record {
  mkdir_all = λ dir s. (ok tt, s);
  read_file = λ name s. (read_slot name s.file, s);
  write_file = λ name bytes s. (ok tt, record s { file = some (name, bytes) });
  now = λ s. pos 0;
  join = λ dir name. dir <> ("/" <> name);
  marshal = λ st. marshal_parts st.group st.source_type st.prefixes st.fetched_at st.from_fallback;
  unmarshal = λ bytes. ok (stored bytes);
}

abbrev pub ranges : Ranges
ranges = record { routes = λ m. m; rules = λ m. m }

abbrev no_check : HealthCheck
no_check = record { targets = []; timeout = pos 0 }

abbrev pub target : TargetConfig
target = record {
  table = pos 100;
  dev = "eth0";
  via = "";
  via4 = "10.0.0.1";
  via6 = "";
  on_link = false;
  family = "";
  health_check = no_check;
  gateways = [];
  default = none;
  exclude_local_ips = true;
  exclude_prefixes = "192.0.2.0/24" ∷ [];
}

abbrev pub zone : RouteGroup
zone = record {
  name = "zone";
  enabled = true;
  source = record { source_type = "txt"; country = ""; url = "http://example.org/zone.txt" };
  target = target;
  rule = record {
    enabled = true;
    priority = pos 1000;
    fw_mark = 1;
    mask = 0;
    table = pos 100;
    from = "";
  };
}

abbrev pub config : Config
config = record {
  global = record {
    refresh_interval = pos 3_600_000_000_000;
    health_check_interval = pos 5_000_000_000;
    http_timeout = pos 30_000_000_000;
    state_dir = "/var/lib/route-sync";
    log_format = "text";
    metrics_listen = "127.0.0.1:9108";
    route_protocol = pos 99;
    rule_priority_base = pos 1000;
    rule_priority_step = pos 10;
    enable_prefix_aggregation = true;
    cleanup_on_shutdown = true;
  };
  defaults = record { enable_ru_builtin_source = some false };
  routing = record { ru_default = record zone { enabled = false } };
  special_zones = zone ∷ [];
}

abbrev pub world : World
world = record {
  kernel = kernel;
  text = net_text;
  ranges = ranges;
  files = files;
  ping = λ dev a timeout s. (ok tt, s);
  fetch_ripe = λ country timeout s. (ok (first_half ∷ second_half ∷ []), s);
  fetch_txt = λ url timeout s. (ok (first_half ∷ []), s);
  interface_addrs = λ s. (ok (ip_net (192 ∷ 0 ∷ 2 ∷ 1 ∷ []) 24 ∷ []), s);
  read_config = λ file s. (ok config, s);
  unix_now = λ s. pos 1_700_000_000;
}

read_slot-own : (name bytes : String) → read_slot name (some (name, bytes)) ≡ ok bytes
read_slot-own name bytes = rw (eq_refl name) refl

slot_kept :
    (name bytes : String) (s t : Machine)
    → files.write_file name bytes s ≡ (ok tt, t)
    → files.read_file name t ≡ (ok bytes, t)
slot_kept name bytes s t e =
    subst (λ u. files.read_file name u ≡ (ok bytes, u)) (state_of_eq e)
      (ap (λ r. (r, record s { file = some (name, bytes) })) (read_slot-own name bytes))

decodes :
    (group kind : String) (ps : List String) (at : ℤ) (fallback : Bool) (bytes : String)
    → marshal_parts group kind ps at fallback ≡ ok bytes
    → ok (stored bytes)
      ≡ ok (record {
        group = group;
        source_type = kind;
        prefixes = ps;
        fetched_at = at;
        from_fallback = fallback;
      })
decodes group kind (p ∷ []) at false bytes e =
    ground (arith, str_eq_iff group "zone", str_eq_iff kind "txt", eq_of_eqb_ℤ at (pos 0))
decodes group kind [] at b bytes e = cc
decodes group kind (p ∷ q ∷ ps) at b bytes e = cc
decodes group kind (p ∷ []) at true bytes e = cc

pub files-IsFileSystem : IsFileSystem files
files-IsFileSystem = record {
  read_written = slot_kept;
  unmarshal_marshalled = λ st bytes e.
      decodes st.group st.source_type st.prefixes st.fetched_at st.from_fallback bytes e;
}
