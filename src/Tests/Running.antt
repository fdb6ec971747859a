-- ===== src/Tests/Running.antt =====
-- Gateways, configurations and the daemon on the test machine.
use route_sync.Base.{
  ◌*◌, ◌≤◌, length, All, subst, ◌≡◌, refl, ◌+◌, String, str_eq, Bool, true, false, ◌||◌, some, List,
  [], ◌∷◌, count, any, arith, if◌then◌else◌,
}
use route_sync.Base.Int.{ℤ, pos, pos_part}
use route_sync.Base.Result.{Result, ok, err}
use route_sync.Netip.{Addr, zero_addr, ip4, eqb_addr, mask, is_valid_addr, is4, masked}
use route_sync.Netip.Classes.{
  addr_from_slice, unmap, is_private, is_loopback, is_link_local_unicast, is_multicast,
  is_global_unicast,
}
use route_sync.Health.{
  Candidate, ResolvedHop, Probe, select, metric_base, metric_step, unhealthy_metric_offset,
}
use route_sync.Health.Answered.{IsAnswered, select-IsAnswered}
use route_sync.Health.Bounds.{select-metrics}
use route_sync.Health.Order.{HealthyFirst, IsIncreasing, of_hop, of_candidate, select_order}
use route_sync.Config.{groups}
use route_sync.Config.Validate.{validate}
use route_sync.Config.Validate.Sound.{IsValidConfig, validate-IsValidConfig}
use route_sync.App.World.{AppState}
use route_sync.App.Candidates.{resolve_candidates}
use route_sync.App.Candidates.Families.{on4, on6, when, count-resolve_candidates}
use route_sync.App.Locals.{ip_net, addr_prefix, local_prefix}
use route_sync.App.Locals.Masked.{local_prefix-network}
use route_sync.App.Run.{Options, Event, refresh_tick, health_tick, reload, stop, run_daemon}
use route_sync.App.Run.Daemon.{run_daemon-validate}
use route_sync.App.Run.Reads.{ReadsKeep}
use route_sync.App.Run.DryDaemon.{run_daemon_dry}
use route_sync.App.Main.{run_app}
use route_sync.App.Main.Dry.{may_change, run_app-keeps}
use route_sync.Tests.Machine.{Machine, net_text, world, config, gateway, empty_machine}

-- One gateway answers pings, the other does not.
abbrev two_probe : Probe (Unit {0})
two_probe = record {
  link_index_by_name = λ name s. (ok (pos 2), s);
  ping = λ dev a timeout s. (if str_eq dev "eth0" then err "no reply" else ok tt, s);
  set_gauge = λ name v s. s;
  parse_addr = net_text.parse_addr;
}

abbrev candidate : String → Candidate
candidate dev = record {
  name = dev;
  dev = dev;
  on_link = false;
  via = gateway;
  health_check = record { targets = "10.0.0.1" ∷ []; timeout = pos 0 };
}

abbrev candidates : List Candidate
candidates = candidate "eth0" ∷ candidate "eth1" ∷ []

abbrev hop : String → ℤ → Bool → Addr → ResolvedHop
hop dev metric healthy checked = record {
  name = dev;
  dev = dev;
  link_index = pos 2;
  on_link = false;
  via = gateway;
  metric = metric;
  healthy = healthy;
  checked_via = checked;
}

abbrev hops : List ResolvedHop
hops = hop "eth1" (pos 100) true gateway ∷ hop "eth0" (pos 1110) false zero_addr ∷ []

hops_selected : select two_probe "ipv4" "zone" candidates tt ≡ (ok hops, tt)
unfolding select is4
hops_selected = refl

select-IsAnswered_example : All (IsAnswered two_probe "ipv4" candidates) hops
select-IsAnswered_example =
    select-IsAnswered two_probe "ipv4" "zone" candidates tt tt hops hops_selected

select_order_example : HealthyFirst hops × IsIncreasing hops
select_order_example = select_order two_probe "ipv4" "zone" candidates tt tt hops hops_selected

select-metrics_example :
    (length hops ≡ length candidates)
    × All
        (λ (g : ResolvedHop).
          (metric_base ≤ pos_part g.metric)
          × (pos_part g.metric + metric_step
              ≤ metric_base + unhealthy_metric_offset + length candidates * metric_step))
        hops
select-metrics_example = select-metrics two_probe "ipv4" "zone" candidates tt tt hops hops_selected

abbrev on_eth0 : String → Bool → Addr → Bool
on_eth0 dev on_link via = str_eq dev "eth0"

hops_resolved : resolve_candidates two_probe "zone" "" candidates tt ≡ (ok hops, tt)
unfolding resolve_candidates select is_valid_addr is4
hops_resolved = refl

count-resolve_candidates_example :
    count (of_hop on_eth0) hops
    ≡ when
        (str_eq "" "" || str_eq "" "dual" || str_eq "" "ipv4")
        (count (of_candidate (on4 on_eth0)) candidates)
      + when (str_eq "" "dual" || str_eq "" "ipv6") (count (of_candidate (on6 on_eth0)) candidates)
count-resolve_candidates_example =
    count-resolve_candidates on_eth0 two_probe "zone" "" candidates tt tt hops hops_resolved

-- 192.0.2.0 on an interface
slice_parsed : addr_from_slice (192 ∷ 0 ∷ 2 ∷ 0 ∷ []) ≡ some (ip4 3_221_225_984)
unfolding addr_from_slice
slice_parsed = refl

slice_unmapped : unmap (ip4 3_221_225_984) ≡ ip4 3_221_225_984
unfolding unmap
slice_unmapped = refl

slice_listed :
    any
      (λ p. eqb_addr p.ip (ip4 3_221_225_984))
      (local_prefix net_text (ip_net (192 ∷ 0 ∷ 2 ∷ 0 ∷ []) 24))
    ≡ true
unfolding local_prefix addr_prefix addr_from_slice is_valid_addr masked unmap is_private is_loopback
    is_link_local_unicast is_multicast is_global_unicast is4 eqb_addr
slice_listed = refl

local_prefix-network_example : mask 32 24 3_221_225_984 ≡ 3_221_225_984
local_prefix-network_example =
    local_prefix-network net_text (192 ∷ 0 ∷ 2 ∷ 0 ∷ []) 24 3_221_225_984 (ip4 3_221_225_984)
      slice_parsed slice_unmapped (omega arith) slice_listed

config_valid : validate net_text config ≡ ok tt
unfolding validate groups is4
config_valid = refl

validate-IsValidConfig_example : IsValidConfig net_text config
validate-IsValidConfig_example = validate-IsValidConfig net_text config config_valid

abbrev pub options : Options
options = record {
  config_path = "/etc/route-sync.yaml";
  dry_run = true;
  disable_ru_default = false;
  log_format = "json";
  interval = pos 0;
  metrics_listen = "";
  cleanup_on_shutdown = true;
}

abbrev pub start : AppState Machine
start = record { outside = empty_machine; registry = record { counters = []; gauges = [] } }

abbrev events : List Event
events = health_tick ∷ reload ∷ refresh_tick ∷ stop ∷ []

run_daemon-validate_example :
    validate net_text (run_daemon world options config events start).active ≡ ok tt
run_daemon-validate_example = run_daemon-validate world options config events start config_valid

-- No route and no rule is there.
abbrev IsEmpty : Machine → Type 0
IsEmpty m = (m.routes ≡ []) × (m.rules ≡ [])

reads_keep : ReadsKeep world IsEmpty
reads_keep = record {
  links = λ name s p. p;
  pings = λ dev a timeout s p. p;
  ripe = λ country timeout s p. p;
  txt = λ url timeout s p. p;
  addrs = λ s p. p;
  routes = λ table family protocol s p. p;
  rules = λ family s p. p;
  mkdirs = λ dir s p. p;
  reads = λ name s p. p;
  writes = λ name bytes s p. p;
}

run_daemon_dry_example : IsEmpty (run_daemon world options config events start).app.outside
run_daemon_dry_example =
    run_daemon_dry world options IsEmpty reads_keep (λ file s p. p) refl config events start
      (refl, refl)

-- The flags of a dry apply.
abbrev dry_flags : String → List String → Result Options
dry_flags cmd args = ok options

dry_command :
    (opts : Options)
    → dry_flags "apply" ("--dry-run" ∷ []) ≡ ok opts
    → may_change "apply" opts ≡ false
dry_command opts e = ok_dry opts (read_back e)
  where
    read_back : ok options ≡ ok opts → options ≡ opts
    read_back h = cc

    ok_dry : (o : Options) → options ≡ o → may_change "apply" o ≡ false
    ok_dry o h = subst (λ t. may_change "apply" t ≡ false) h refl

run_app-keeps_example :
    IsEmpty (run_app world dry_flags ("apply" ∷ "--dry-run" ∷ []) [] start).1.outside
run_app-keeps_example =
    run_app-keeps world IsEmpty reads_keep (λ file s p. p) dry_flags "apply" ("--dry-run" ∷ []) []
      start dry_command (refl, refl)
