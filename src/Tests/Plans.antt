-- ===== src/Tests/Plans.antt =====
-- Plans and their application on the zone of the test machine.
use route_sync.Base.{
  str_eq, ◌≡◌, refl, String, Bool, true, false, not, ◌&&◌, [], ◌∷◌, count, once, any, All,
}
use route_sync.Base.Int.{ℤ, pos, eqb_ℤ, add_int, mul_int}
use route_sync.Base.Result.{ok}
use route_sync.Netip.{zero_prefix, Addr, Prefix, ip4, eqb_addr, is4, is_valid_addr}
use route_sync.Source.Aggregate.Coverage.{covered}
use route_sync.Rtnl.{Route, Rule}
use route_sync.Health.{ResolvedHop}
use route_sync.Planner.{
  InputGroup, GroupPlan, build_group, desired_routes, target_prefixes, route_key,
}
use route_sync.Planner.Diff.{has_key}
use route_sync.Planner.Build.{wanted_routes, build_group-routes, shared}
use route_sync.Planner.Exclusion.{covered-target_prefixes}
use route_sync.Reconcile.Routes
use route_sync.Reconcile.Routes.Commands.{
  commands, perform_all, deletes, adds, count_each, apply-perform_all, count-commands,
}
use route_sync.Reconcile.Rules
use route_sync.Reconcile.Rules.Owned.{IsOwned, current_owned-IsOwned}
use route_sync.Tests.Machine.{
  Machine, net_text, ranges, kernel, zone, gateway, first_half, second_half, whole_net,
  empty_machine,
}

abbrev pub route : Prefix → Route
route p = record {
  group = "zone";
  table = pos 100;
  protocol = pos 99;
  route_type = pos 0;
  dev = "eth0";
  link_index = pos 2;
  via = gateway;
  on_link = false;
  metric = pos 100;
  dst = p;
}

abbrev pub rule : Rule
rule = record {
  group = "";
  priority = pos 1000;
  table = pos 100;
  has_fw_mark = true;
  fw_mark = 1;
  mask = 255;
  from = zero_prefix;
}

abbrev hop : ResolvedHop
hop = record {
  name = "primary";
  dev = "eth0";
  link_index = pos 2;
  on_link = false;
  via = gateway;
  metric = pos 100;
  healthy = true;
  checked_via = gateway;
}

-- 192.0.2.1, an address of the machine
abbrev own_address : Addr
own_address = ip4 3_221_225_985

-- The zone wants the second half, since the first has an address of the machine; the whole net is
-- its current route.
abbrev pub input : InputGroup
input = record {
  config = zone;
  prefixes = first_half ∷ second_half ∷ [];
  throw_prefixes = [];
  covered_local_addrs = own_address ∷ [];
  source_type = "txt";
  from_fallback = false;
  link_index = pos 2;
  default_link_index = pos 0;
  target_hops = hop ∷ [];
  default_hops = [];
  current_routes = route whole_net ∷ [];
  current_rules = rule ∷ [];
}

abbrev key : String
key = route_key net_text (route second_half)

build_group-routes_example :
    (count
        (λ r. str_eq (route_key net_text r) key)
        (build_group net_text ranges (pos 99) input).routes_to_add
      ≡ once (
          has_key (route_key net_text) key (wanted_routes net_text (pos 99) input)
          && not (has_key (route_key net_text) key input.current_routes)))
    × (count
          (λ r. str_eq (route_key net_text r) key)
          (build_group net_text ranges (pos 99) input).routes_to_remove
        ≡ once (
            has_key (route_key net_text) key input.current_routes
            && not (has_key (route_key net_text) key (wanted_routes net_text (pos 99) input))))
build_group-routes_example =
    build_group-routes net_text ranges (λ f m. refl) (λ f m. refl) (pos 99) input key

abbrev in_table : Route → Bool
in_table r = eqb_ℤ r.table (pos 100)

abbrev in_rule_table : Rule → Bool
in_rule_table r = eqb_ℤ r.table (pos 100)

abbrev fits_table : ℤ → ℤ → String → Bool
fits_table table protocol group = eqb_ℤ table (pos 100) && eqb_ℤ protocol (pos 99)

wanted_in_table :
    any (shared fits_table) (desired_routes net_text (pos 99) input (second_half ∷ [])) ≡ true
unfolding desired_routes is_valid_addr is4
wanted_in_table = refl

own_address_listed : any (eqb_addr own_address) input.covered_local_addrs ≡ true
unfolding eqb_addr
own_address_listed = refl

covered-target_prefixes_example : covered (target_prefixes input "dual") own_address ≡ false
covered-target_prefixes_example =
    covered-target_prefixes input "dual" own_address own_address_listed

abbrev plan : GroupPlan
plan = record {
  group = "zone";
  source_type = "txt";
  target_table = pos 100;
  family = "dual";
  desired_prefix_count = 1;
  current_managed_route_count = 2;
  current_managed_rule_count = 1;
  routes_to_add = route second_half ∷ [];
  routes_to_remove = record (route second_half) { metric = pos 110 } ∷ route whole_net ∷ [];
  rules_to_add = [];
  rules_to_remove = [];
  source_from_fallback = false;
}

apply-perform_all_example :
    Routes.apply kernel net_text (plan ∷ []) empty_machine
    ≡ perform_all kernel (commands net_text (plan ∷ [])) empty_machine
apply-perform_all_example = apply-perform_all kernel net_text (plan ∷ []) empty_machine

count-commands_example :
    (count (deletes in_table) (commands net_text (plan ∷ []))
      ≡ count_each (λ gp. gp.routes_to_remove) in_table (plan ∷ []))
    × (count (adds in_table) (commands net_text (plan ∷ []))
        ≡ count_each (λ gp. gp.routes_to_add) in_table (plan ∷ []))
count-commands_example = count-commands net_text in_table (plan ∷ [])

abbrev ruled : Machine
ruled = record empty_machine { rules = rule ∷ record rule { priority = pos 20 } ∷ [] }

rule_listed :
    Rules.current_owned kernel (pos 100) (pos 1000) (pos 1000) (pos 10) "ipv4" ruled
    ≡ (ok (rule ∷ []), ruled)
unfolding Rules.current_owned Rules.owns add_int mul_int
rule_listed = refl

current_owned-IsOwned_example : All (IsOwned (pos 100) (pos 1000) (pos 1000) (pos 10)) (rule ∷ [])
current_owned-IsOwned_example =
    current_owned-IsOwned kernel (pos 100) (pos 1000) (pos 1000) (pos 10) "ipv4" ruled ruled
      (rule ∷ []) rule_listed
