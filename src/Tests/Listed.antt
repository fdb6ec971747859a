-- ===== src/Tests/Listed.antt =====
-- A group with nothing left to do: its routes and rules are those that netlink's conversions give.
use route_sync.Base.{◌≡◌, refl, true, [], ◌∷◌, map, arith, All, inl, inr}
use route_sync.Base.Int.{pos}
use route_sync.Netip.{is_valid, masked, is4, contains, is_valid_addr}
use route_sync.Rtnl.Netlink.{to_nl_route, listed_routes, to_nl_rule, listed_rules}
use route_sync.Rtnl.Netlink.RoundTrip.{IsDst, IsPlanned, IsPlannedRule}
use route_sync.Config.{RouteGroup}
use route_sync.Source.Sorting.{filter_family}
use route_sync.Planner.{
  InputGroup, build_group, desired_rules, desired_routes, target_prefixes,
  remove_prefixes_covering_addrs, plan_family, covers_addr, filter_addrs_by_family,
}
use route_sync.Planner.Build.{wanted_routes}
use route_sync.Planner.Settled.{build_group-settled, build_group-settled_rules}
use route_sync.Tests.Machine.{net_text, ranges, zone, second_half}
use route_sync.Tests.Plans.{route, rule, input}

second_half-IsDst : IsDst second_half
unfolding is_valid masked
second_half-IsDst = record { wire = omega arith; valid = refl; whole = refl }

route-IsPlanned : IsPlanned (route second_half)
route-IsPlanned = record { has_dst = second_half-IsDst; has_via = omega arith; has_type = inl refl }

rule-IsPlannedRule : IsPlannedRule rule
rule-IsPlannedRule = record { has_source = inr refl; has_mark = λ e. cc }

abbrev marked_zone : RouteGroup
marked_zone = record zone {
  rule = record {
    enabled = true;
    priority = pos 1000;
    fw_mark = 1;
    mask = 255;
    table = pos 100;
    from = "";
  };
}

abbrev settled : InputGroup
settled = record input {
  config = marked_zone;
  current_routes = listed_routes (map to_nl_route (route second_half ∷ []));
  current_rules = listed_rules (map to_nl_rule (record rule { group = "zone" } ∷ []));
}

settled-IsPlanned : All IsPlanned (wanted_routes net_text (pos 99) settled)
unfolding desired_routes target_prefixes remove_prefixes_covering_addrs filter_family plan_family
    covers_addr filter_addrs_by_family is4 contains is_valid_addr
settled-IsPlanned = (route-IsPlanned, tt)

settled_routes :
    settled.current_routes
    ≡ listed_routes (map to_nl_route (wanted_routes net_text (pos 99) settled))
unfolding desired_routes target_prefixes remove_prefixes_covering_addrs filter_family plan_family
    covers_addr filter_addrs_by_family is4 contains is_valid_addr
settled_routes = refl

build_group-settled_example :
    ((build_group net_text ranges (pos 99) settled).routes_to_add ≡ [])
    × ((build_group net_text ranges (pos 99) settled).routes_to_remove ≡ [])
build_group-settled_example =
    build_group-settled net_text ranges (λ f m. refl) (λ f m. refl) (pos 99) settled
      settled-IsPlanned settled_routes

settled-IsPlannedRule : All IsPlannedRule (desired_rules net_text marked_zone)
unfolding desired_rules
settled-IsPlannedRule = (record { has_source = inr refl; has_mark = λ e. cc }, tt)

settled_rules :
    settled.current_rules ≡ listed_rules (map to_nl_rule (desired_rules net_text marked_zone))
unfolding desired_rules
settled_rules = refl

build_group-settled_rules_example :
    ((build_group net_text ranges (pos 99) settled).rules_to_add ≡ [])
    × ((build_group net_text ranges (pos 99) settled).rules_to_remove ≡ [])
build_group-settled_rules_example =
    build_group-settled_rules net_text ranges (λ f m. refl) (λ f m. refl) (pos 99) settled
      settled-IsPlannedRule settled_rules
