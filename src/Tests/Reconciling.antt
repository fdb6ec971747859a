-- ===== src/Tests/Reconciling.antt =====
-- A reconciliation and a clean-up on a machine that is a list of routes and a list of rules.
use route_sync.Base.{
  ◌≡◌, refl, sym, ◌∙◌, ap, String, Bool, true, false, not, ◌&&◌, ◌||◌, none, List, [], ◌∷◌, any,
  any-keep, none_of, keep, arith, str_eq, if◌then◌else◌,
}
use route_sync.Base.Int.{ℤ, pos, eqb_ℤ}
use route_sync.Base.Result.{Result, ok, err, value_of_eq, state_of_eq}
use route_sync.Netip.{is4, is6}
use route_sync.Config.{groups}
use route_sync.Rtnl.{Route, Rule}
use route_sync.Planner.{InputGroup, route_key, rule_key, desired_rules}
use route_sync.Planner.Diff.{has_key}
use route_sync.Planner.Build.{wanted_routes}
use route_sync.Reconcile.Routes
use route_sync.Reconcile.Rules
use route_sync.Reconcile.Routes.Table.{same_key}
use route_sync.Reconcile.Routes.Table.Applied.{barred, clash, in_slot_of}
use route_sync.Reconcile.Routes.Table.Restricted.{in_table}
use route_sync.Reconcile.Rules.Table.{mentions}
use route_sync.Reconcile.Removals.{same_rule}
use route_sync.App.World.{World, AppState}
use route_sync.App.Plan.{build_inputs}
use route_sync.App.Tables.{Lists, IsMachine, own_route, own_rule}
use route_sync.App.Run.{reconcile_once, cleanup_owned}
use route_sync.App.Run.Reads.{ReadsKeep}
use route_sync.App.Run.Cleaned.{Without, cleanup_owned-Without}
use route_sync.App.Run.Cleaned.Plans.{route_of_group, rule_of_group}
use route_sync.App.Run.Reconciled.{
  uses_route, uses_rule, reconcile_once-routes, reconcile_once-rules,
}
use route_sync.Tests.Machine.{Machine, net_text, world, config, second_half, whole_net, kernel}
use route_sync.Tests.Plans.{route, rule, input}

abbrev of_family : ℤ → Route → Bool
of_family f q = if eqb_ℤ f (pos 4) then is4 q.dst.ip else is6 q.dst.ip

abbrev rule_of_family : ℤ → Rule → Bool
rule_of_family f q = eqb_ℤ f (pos 4)

abbrev listing : ℤ → ℤ → ℤ → Route → Bool
listing n family protocol q = in_table n q && eqb_ℤ q.protocol protocol && of_family family q

abbrev lists : World
lists = record world {
  kernel = record kernel {
    list_routes = λ n family protocol s. (ok (keep (listing n family protocol) s.routes), s);
    add_route = λ r s. (ok tt, record s { routes = Routes.Table.put net_text r s.routes });
    delete_route = λ r s. (ok tt, record s { routes = Routes.Table.drop net_text r s.routes });
    list_rules = λ family s. (ok (keep (rule_of_family family) s.rules), s);
    add_rule = λ r s. (ok tt, record s { rules = Rules.Table.put net_text r s.rules });
    delete_rule = λ r s. (ok tt, record s { rules = Rules.Table.drop net_text r s.rules });
  };
}

abbrev routes_of : Machine → List Route
routes_of m = m.routes

abbrev rules_of : Machine → List Rule
rules_of m = m.rules

keep-Lists :
    {A : Type 0} (view : Machine → List A) (test : A → Bool)
    → Lists view (λ s. (ok (keep test (view s)), s)) test
keep-Lists view test s t xs e = (
  λ f. ap (any f) (sym (value_of_eq e)) ∙ any-keep f test (view s),
  ap view (sym (state_of_eq e)),
)

keeps_routes : (v : List Route) → ReadsKeep lists (λ t. t.routes ≡ v)
keeps_routes v = record {
  links = λ name s p. p;
  pings = λ dev a timeout s p. p;
  ripe = λ country timeout s p. p;
  txt = λ url timeout s p. p;
  addrs = λ s p. p;
  routes = λ table family protocol s p. p;
  rules = λ family s p. p;
  mkdirs = λ dir s p. p;
  reads = λ name s p. p;
  writes = λ name bytes s p. p;
}

keeps_rules : (v : List Rule) → ReadsKeep lists (λ t. t.rules ≡ v)
keeps_rules v = record {
  links = λ name s p. p;
  pings = λ dev a timeout s p. p;
  ripe = λ country timeout s p. p;
  txt = λ url timeout s p. p;
  addrs = λ s p. p;
  routes = λ table family protocol s p. p;
  rules = λ family s p. p;
  mkdirs = λ dir s p. p;
  reads = λ name s p. p;
  writes = λ name bytes s p. p;
}

abbrev lists-IsMachine : IsMachine lists routes_of rules_of of_family rule_of_family
lists-IsMachine = record {
  table = record {
    exact = λ r. true;
    added = λ r s t x e. ap routes_of (sym (state_of_eq e));
    deleted = λ r s t x e. ap routes_of (sym (state_of_eq e));
  };
  rule_table = record {
    exact = λ r. true;
    added = λ r s t x e. ap rules_of (sym (state_of_eq e));
    deleted = λ r s t x e. ap rules_of (sym (state_of_eq e));
  };
  lists_routes = λ n family protocol. keep-Lists routes_of (listing n family protocol);
  lists_rules = λ family. keep-Lists rules_of (rule_of_family family);
  add_rule_apart = λ r v s p. p;
  delete_rule_apart = λ r v s p. p;
  add_route_apart = λ r v s p. p;
  delete_route_apart = λ r v s p. p;
  reads_routes = keeps_routes;
  reads_rules = keeps_rules;
}

abbrev start : AppState Machine
start = record {
  outside = record { routes = route whole_net ∷ []; rules = rule ∷ []; file = none };
  registry = record { counters = []; gauges = [] };
}

abbrev cleaned : AppState Machine
cleaned = (cleanup_owned lists config false start).1

cleaned_up : cleanup_owned lists config false start ≡ (ok tt, cleaned)
unfolding cleanup_owned route_sync.App.Plan.build_cleanup_plan groups Routes.current_owned
    Rules.current_owned Rules.apply Rules.owns route_sync.Base.Int.add_int
    route_sync.Base.Int.mul_int Routes.apply Routes.conflicting_route_removals is4 is6
    Routes.late_route_removals
cleaned_up = refl

never : {A : Type 0} (p : A → Bool) (xs : List A) → any (λ x. p x && false) xs ≡ false
never p xs = none_of (λ x. p x && false) xs (λ x i. ground arith)

whole_routes :
    any
      (λ q. any (route_of_group of_family rule_of_family config q) (groups config) && false)
      start.outside.routes
    ≡ false
whole_routes =
    never (λ q. any (route_of_group of_family rule_of_family config q) (groups config))
      start.outside.routes

whole_rules :
    any
      (λ q. any (rule_of_group of_family rule_of_family config q) (groups config) && false)
      start.outside.rules
    ≡ false
whole_rules =
    never (λ q. any (rule_of_group of_family rule_of_family config q) (groups config))
      start.outside.rules

cleanup_owned-Without_example :
    Without
      (same_key net_text)
      (λ q. any (route_of_group of_family rule_of_family config q) (groups config))
      start.outside.routes
      cleaned.outside.routes
    × Without
        (same_rule net_text)
        (λ q. any (rule_of_group of_family rule_of_family config q) (groups config))
        start.outside.rules
        cleaned.outside.rules
cleanup_owned-Without_example =
    cleanup_owned-Without lists routes_of rules_of of_family rule_of_family lists-IsMachine config
      start cleaned whole_routes whole_rules cleaned_up

-- The input that BuildPlan makes of the zone.
abbrev first_of : Result (List InputGroup) → InputGroup
first_of (err e) = input
first_of (ok []) = input
first_of (ok (i ∷ is)) = i

abbrev made : Result (List InputGroup) × AppState Machine
made = build_inputs lists config (groups config) start

abbrev zone_input : InputGroup
zone_input = first_of made.0

zone_made : build_inputs lists config (groups config) start ≡ (ok (zone_input ∷ []), made.1)
unfolding build_inputs groups route_sync.State.save_group route_sync.Source.Normalize.normalize
    route_sync.Source.Aggregate.aggregate route_sync.Source.Sorting.sort_prefixes
    route_sync.Netip.is_valid route_sync.App.Candidates.resolve_target_hops route_sync.Health.select
    route_sync.Netip.is_valid_addr is4 route_sync.App.Candidates.resolve_default_hops
    Routes.current_owned Rules.current_owned route_sync.App.Locals.exclusion_inputs
zone_made = refl

abbrev after : AppState Machine
after = (reconcile_once lists config false start).1

reconciled : reconcile_once lists config false start ≡ (ok tt, after)
unfolding reconcile_once route_sync.App.Plan.build_plan groups route_sync.State.save_group
    route_sync.Source.Normalize.normalize route_sync.Source.Aggregate.aggregate
    route_sync.Source.Sorting.sort_prefixes route_sync.Netip.is_valid
    route_sync.App.Candidates.resolve_target_hops route_sync.Health.select
    route_sync.Netip.is_valid_addr is4 route_sync.App.Candidates.resolve_default_hops
    Routes.current_owned Rules.current_owned route_sync.App.Locals.exclusion_inputs Rules.apply
    Rules.owns route_sync.Base.Int.add_int route_sync.Base.Int.mul_int Routes.apply
    Routes.conflicting_route_removals is6 Routes.late_route_removals route_sync.Planner.build_group
    route_sync.Planner.Diff.diff_by route_sync.Base.Maps.insert route_sync.Base.Maps.lookup
    route_sync.Planner.desired_routes route_sync.Planner.remove_prefixes_covering_addrs
    route_sync.Source.Sorting.filter_family route_sync.Planner.covers_addr
    route_sync.Planner.filter_addrs_by_family route_sync.Netip.contains route_sync.Planner.route_key
    route_sync.Base.Int.show_ℤ route_sync.Netip.eqb_prefix route_sync.Base.Int.show_ℕ
    route_sync.Planner.target_prefixes route_sync.Planner.plan_family route_sync.Planner.diff_routes
    Routes.Table.drop Routes.Table.put route_sync.Planner.matching_hops
    route_sync.Planner.prefix_routes route_sync.Planner.default_routes Routes.replace_routes
    Routes.remove_routes Routes.route_identity_set Routes.route_identity route_sync.Planner.build
    route_sync.Planner.desired_rules route_sync.Planner.rule_key
    route_sync.Netip.Classes.addr_from_slice route_sync.Netip.masked route_sync.Netip.Classes.unmap
    route_sync.Netip.Classes.is_private route_sync.Netip.Classes.is_loopback
    route_sync.Netip.Classes.is_link_local_unicast route_sync.Netip.Classes.is_multicast
    route_sync.Netip.Classes.is_global_unicast
reconciled = refl

abbrev wanted : List Route
wanted = wanted_routes net_text (pos 99) zone_input

unbarred : any (barred net_text) (keep (in_table (pos 100)) start.outside.routes) ≡ false
unfolding route_sync.Base.Text.has_any route_sync.Base.Int.show_ℕ
unbarred = refl

unbarred_wanted : any (barred net_text) wanted ≡ false
unfolding build_inputs groups route_sync.State.save_group route_sync.Source.Normalize.normalize
    route_sync.Source.Aggregate.aggregate route_sync.Source.Sorting.sort_prefixes
    route_sync.Netip.is_valid route_sync.App.Candidates.resolve_target_hops route_sync.Health.select
    route_sync.Netip.is_valid_addr is4 route_sync.App.Candidates.resolve_default_hops
    Routes.current_owned Rules.current_owned route_sync.App.Locals.exclusion_inputs
    route_sync.Base.Text.has_any route_sync.Base.Int.show_ℕ route_sync.Base.Int.show_ℤ
    route_sync.Planner.desired_routes route_sync.Planner.target_prefixes
    route_sync.Planner.remove_prefixes_covering_addrs route_sync.Source.Sorting.filter_family
    route_sync.Planner.plan_family route_sync.Planner.covers_addr
    route_sync.Planner.filter_addrs_by_family route_sync.Netip.contains route_sync.Netip.masked
    route_sync.Netip.eqb_prefix route_key is6 route_sync.Planner.matching_hops
    route_sync.Planner.prefix_routes route_sync.Planner.default_routes
    route_sync.Netip.Classes.addr_from_slice route_sync.Netip.Classes.unmap
    route_sync.Netip.Classes.is_private route_sync.Netip.Classes.is_loopback
    route_sync.Netip.Classes.is_link_local_unicast route_sync.Netip.Classes.is_multicast
    route_sync.Netip.Classes.is_global_unicast Rules.owns route_sync.Base.Int.add_int
    route_sync.Base.Int.mul_int
unbarred_wanted = refl

compatible : any (λ a. any (clash net_text a) wanted) wanted ≡ false
unfolding build_inputs groups route_sync.State.save_group route_sync.Source.Normalize.normalize
    route_sync.Source.Aggregate.aggregate route_sync.Source.Sorting.sort_prefixes
    route_sync.Netip.is_valid route_sync.App.Candidates.resolve_target_hops route_sync.Health.select
    route_sync.Netip.is_valid_addr is4 route_sync.App.Candidates.resolve_default_hops
    Routes.current_owned Rules.current_owned route_sync.App.Locals.exclusion_inputs
    route_sync.Base.Text.has_any route_sync.Base.Int.show_ℕ route_sync.Base.Int.show_ℤ
    route_sync.Planner.desired_routes route_sync.Planner.target_prefixes
    route_sync.Planner.remove_prefixes_covering_addrs route_sync.Source.Sorting.filter_family
    route_sync.Planner.plan_family route_sync.Planner.covers_addr
    route_sync.Planner.filter_addrs_by_family route_sync.Netip.contains route_sync.Netip.masked
    route_sync.Netip.eqb_prefix route_key is6 route_sync.Planner.matching_hops
    route_sync.Planner.prefix_routes route_sync.Planner.default_routes
    route_sync.Netip.Classes.addr_from_slice route_sync.Netip.Classes.unmap
    route_sync.Netip.Classes.is_private route_sync.Netip.Classes.is_loopback
    route_sync.Netip.Classes.is_link_local_unicast route_sync.Netip.Classes.is_multicast
    route_sync.Netip.Classes.is_global_unicast Rules.owns route_sync.Base.Int.add_int
    route_sync.Base.Int.mul_int
compatible = refl

domestic :
    any
      (λ q.
        in_slot_of net_text wanted q
        && not (own_route of_family rule_of_family config zone_input.config q))
      (keep (in_table (pos 100)) start.outside.routes)
    ≡ false
unfolding build_inputs groups route_sync.State.save_group route_sync.Source.Normalize.normalize
    route_sync.Source.Aggregate.aggregate route_sync.Source.Sorting.sort_prefixes
    route_sync.Netip.is_valid route_sync.App.Candidates.resolve_target_hops route_sync.Health.select
    route_sync.Netip.is_valid_addr is4 route_sync.App.Candidates.resolve_default_hops
    Routes.current_owned Rules.current_owned route_sync.App.Locals.exclusion_inputs
    route_sync.Base.Text.has_any route_sync.Base.Int.show_ℕ route_sync.Base.Int.show_ℤ
    route_sync.Planner.desired_routes route_sync.Planner.target_prefixes
    route_sync.Planner.remove_prefixes_covering_addrs route_sync.Source.Sorting.filter_family
    route_sync.Planner.plan_family route_sync.Planner.covers_addr
    route_sync.Planner.filter_addrs_by_family route_sync.Netip.contains route_sync.Netip.masked
    route_sync.Netip.eqb_prefix route_key is6 route_sync.Planner.matching_hops
    route_sync.Planner.prefix_routes route_sync.Planner.default_routes
    route_sync.Netip.Classes.addr_from_slice route_sync.Netip.Classes.unmap
    route_sync.Netip.Classes.is_private route_sync.Netip.Classes.is_loopback
    route_sync.Netip.Classes.is_link_local_unicast route_sync.Netip.Classes.is_multicast
    route_sync.Netip.Classes.is_global_unicast Rules.owns route_sync.Base.Int.add_int
    route_sync.Base.Int.mul_int
domestic = refl

given_routes :
    any
      (uses_route of_family rule_of_family lists config start.outside.routes (λ r. false))
      (zone_input ∷ [])
    ≡ false
given_routes =
    none_of (uses_route of_family rule_of_family lists config start.outside.routes (λ r. false))
      (zone_input ∷ [])
      (λ i j. ground (
        arith,
        none_of (λ r. false) (wanted_routes net_text (pos 99) i) (λ r k. refl),
        never (λ q. own_route of_family rule_of_family config i.config q) start.outside.routes,
      ))

given_rules :
    any
      (uses_rule of_family rule_of_family lists config start.outside.rules (λ r. false))
      (zone_input ∷ [])
    ≡ false
given_rules =
    none_of (uses_rule of_family rule_of_family lists config start.outside.rules (λ r. false))
      (zone_input ∷ [])
      (λ i j. ground (
        arith,
        none_of (λ r. false) (desired_rules net_text i.config) (λ r k. refl),
        never (λ q. own_rule of_family rule_of_family config i.config q) start.outside.rules,
      ))

abbrev key : String
key = route_key net_text (route second_half)

reconcile_once-routes_example :
    has_key (route_key net_text) key (keep (in_table (pos 100)) after.outside.routes) ≡ (
      (has_key (route_key net_text) key (keep (in_table (pos 100)) start.outside.routes)
        && not (
            any
              (λ q.
                own_route of_family rule_of_family config zone_input.config q
                && str_eq (route_key net_text q) key)
              start.outside.routes))
      || has_key (route_key net_text) key wanted)
unfolding build_inputs route_sync.Base.Text.has_any groups route_sync.State.save_group
    route_sync.Source.Normalize.normalize route_sync.Base.Int.show_ℕ
    route_sync.Source.Aggregate.aggregate route_sync.Source.Sorting.sort_prefixes
    route_sync.Netip.is_valid route_sync.App.Candidates.resolve_target_hops route_sync.Health.select
    route_sync.Netip.is_valid_addr is4 route_sync.App.Candidates.resolve_default_hops
    Routes.current_owned Rules.current_owned route_sync.App.Locals.exclusion_inputs
reconcile_once-routes_example =
    reconcile_once-routes lists routes_of rules_of of_family rule_of_family lists-IsMachine config
      (λ f m. refl) (λ f m. refl) [] [] zone_input start made.1 after key zone_made refl unbarred
      unbarred_wanted compatible domestic given_routes reconciled

abbrev rule_name : String
rule_name = rule_key net_text (record rule { has_fw_mark = false; mask = 0 })

reconcile_once-rules_example : has_key (rule_key net_text) rule_name after.outside.rules ≡ (
    (has_key (rule_key net_text) rule_name start.outside.rules
      && not (
          any
            (λ q.
              own_rule of_family rule_of_family config zone_input.config q
              && str_eq (rule_key net_text q) rule_name)
            start.outside.rules))
    || has_key (rule_key net_text) rule_name (desired_rules net_text zone_input.config))
reconcile_once-rules_example =
    reconcile_once-rules lists routes_of rules_of of_family rule_of_family lists-IsMachine config
      (λ f m. refl) (λ f m. refl) [] [] zone_input start made.1 after rule_name zone_made refl
      given_rules reconciled
