-- ===== src/Tests/Tabled.antt =====
-- A plan applied to a kernel that is a list of routes, and keys.
use route_sync.Base.{
  keep, String, ◌≡◌, refl, Bool, true, false, not, ◌&&◌, ◌||◌, List, [], ◌∷◌, any, ap, sym,
}
use route_sync.Base.Int.{pos}
use route_sync.Base.Result.{ok, state_of_eq}
use route_sync.Rtnl.{Route, Kernel}
use route_sync.Planner.{InputGroup, build, build_group, route_key, rule_key, desired_rules}
use route_sync.Planner.Diff.{has_key}
use route_sync.Planner.Keys.{SameRoute, SameRule, route_key-SameRoute, rule_key-SameRule}
use route_sync.Planner.Build.{wanted_routes}
use route_sync.Reconcile.Routes
use route_sync.Reconcile.Routes.Table.{put, drop, keyed_in, IsTable}
use route_sync.Reconcile.Routes.Table.Applied.{barred, clash, in_slot_of}
use route_sync.Reconcile.Routes.Table.Restricted.{in_table}
use route_sync.Reconcile.Routes.Table.Groups.{touches, uses, apply-build}
use route_sync.Tests.Machine.{zone, target, net_text, ranges, second_half, whole_net}
use route_sync.Tests.Plans.{route, rule, input}

abbrev list_kernel : Kernel
list_kernel = record {
  State = List Route;
  link_index_by_name = λ name s. (ok (pos 2), s);
  list_routes = λ table family protocol s. (ok s, s);
  add_route = λ r s. (ok tt, put net_text r s);
  delete_route = λ r s. (ok tt, drop net_text r s);
  list_rules = λ family s. (ok [], s);
  add_rule = λ r s. (ok tt, s);
  delete_rule = λ r s. (ok tt, s);
}

abbrev list_kernel-IsTable : IsTable net_text list_kernel (λ s. s)
list_kernel-IsTable = record {
  exact = λ r. true;
  added = λ r s t x e. sym (state_of_eq e);
  deleted = λ r s t x e. sym (state_of_eq e);
}

abbrev start : List Route
start = route whole_net ∷ []

-- A group of another table, for the same networks.
abbrev other : InputGroup
other = record input {
  config = record zone { target = record target { table = pos 200 } };
  current_routes = [];
  current_rules = [];
}

abbrev groups : List InputGroup
groups = other ∷ input ∷ []

abbrev wanted : List Route
wanted = wanted_routes net_text (pos 99) input

abbrev after : List Route
after = (Routes.apply list_kernel net_text (build net_text ranges (pos 99) groups) start).1

applied :
    Routes.apply list_kernel net_text (build net_text ranges (pos 99) groups) start ≡ (ok tt, after)
unfolding Routes.apply Routes.conflicting_route_removals build_group route_sync.Planner.Diff.diff_by
    route_sync.Base.Maps.insert route_sync.Base.Maps.lookup route_sync.Planner.desired_routes
    route_sync.Planner.remove_prefixes_covering_addrs route_sync.Source.Sorting.filter_family
    route_sync.Planner.covers_addr route_sync.Planner.filter_addrs_by_family route_sync.Netip.is4
    route_sync.Netip.contains route_sync.Netip.is_valid_addr route_key route_sync.Base.Int.show_ℤ
    route_sync.Netip.eqb_prefix route_sync.Base.Int.show_ℕ route_sync.Planner.target_prefixes
    route_sync.Planner.plan_family Routes.late_route_removals route_sync.Planner.diff_routes drop
    put route_sync.Planner.matching_hops route_sync.Planner.prefix_routes
    route_sync.Planner.default_routes Routes.replace_routes Routes.remove_routes
    Routes.route_identity_set Routes.route_identity build
applied = refl

elsewhere : any (touches (pos 100)) (other ∷ []) ≡ false
elsewhere = refl

within : any (λ r. not (in_table (pos 100) r)) input.current_routes ≡ false
within = refl

unbarred : any (barred net_text) start ≡ false
unfolding route_sync.Base.Text.has_any route_sync.Base.Int.show_ℕ
unbarred = refl

unbarred_wanted : any (barred net_text) wanted ≡ false
unfolding route_sync.Planner.desired_routes route_sync.Planner.target_prefixes
    route_sync.Planner.remove_prefixes_covering_addrs route_sync.Source.Sorting.filter_family
    route_sync.Planner.plan_family route_sync.Planner.covers_addr
    route_sync.Planner.filter_addrs_by_family route_sync.Netip.is4 route_sync.Netip.contains
    route_sync.Netip.is_valid_addr route_sync.Base.Text.has_any route_sync.Base.Int.show_ℕ
unbarred_wanted = refl

compatible : any (λ a. any (clash net_text a) wanted) wanted ≡ false
unfolding route_sync.Planner.desired_routes route_sync.Planner.target_prefixes
    route_sync.Planner.remove_prefixes_covering_addrs route_sync.Source.Sorting.filter_family
    route_sync.Planner.plan_family route_sync.Planner.covers_addr
    route_sync.Planner.filter_addrs_by_family route_sync.Netip.is4 route_sync.Netip.contains
    route_sync.Netip.is_valid_addr route_sync.Netip.eqb_prefix route_sync.Base.Int.show_ℕ route_key
    route_sync.Base.Int.show_ℤ
compatible = refl

known : any (λ q. in_slot_of net_text wanted q && not (keyed_in net_text start q)) start ≡ false
unfolding route_sync.Planner.desired_routes route_sync.Planner.target_prefixes
    route_sync.Planner.remove_prefixes_covering_addrs route_sync.Source.Sorting.filter_family
    route_sync.Planner.plan_family route_sync.Planner.covers_addr
    route_sync.Planner.filter_addrs_by_family route_sync.Netip.is4 route_sync.Netip.contains
    route_sync.Netip.is_valid_addr route_sync.Netip.eqb_prefix route_sync.Base.Int.show_ℕ
known = refl

listed : any (λ c. not (keyed_in net_text start c)) start ≡ false
unfolding route_key route_sync.Base.Int.show_ℤ route_sync.Netip.eqb_prefix
listed = refl

as_given : any (uses net_text (pos 99) (λ r. false)) groups ≡ false
unfolding route_sync.Planner.desired_routes route_sync.Planner.target_prefixes
    route_sync.Planner.remove_prefixes_covering_addrs route_sync.Source.Sorting.filter_family
    route_sync.Planner.plan_family route_sync.Planner.covers_addr
    route_sync.Planner.filter_addrs_by_family route_sync.Netip.is4 route_sync.Netip.contains
    route_sync.Netip.is_valid_addr
as_given = refl

abbrev key : String
key = route_key net_text (route second_half)

apply-build_example : has_key (route_key net_text) key (keep (in_table (pos 100)) after) ≡ (
    (has_key (route_key net_text) key (keep (in_table (pos 100)) start)
      && not (has_key (route_key net_text) key input.current_routes))
    || has_key (route_key net_text) key wanted)
apply-build_example =
    apply-build net_text ranges (λ f m. refl) (λ f m. refl) list_kernel (λ s. s) list_kernel-IsTable
      (pos 99) (other ∷ []) [] input start after elsewhere within unbarred unbarred unbarred_wanted
      compatible known listed as_given applied key

route_key-SameRoute_example : SameRoute net_text (route whole_net) (route whole_net)
unfolding route_sync.Base.Text.has_any route_sync.Base.Int.show_ℕ
route_key-SameRoute_example =
    route_key-SameRoute net_text (route whole_net) (route whole_net) refl refl refl

rule_key-SameRule_example : SameRule net_text rule rule
rule_key-SameRule_example = rule_key-SameRule net_text rule rule refl
