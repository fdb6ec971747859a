-- ===== src/Planner.antt =====
-- internal/planner/planner.go: the routes and rules that a group wants, and the plan that leads
-- from the current ones to them.
pub mod Diff
pub mod Exclusion
pub mod Build
pub mod Keys
pub mod Settled
pub mod Show
use route_sync.Base.{
  ℕ, String, ◌<>◌, Bool, true, false, not, ◌&&◌, ◌||◌, Option, none, some, List, [], ◌∷◌, ◌++◌, map,
  any, keep, length, ◌==◌, str_eq, eqb_bool, if◌then◌else◌,
}
use route_sync.Base.Int.{ℤ, pos, show_ℕ, show_ℤ}
use route_sync.Base.Maps.{GoMap}
use route_sync.Netip.{
  Addr, Prefix, zero_addr, zero_prefix, ip4, ip6, is4, is6, is_valid_addr, contains,
}
use route_sync.Netip.Text.{NetipText}
use route_sync.Source.Sorting.{filter_family}
use route_sync.Config.{NextHopConfig, TargetConfig, RouteGroup}
use route_sync.Health.{ResolvedHop}
use route_sync.Rtnl.{Route, Rule, route_type_unicast, route_type_throw}
use route_sync.Planner.Diff.{diff_by}

pub record GroupPlan : Type 0 where
  pub group : String
  pub source_type : String
  pub target_table : ℤ
  pub family : String
  pub desired_prefix_count : ℕ
  pub current_managed_route_count : ℕ
  pub current_managed_rule_count : ℕ
  pub routes_to_add : List Route
  pub routes_to_remove : List Route
  pub rules_to_add : List Rule
  pub rules_to_remove : List Rule
  pub source_from_fallback : Bool

pub record InputGroup : Type 0 where
  pub config : RouteGroup
  pub prefixes : List Prefix
  pub throw_prefixes : List Prefix
  pub covered_local_addrs : List Addr
  pub source_type : String
  pub from_fallback : Bool
  pub link_index : ℤ
  pub default_link_index : ℤ
  pub target_hops : List ResolvedHop
  pub default_hops : List ResolvedHop
  pub current_routes : List Route
  pub current_rules : List Rule

-- matchingHops
unfoldable pub matching_hops : List ResolvedHop → Prefix → List ResolvedHop
matching_hops hops p = keep (λ h. is_valid_addr h.via && eqb_bool (is4 h.via) (is4 p.ip)) hops

-- The inner loop of removePrefixesCoveringAddrs.
unfoldable pub covers_addr : List Addr → Prefix → Bool
covers_addr addrs p = any (λ a. eqb_bool (is4 p.ip) (is4 a) && contains p a) addrs

-- removePrefixesCoveringAddrs
unfoldable pub remove_prefixes_covering_addrs : List Prefix → List Addr → List Prefix
remove_prefixes_covering_addrs prefixes addrs = keep (λ p. not (covers_addr addrs p)) prefixes

-- filterAddrsByFamily
unfoldable pub filter_addrs_by_family : List Addr → String → List Addr
filter_addrs_by_family addrs family =
    if str_eq family "" || str_eq family "dual"
    then addrs
    else keep (λ a. (str_eq family "ipv4" && is4 a) || (str_eq family "ipv6" && is6 a)) addrs

-- defaultPrefixes
unfoldable pub default_prefixes : String → List Prefix
default_prefixes family =
    let v4 : Prefix = record { ip = ip4 0; bits_plus_one = 1 } in
    let v6 : Prefix = record { ip = ip6 0 ""; bits_plus_one = 1 } in
    if str_eq family "ipv4" then v4 ∷ [] else if str_eq family "ipv6" then v6 ∷ [] else v4 ∷ v6 ∷ []

-- A route of the group with the fields that the code leaves at their zero values.
abbrev bare_route : RouteGroup → ℤ → Prefix → Route
bare_route g protocol p = record {
  group = g.name;
  table = g.target.table;
  protocol = protocol;
  route_type = route_type_unicast;
  dev = "";
  link_index = pos 0;
  via = zero_addr;
  on_link = false;
  metric = pos 0;
  dst = p;
}

-- The route through a resolved hop.
abbrev hop_route : RouteGroup → ℤ → Prefix → ResolvedHop → Route
hop_route g protocol p hop = record (bare_route g protocol p) {
  dev = hop.dev;
  link_index = hop.link_index;
  via = hop.via;
  on_link = hop.on_link;
  metric = hop.metric;
}

abbrev throw_route : RouteGroup → ℤ → Prefix → Route
throw_route g protocol p = record (bare_route g protocol p) { route_type = route_type_throw }

abbrev addr_or_zero : Option Addr → Addr
addr_or_zero none = zero_addr
addr_or_zero (some a) = a

-- The body of the first and of the third loop of desiredRoutes: a route through every matching
-- hop, or one route as configured.
unfoldable pub prefix_routes :
    (Prefix → Route) → RouteGroup → ℤ → List ResolvedHop → Prefix → List Route
unfolding matching_hops
prefix_routes plain g protocol hops p = elim (matching_hops hops p) [
  | [] ↦ plain p ∷ []
  | h ∷ hs ↦ map (hop_route g protocol p) (h ∷ hs)
]

-- A loop that appends a list for each prefix.
abbrev append_each : (Prefix → List Route) → List Prefix → List Route
append_each f [] = []
append_each f (p ∷ ps) = f p ++ append_each f ps

abbrev prefix_or_zero : Option Prefix → Prefix
prefix_or_zero none = zero_prefix
prefix_or_zero (some p) = p

-- `%t`
abbrev show_bool : Bool → String
show_bool b = if b then "true" else "false"

module _ (text : NetipText) where
  -- netip.ParseAddr with its error dropped, which leaves the zero Addr.
  abbrev parse_or_zero : String → Addr
  parse_or_zero s = addr_or_zero (text.parse_addr s)

  -- nextHopVia, over the three texts of a next hop
  unfoldable pub next_hop_via : String → String → String → Prefix → Addr
  next_hop_via via via4 via6 p =
      if is4 p.ip && not (str_eq via4 "")
      then parse_or_zero via4
      else if is6 p.ip && not (str_eq via6 "")
      then parse_or_zero via6
      else if str_eq via ""
      then zero_addr
      else if (is4 p.ip && is4 (parse_or_zero via)) || (is6 p.ip && is6 (parse_or_zero via))
      then parse_or_zero via
      else zero_addr

  abbrev target_route : ℤ → InputGroup → Prefix → Route
  target_route protocol g p = record (bare_route g.config protocol p) {
    dev = g.config.target.dev;
    link_index = g.link_index;
    via = next_hop_via g.config.target.via g.config.target.via4 g.config.target.via6 p;
    on_link = g.config.target.on_link;
  }

  abbrev default_route : ℤ → InputGroup → NextHopConfig → Prefix → Route
  default_route protocol g d p = record (bare_route g.config protocol p) {
    dev = d.dev;
    link_index = g.default_link_index;
    via = next_hop_via d.via d.via4 d.via6 p;
    on_link = d.on_link;
  }

  unfoldable pub default_routes : ℤ → InputGroup → Option NextHopConfig → List Route
  unfolding next_hop_via prefix_routes default_prefixes
  default_routes protocol g none = []
  default_routes protocol g (some d) =
      append_each (prefix_routes (default_route protocol g d) g.config protocol g.default_hops)
        (default_prefixes g.config.target.family)

  -- desiredRoutes
  unfoldable pub desired_routes : ℤ → InputGroup → List Prefix → List Route
  unfolding default_routes
  desired_routes protocol g prefixes =
      append_each (prefix_routes (target_route protocol g) g.config protocol g.target_hops) prefixes
      ++ (map (throw_route g.config protocol)
            (filter_family g.throw_prefixes g.config.target.family)
          ++ default_routes protocol g g.config.target.default)

  -- desiredRules
  unfoldable pub desired_rules : RouteGroup → List Rule
  desired_rules g =
      if g.rule.enabled
      then record {
        group = g.name;
        priority = g.rule.priority;
        table = g.rule.table;
        has_fw_mark = not (g.rule.mask == 0);
        fw_mark = g.rule.fw_mark;
        mask = g.rule.mask;
        from =
            if str_eq g.rule.from ""
            then zero_prefix
            else prefix_or_zero (text.parse_prefix g.rule.from);
      }
        ∷ []
      else []

  -- routeKey
  unfoldable pub route_key : Route → String
  route_key r =
      show_ℤ r.table
      <> ("|"
          <> (show_ℤ r.protocol
              <> ("|"
                  <> (show_ℤ r.route_type
                      <> ("|"
                          <> (show_ℤ r.link_index
                              <> ("|"
                                  <> (text.addr_string r.via
                                      <> ("|"
                                          <> (show_bool r.on_link
                                              <> ("|"
                                                  <> (show_ℤ r.metric
                                                      <> ("|"
                                                          <> text.prefix_string r.dst)))))))))))))

  -- ruleKey
  unfoldable pub rule_key : Rule → String
  rule_key r =
      show_ℤ r.priority
      <> ("|"
          <> (show_ℤ r.table
              <> ("|"
                  <> (show_bool r.has_fw_mark
                      <> ("|"
                          <> (show_ℕ r.fw_mark
                              <> ("|"
                                  <> (show_ℕ r.mask <> ("|" <> text.prefix_string r.from)))))))))

-- The orders in which Go ranges over the maps of routes and of rules.
pub record Ranges : Type 0 where
  pub routes : GoMap Route → GoMap Route
  pub rules : GoMap Rule → GoMap Rule

module _ (text : NetipText) (ranges : Ranges) where
  -- diffRoutes
  unfoldable pub diff_routes : List Route → List Route → List Route × List Route
  diff_routes = diff_by (route_key text) ranges.routes

  -- diffRules
  unfoldable pub diff_rules : List Rule → List Rule → List Rule × List Rule
  diff_rules = diff_by (rule_key text) ranges.rules

-- `prefixes` of Build, at the family of the group
unfoldable pub target_prefixes : InputGroup → String → List Prefix
target_prefixes g family =
    remove_prefixes_covering_addrs (filter_family g.prefixes family)
      (filter_addrs_by_family g.covered_local_addrs family)

-- The family of Build: "dual" if none is configured.
unfoldable pub plan_family : String → String
plan_family family = if str_eq family "" then "dual" else family

module _ (text : NetipText) (ranges : Ranges) where
  -- The body of the loop of Build.
  unfoldable pub build_group : ℤ → InputGroup → GroupPlan
  unfolding target_prefixes plan_family diff_routes diff_rules
  build_group protocol g =
      let family = plan_family g.config.target.family in
      let prefixes = target_prefixes g family in
      let routes =
        diff_routes text ranges (desired_routes text protocol g prefixes) g.current_routes in
      let rules = diff_rules text ranges (desired_rules text g.config) g.current_rules in
      record {
        group = g.config.name;
        source_type = g.source_type;
        target_table = g.config.target.table;
        family = family;
        desired_prefix_count = length prefixes;
        current_managed_route_count = length g.current_routes;
        current_managed_rule_count = length g.current_rules;
        routes_to_add = routes.0;
        routes_to_remove = routes.1;
        rules_to_add = rules.0;
        rules_to_remove = rules.1;
        source_from_fallback = g.from_fallback;
      }

  -- Build
  unfoldable pub build : ℤ → List InputGroup → List GroupPlan
  build protocol = map (build_group protocol)
