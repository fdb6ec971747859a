-- ===== src/Config/Validate.antt =====
-- Validate of internal/config/config.go and the functions below it. Each returns its `errs`.
pub mod Hops
pub mod Sound
use route_sync.Base.{
  ℕ, suc, String, ◌<>◌, Bool, true, false, not, ◌&&◌, ◌||◌, Option, none, some, List, [], ◌∷◌, ◌++◌,
  str_eq, if◌then◌else◌,
}
use route_sync.Base.Int.{ℤ, pos, ltb_ℤ, leb_ℤ, eqb_ℤ, show_ℕ, show_ℤ}
use route_sync.Base.Result.{Result, ok, err}
use route_sync.Base.Text.{trim_space, join}
use route_sync.Netip.{Addr, is4, is6, is_valid_addr}
use route_sync.Netip.Text.{NetipText}
use route_sync.Config.{
  HealthCheck, GatewayConfig, NextHopConfig, RuleConfig, TargetConfig, RouteGroup, Config, coalesce,
  merge_health_checks, groups, ru_default_active,
}

-- `if test { errs = append(errs, message) }`
abbrev pub error_if : Bool → String → List String
error_if test message = if test then message ∷ [] else []

-- A loop that appends the errors of each element.
abbrev pub errors_each {ℓ} : {A : Type ℓ} → (A → List String) → List A → List String
errors_each f [] = []
errors_each f (x ∷ xs) = f x ++ errors_each f xs

abbrev pub is_empty {ℓ} : {A : Type ℓ} → List A → Bool
is_empty [] = true
is_empty (x ∷ xs) = false

-- `merged`
unfoldable pub merged_hop : NextHopConfig → GatewayConfig → NextHopConfig
unfolding coalesce merge_health_checks
merged_hop h gw = record {
  dev = coalesce (gw.dev ∷ h.dev ∷ []);
  via = gw.via;
  via4 = gw.via4;
  via6 = gw.via6;
  on_link = gw.on_link || h.on_link;
  health_check = merge_health_checks h.health_check gw.health_check;
  gateways = [];
}

-- The `switch` on the type of the source.
unfoldable pub validate_source : RouteGroup → List String
validate_source g =
    if str_eq g.source.source_type "ripe_country"
    then error_if (str_eq g.source.country "") "source.country is required"
    else if str_eq g.source.source_type "txt"
    then error_if (str_eq g.source.url "") "source.url is required"
    else "source.type must be ripe_country or txt" ∷ []

-- The family of the copy of the group.
unfoldable pub group_family : TargetConfig → String
group_family t = if str_eq t.family "" then "dual" else t.family

-- The next hop that validateGroup makes of the target.
unfoldable pub target_next_hop : TargetConfig → NextHopConfig
target_next_hop t = record {
  dev = t.dev;
  via = t.via;
  via4 = t.via4;
  via6 = t.via6;
  on_link = t.on_link;
  health_check = t.health_check;
  gateways = t.gateways;
}

-- The test of the last loop of Validate on a special zone.
unfoldable pub outranks : RouteGroup → RouteGroup → Bool
outranks ru z =
    z.enabled && z.rule.enabled && ru.rule.enabled && leb_ℤ ru.rule.priority z.rule.priority

unfoldable pub priority_error : RouteGroup → RouteGroup → List String
unfolding outranks
priority_error ru z = error_if (outranks ru z) (
    z.name
    <> (": special zone priority "
        <> (show_ℤ z.rule.priority
            <> (" must be numerically lower than RU default priority "
                <> show_ℤ ru.rule.priority))))

module _ (text : NetipText) where
  -- The body of the loop of validateHealthCheck.
  unfoldable pub validate_health_target : String → String → List String
  validate_health_target path raw = elim (text.parse_addr raw) [
    | none ↦ (path <> (".targets contains invalid IP " <> text.quote raw)) ∷ []
    | some addr ↦
        error_if (not (is_valid_addr addr))
          (path <> (".targets contains invalid IP " <> text.quote raw))
  ]

  -- validateHealthCheck
  unfoldable pub validate_health_check : String → HealthCheck → List String
  unfolding validate_health_target
  validate_health_check path hc =
      errors_each (validate_health_target path) hc.targets
      ++ error_if (ltb_ℤ hc.timeout (pos 0)) (path <> ".timeout must be positive")

  unfoldable pub validate_via : String → String → NextHopConfig → List String
  validate_via path family h = if str_eq h.via "" then [] else elim (text.parse_addr h.via) [
    | none ↦ (path <> ".via must be an IP address") ∷ []
    | some addr ↦ error_if (str_eq family "dual" && str_eq h.via4 "" && str_eq h.via6 "") (
        path
        <> (".via is ambiguous for family dual; use via4/via6 instead of "
            <> text.addr_string addr))
  ]

  unfoldable pub validate_via4 : String → String → List String
  validate_via4 path via4 = if str_eq via4 "" then [] else elim (text.parse_addr via4) [
    | none ↦ (path <> ".via4 must be an IP address") ∷ []
    | some addr ↦ error_if (not (is4 addr)) (path <> ".via4 must be an IPv4 address")
  ]

  unfoldable pub validate_via6 : String → String → List String
  validate_via6 path via6 = if str_eq via6 "" then [] else elim (text.parse_addr via6) [
    | none ↦ (path <> ".via6 must be an IP address") ∷ []
    | some addr ↦ error_if (not (is6 addr)) (path <> ".via6 must be an IPv6 address")
  ]

  -- validateNextHop of a hop with no gateways
  unfoldable pub validate_single_hop : String → String → NextHopConfig → Bool → List String
  unfolding validate_health_check validate_via validate_via4 validate_via6
  validate_single_hop path family h require_dev =
      validate_health_check (path <> ".health_check") h.health_check
      ++ (error_if (require_dev && str_eq h.dev "") (path <> ".dev is required")
          ++ (validate_via path family h
              ++ (validate_via4 path h.via4 ++ validate_via6 path h.via6)))

  -- The loop of validateNextHop over the gateways, from number i on. Its recursive call is on a
  -- hop with no gateways.
  unfoldable pub validate_gateways :
      String → String → NextHopConfig → ℕ → List GatewayConfig → List String
  unfolding validate_single_hop merged_hop
  validate_gateways path family h i [] = []
  validate_gateways path family h i (gw ∷ gws) =
      let gw_path = path <> (".gateways[" <> (show_ℕ i <> "]")) in
      let merged = merged_hop h gw in
      error_if (str_eq merged.via "" && str_eq merged.via4 "" && str_eq merged.via6 "")
        (gw_path <> " must define via, via4, or via6")
      ++ (error_if (not (str_eq gw.name "") && str_eq (trim_space gw.name) "")
            (gw_path <> ".name must not be blank")
          ++ (validate_health_check (gw_path <> ".health_check") merged.health_check
              ++ (validate_single_hop gw_path family merged true
                  ++ validate_gateways path family h (suc i) gws)))

  -- validateNextHop
  unfoldable pub validate_next_hop : String → String → NextHopConfig → Bool → List String
  unfolding validate_gateways
  validate_next_hop path family h require_dev = elim h.gateways [
    | [] ↦ validate_single_hop path family h require_dev
    | gw ∷ gws ↦
        validate_health_check (path <> ".health_check") h.health_check
        ++ validate_gateways path family h 0 (gw ∷ gws)
  ]

  -- The default next hop, if there is one.
  unfoldable pub default_errors : String → Option NextHopConfig → List String
  unfolding validate_next_hop
  default_errors family none = []
  default_errors family (some d) = validate_next_hop "target.default" family d true

  unfoldable pub validate_target : TargetConfig → List String
  unfolding group_family target_next_hop default_errors
  validate_target t =
      let family = group_family t in
      error_if (leb_ℤ t.table (pos 0)) "target.table is required"
      ++ (error_if (str_eq t.dev "" && is_empty t.gateways) "target.dev is required"
          ++ (error_if
                (not (str_eq family "dual")
                  && not (str_eq family "ipv4")
                  && not (str_eq family "ipv6"))
                "target.family must be dual, ipv4, or ipv6"
              ++ (validate_next_hop "target" family (target_next_hop t) false
                  ++ (default_errors family t.default
                      ++ errors_each
                          (λ raw. elim (text.parse_prefix raw) [
                            | none ↦
                                ("target.exclude_prefixes contains invalid CIDR " <> text.quote raw)
                                ∷ []
                            | some p ↦ []
                          ])
                          t.exclude_prefixes))))

  unfoldable pub from_errors : RuleConfig → List String
  from_errors r = if str_eq r.from "" then [] else elim (text.parse_prefix r.from) [
    | none ↦ "rule.from must be a CIDR prefix" ∷ []
    | some p ↦ []
  ]

  unfoldable pub validate_rule : RuleConfig → ℤ → List String
  unfolding from_errors
  validate_rule r target_table =
      if r.enabled
      then error_if (leb_ℤ r.priority (pos 0) || leb_ℤ r.table (pos 0))
          "rule priority and table are required"
        ++ (error_if (not (eqb_ℤ r.table target_table)) "rule.table must match target.table"
            ++ from_errors r)
      else []

  -- validateGroup
  unfoldable pub validate_group : RouteGroup → List String
  unfolding validate_source validate_target validate_rule
  validate_group g =
      error_if (str_eq g.name "") "name is required"
      ++ (validate_source g ++ (validate_target g.target ++ validate_rule g.rule g.target.table))

  -- The error that Validate makes of the errors of a group.
  abbrev pub group_errors : RouteGroup → List String
  group_errors g = elim (validate_group g) [
    | [] ↦ []
    | e ∷ es ↦ (g.name <> (": " <> join "; " (e ∷ es))) ∷ []
  ]

  unfoldable pub config_errors : Config → List String
  unfolding validate_group priority_error
  config_errors c =
      error_if (not (str_eq c.global.log_format "text") && not (str_eq c.global.log_format "json"))
        "global.log_format must be text or json"
      ++ (error_if
            (ltb_ℤ c.global.route_protocol (pos 1) || ltb_ℤ (pos 255) c.global.route_protocol)
            "global.route_protocol must be 1..255"
          ++ (error_if
                (leb_ℤ c.global.rule_priority_base (pos 0)
                  || leb_ℤ c.global.rule_priority_step (pos 0))
                "rule priority base and step must be positive"
              ++ (errors_each group_errors (groups c)
                  ++ (if ru_default_active c
                      then errors_each (priority_error c.routing.ru_default) c.special_zones
                      else []))))

  -- Validate
  unfoldable pub validate : Config → Result (Unit {0})
  unfolding config_errors
  validate c = elim (config_errors c) [ [] ↦ ok tt | e ∷ es ↦ err (join "; " (e ∷ es)) ]
