-- ===== src/Config/Validate/Sound.antt =====
-- What a configuration that passes Validate of internal/config/config.go satisfies.
use route_sync.Base.{
  ◌≡◌, ◌≢◌, String, ◌<>◌, true, false, not, ◌&&◌, ◌||◌, none, some, [], ◌∷◌, ◌++◌, arith, All,
  All-map, str_eq, str_eq_iff, if◌then◌else◌, Bool-cases, Option-cases, ◌⊎◌, inl, inr,
}
use route_sync.Base.Int.{ℤ, pos, ltb_ℤ, leb_ℤ, eqb_ℤ, eq_of_eqb_ℤ}
use route_sync.Base.Result.{ok}
use route_sync.Netip.{Prefix}
use route_sync.Netip.Text.{NetipText}
use route_sync.Config.{
  SourceConfig, NextHopConfig, TargetConfig, RuleConfig, RouteGroup, Config, groups,
  ru_default_active,
}
use route_sync.Config.Validate.{
  error_if, errors_each, is_empty, default_errors, from_errors, validate_next_hop, validate_source,
  group_family, target_next_hop, validate_target, validate_rule, validate_group, group_errors,
  outranks, priority_error, config_errors, validate,
}
use route_sync.Config.Validate.Hops.{
  append-eq-nil, errors_each-eq-nil, error_if-eq-nil, IsValidHop, next_hop-IsValidHop,
}

module _ (text : NetipText) where
  -- A text is empty, or parses to a prefix.
  abbrev pub ParsesPrefix : String → Type 0
  ParsesPrefix s = (s ≢ "") → (p : Prefix) × (text.parse_prefix s ≡ some p)

  -- A source of a known type, with what it needs
  abbrev pub IsValidSource : SourceConfig → Type 0
  IsValidSource s =
      ((s.source_type ≡ "ripe_country") × (s.country ≢ ""))
      ⊎ ((s.source_type ≡ "txt") × (s.url ≢ ""))

  pub record IsValidTarget (t : TargetConfig) : Type 0 where
    pub has_table : leb_ℤ t.table (pos 0) ≡ false
    pub has_dev : (str_eq t.dev "" && is_empty t.gateways) ≡ false
    pub known_family :
        (not (str_eq (group_family t) "dual")
          && not (str_eq (group_family t) "ipv4")
          && not (str_eq (group_family t) "ipv6"))
        ≡ false
    pub target_hop : IsValidHop text (group_family t) (target_next_hop t) false
    pub default_hop :
        (d : NextHopConfig) → t.default ≡ some d → IsValidHop text (group_family t) d true
    pub excluded : All (λ raw. (p : Prefix) × (text.parse_prefix raw ≡ some p)) t.exclude_prefixes

  -- A rule of a group with this table
  pub record IsValidRule (r : RuleConfig) (table : ℤ) : Type 0 where
    pub same_table : r.table ≡ table
    pub has_priority : leb_ℤ r.priority (pos 0) ≡ false
    pub has_source : ParsesPrefix r.from

  pub record IsValidGroup (g : RouteGroup) : Type 0 where
    pub named : str_eq g.name "" ≡ false
    pub source : IsValidSource g.source
    pub target : IsValidTarget g.target
    pub rule : g.rule.enabled ≡ true → IsValidRule g.rule g.target.table

  source-IsValidSource : (g : RouteGroup) → validate_source g ≡ [] → IsValidSource g.source
  unfolding validate_source
  source-IsValidSource g e = elim (Bool-cases (str_eq g.source.source_type "ripe_country")) [
    | inl ripe ↦ inl (
      (str_eq_iff g.source.source_type "ripe_country").0 ripe,
      λ none. ground (arith, e, ripe, str_eq_iff g.source.country "", none),
    )
    | inr other ↦ elim (Bool-cases (str_eq g.source.source_type "txt")) [
      | inl txt ↦ inr (
        (str_eq_iff g.source.source_type "txt").0 txt,
        λ none. ground (arith, e, other, txt, str_eq_iff g.source.url "", none),
      )
      | inr unknown ↦ ground (arith, e, other, unknown)
    ]
  ]

  excluded-parses :
      (raw : String)
      → elim (text.parse_prefix raw) [
        | none ↦ ("target.exclude_prefixes contains invalid CIDR " <> text.quote raw) ∷ []
        | some p ↦ []
      ]
        ≡ []
      → (p : Prefix) × (text.parse_prefix raw ≡ some p)
  excluded-parses raw h = elim (Option-cases (text.parse_prefix raw)) [
    | inl e ↦ ground (arith, e)
    | inr (p, e) ↦ (p, e)
  ]

  -- The errors of a target, in the order of the code.
  target-IsValidTarget : (t : TargetConfig) → validate_target text t ≡ [] → IsValidTarget t
  unfolding validate_target
  target-IsValidTarget t e =
      let (e₁, r₁) =
        append-eq-nil (error_if (leb_ℤ t.table (pos 0)) "target.table is required") _ e in
      let (e₂, r₂) =
        append-eq-nil (error_if (str_eq t.dev "" && is_empty t.gateways) "target.dev is required") _
          r₁ in
      let (e₃, r₃) =
        append-eq-nil
          (error_if
            (not (str_eq (group_family t) "dual")
              && not (str_eq (group_family t) "ipv4")
              && not (str_eq (group_family t) "ipv6"))
            "target.family must be dual, ipv4, or ipv6")
          _ r₂ in
      let (e₄, r₄) =
        append-eq-nil (validate_next_hop text "target" (group_family t) (target_next_hop t) false) _
          r₃ in
      let (e₅, e₆) = append-eq-nil (default_errors text (group_family t) t.default) _ r₄ in
      record {
        has_table = error_if-eq-nil _ "target.table is required" e₁;
        has_dev = error_if-eq-nil _ "target.dev is required" e₂;
        known_family = error_if-eq-nil _ "target.family must be dual, ipv4, or ipv6" e₃;
        target_hop =
            next_hop-IsValidHop text "target" (group_family t) (target_next_hop t) false e₄;
        default_hop = λ d set.
            next_hop-IsValidHop text "target.default" (group_family t) d true
              (rw (set, default_errors) at e₅);
        excluded =
            All-map excluded-parses t.exclude_prefixes (errors_each-eq-nil _ t.exclude_prefixes e₆);
      }

  from-ParsesPrefix : (r : RuleConfig) → from_errors text r ≡ [] → ParsesPrefix r.from
  unfolding from_errors
  from-ParsesPrefix r h filled = elim (Option-cases (text.parse_prefix r.from)) [
    | inl e ↦ ground (arith, e, h, str_eq_iff r.from "")
    | inr (p, e) ↦ (p, e)
  ]

  rule-IsValidRule :
      (r : RuleConfig) (table : ℤ)
      → validate_rule text r table ≡ []
      → r.enabled ≡ true
      → IsValidRule r table
  unfolding validate_rule
  rule-IsValidRule r table e on =
      let e' : error_if (leb_ℤ r.priority (pos 0) || leb_ℤ r.table (pos 0))
              "rule priority and table are required"
            ++ (error_if (not (eqb_ℤ r.table table)) "rule.table must match target.table"
                ++ from_errors text r)
          ≡ [] =
        ground (arith, e, on) in
      let (e₁, r₁) =
        append-eq-nil
          (error_if (leb_ℤ r.priority (pos 0) || leb_ℤ r.table (pos 0))
            "rule priority and table are required")
          _ e' in
      let (e₂, e₃) =
        append-eq-nil (error_if (not (eqb_ℤ r.table table)) "rule.table must match target.table") _
          r₁ in
      let matching = error_if-eq-nil _ "rule.table must match target.table" e₂ in
      let positive = error_if-eq-nil _ "rule priority and table are required" e₁ in
      record {
        same_table = eq_of_eqb_ℤ r.table table (ground arith);
        has_priority = ground arith;
        has_source = from-ParsesPrefix r e₃;
      }

  pub group-IsValidGroup : (g : RouteGroup) → validate_group text g ≡ [] → IsValidGroup g
  unfolding validate_group
  group-IsValidGroup g e =
      let (e₁, r₁) = append-eq-nil (error_if (str_eq g.name "") "name is required") _ e in
      let (e₂, r₂) = append-eq-nil (validate_source g) _ r₁ in
      let (e₃, e₄) = append-eq-nil (validate_target text g.target) _ r₂ in
      record {
        named = error_if-eq-nil _ "name is required" e₁;
        source = source-IsValidSource g e₂;
        target = target-IsValidTarget g.target e₃;
        rule = rule-IsValidRule g.rule g.target.table e₄;
      }

  -- What Validate promises of a whole configuration.
  pub record IsValidConfig (c : Config) : Type 0 where
    pub known_format :
        (not (str_eq c.global.log_format "text") && not (str_eq c.global.log_format "json")) ≡ false
    pub protocol_range :
        (ltb_ℤ c.global.route_protocol (pos 1) || ltb_ℤ (pos 255) c.global.route_protocol) ≡ false
    pub positive_band :
        (leb_ℤ c.global.rule_priority_base (pos 0) || leb_ℤ c.global.rule_priority_step (pos 0))
        ≡ false
    pub valid_groups : All IsValidGroup (groups c)
    pub zones_first :
        ru_default_active c ≡ true
        → All (λ (z : RouteGroup). outranks c.routing.ru_default z ≡ false) c.special_zones

  group_errors-eq-nil : (g : RouteGroup) → group_errors text g ≡ [] → validate_group text g ≡ []
  group_errors-eq-nil g h = ground arith

  priority_error-outranks : (ru z : RouteGroup) → priority_error ru z ≡ [] → outranks ru z ≡ false
  unfolding priority_error
  priority_error-outranks ru z h = ground arith

  config_errors-IsValidConfig : (c : Config) → config_errors text c ≡ [] → IsValidConfig c
  unfolding config_errors
  config_errors-IsValidConfig c e =
      let (e₁, r₁) =
        append-eq-nil
          (error_if
            (not (str_eq c.global.log_format "text") && not (str_eq c.global.log_format "json"))
            "global.log_format must be text or json")
          _ e in
      let (e₂, r₂) =
        append-eq-nil
          (error_if
            (ltb_ℤ c.global.route_protocol (pos 1) || ltb_ℤ (pos 255) c.global.route_protocol)
            "global.route_protocol must be 1..255")
          _ r₁ in
      let (e₃, r₃) =
        append-eq-nil
          (error_if
            (leb_ℤ c.global.rule_priority_base (pos 0) || leb_ℤ c.global.rule_priority_step (pos 0))
            "rule priority base and step must be positive")
          _ r₂ in
      let (e₄, e₅) = append-eq-nil (errors_each (group_errors text) (groups c)) _ r₃ in
      record {
        known_format = error_if-eq-nil _ "global.log_format must be text or json" e₁;
        protocol_range = error_if-eq-nil _ "global.route_protocol must be 1..255" e₂;
        positive_band = error_if-eq-nil _ "rule priority base and step must be positive" e₃;
        valid_groups =
            All-map (λ g none. group-IsValidGroup g (group_errors-eq-nil g none)) (groups c)
              (errors_each-eq-nil (group_errors text) (groups c) e₄);
        zones_first = λ active.
            All-map (λ z none. priority_error-outranks c.routing.ru_default z none) c.special_zones
              (errors_each-eq-nil (priority_error c.routing.ru_default) c.special_zones
                (zone_errors active e₅));
      }
    where
      zone_errors :
          ru_default_active c ≡ true
          → (if ru_default_active c
              then errors_each (priority_error c.routing.ru_default) c.special_zones
              else [])
            ≡ []
          → errors_each (priority_error c.routing.ru_default) c.special_zones ≡ []
      zone_errors active h = rw active at h

  -- A configuration that passes Validate has a known log format, a route protocol from 1 to 255, a
  -- positive base and step for rules, only groups as validateGroup wants them (a name, a source with
  -- what its type needs, a table, a device or gateways, a known family, next hops with addresses of
  -- their families and health checks with valid targets, prefixes that parse, and a rule of the
  -- target's table with a positive priority, if there is one), and, where the RU default is active, no enabled
  -- zone with a rule whose priority number is not below that of an enabled RU rule.
  pub validate-IsValidConfig : (c : Config) → validate text c ≡ ok tt → IsValidConfig c
  unfolding validate
  validate-IsValidConfig c h = config_errors-IsValidConfig c (ground arith)
