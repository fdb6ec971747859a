-- ===== src/App/Plan.antt =====
-- BuildPlan and BuildCleanupPlan of internal/app/app.go. The log lines are not modelled.
use route_sync.Base.{
  ◌+◌, String, ◌<>◌, Bool, true, false, Option, none, some, List, [], ◌∷◌, length, str_eq,
  if◌then◌else◌,
}
use route_sync.Base.Int.{ℤ, pos, sub_ℕ}
use route_sync.Base.Result.{ok, err, Action, after_ok}
use route_sync.Netip.{Prefix}
use route_sync.Config.{NextHopConfig, RouteGroup, Config, groups}
use route_sync.Metrics
use route_sync.Source.Normalize.{normalize}
use route_sync.State.{save_group, load_group}
use route_sync.Planner.{GroupPlan, InputGroup, build}
use route_sync.Reconcile.Routes
use route_sync.Reconcile.Rules
use route_sync.App.Candidates.{resolve_target_hops, resolve_default_hops}
use route_sync.App.Locals.{exclusion_inputs}
use route_sync.App.World.{World, AppState, ◌>>=◌, pure, lift, record_metric, in_context, probe}

module _ (w : World) where
  abbrev pub App : Type 0 → Type 0
  App A = Action (AppState w.kernel.State) A

  -- provider.Fetch, of the provider that providerFor makes for the group
  unfoldable pub fetch_source : RouteGroup → Config → App (List Prefix)
  fetch_source g cfg =
      if str_eq g.source.source_type "ripe_country"
      then lift (w.fetch_ripe g.source.country cfg.global.http_timeout)
      else lift (w.fetch_txt g.source.url cfg.global.http_timeout)

  -- Whether providerFor returns a provider.
  unfoldable pub has_provider : RouteGroup → Bool
  has_provider g =
      if str_eq g.source.source_type "ripe_country" then true else str_eq g.source.source_type "txt"

  -- The prefixes of a group and whether they are the stored ones; `none` where the group is skipped.
  unfoldable pub fetch_or_load : RouteGroup → Config → App (Option (List Prefix × Bool))
  unfolding fetch_source
  fetch_or_load g cfg s =
      after_ok (fetch_source g cfg s)
        (λ raw t.
          (ok (some (raw, false)), record_metric (Metrics.inc "source_fetch_success_total") t))
        (λ e t.
          after_ok
            (lift (load_group w.files w.text cfg.global.state_dir g.name)
              (record_metric (Metrics.inc "source_fetch_failure_total") t))
            (λ loaded u. (ok (some (loaded.0, true)), u)) (λ e' u. (ok none, u)))

  -- SaveGroup, unless the prefixes are the stored ones. Its error is only logged.
  unfoldable pub save_fetched : RouteGroup → Config → Bool → List Prefix → App (Unit {0})
  save_fetched g cfg from_fallback prefixes s =
      if from_fallback
      then (ok tt, s)
      else after_ok
          (lift
            (save_group w.files w.text cfg.global.state_dir g.name g.source.source_type prefixes) s)
          (λ _ t. (ok tt, t)) (λ e t. (ok tt, t))

  -- The index of a link, and 0 for no name.
  unfoldable pub link_index_of : String → String → App ℤ
  link_index_of context dev =
      if str_eq dev ""
      then pure (pos 0)
      else in_context context (lift (w.kernel.link_index_by_name dev))

  abbrev pub default_dev : Option NextHopConfig → String
  default_dev none = ""
  default_dev (some d) = d.dev

  -- The rest of the loop's body, once there are prefixes.
  unfoldable pub group_input : RouteGroup → Config → Bool → List Prefix → App (Option InputGroup)
  unfolding link_index_of
  group_input g cfg from_fallback prefixes = do
    link ← link_index_of (g.name <> (": resolve target dev " <> g.target.dev)) g.target.dev
    default_link ←
        link_index_of (g.name <> (": resolve target default dev " <> default_dev g.target.default))
          (default_dev g.target.default)
    target_hops ←
        in_context (g.name <> ": resolve target gateways")
          (resolve_target_hops (probe w) w.text g.name g.target.family g.target)
    default_hops ←
        in_context (g.name <> ": resolve default gateways")
          (resolve_default_hops (probe w) w.text g.name g.target.family g.target.default)
    current_routes ← in_context (g.name <> ": list owned routes") (
        lift
          (Routes.current_owned w.kernel g.target.table cfg.global.route_protocol g.target.family))
    current_rules ← in_context (g.name <> ": list owned rules") (
        lift (
          Rules.current_owned w.kernel g.target.table g.rule.priority cfg.global.rule_priority_base
            cfg.global.rule_priority_step g.target.family))
    exclusions ←
        in_context (g.name <> ": build exclusion inputs")
          (exclusion_inputs w.text (lift w.interface_addrs) g.target)
    pure (
        some (record {
          config = g;
          prefixes = prefixes;
          throw_prefixes = exclusions.0;
          covered_local_addrs = exclusions.1;
          source_type = g.source.source_type;
          from_fallback = from_fallback;
          link_index = link;
          default_link_index = default_link;
          target_hops = target_hops;
          default_hops = default_hops;
          current_routes = current_routes;
          current_rules = current_rules;
        }))

  -- What follows the fetch of a group.
  unfoldable pub input_of :
      Config → RouteGroup → Option (List Prefix × Bool) → App (Option InputGroup)
  unfolding save_fetched group_input
  input_of cfg g none = pure none
  input_of cfg g (some (raw, from_fallback)) =
      let prefixes = normalize raw cfg.global.enable_prefix_aggregation in
      save_fetched g cfg from_fallback prefixes >>= λ _. group_input g cfg from_fallback prefixes

  -- The body of the loop of BuildPlan: `none` for `continue`.
  unfoldable pub build_input : Config → RouteGroup → App (Option InputGroup)
  unfolding fetch_or_load input_of has_provider
  build_input cfg g s =
      if has_provider g
      then (fetch_or_load g cfg >>= input_of cfg g) s
      else (err ("unsupported source type " <> w.text.quote g.source.source_type), s)

  abbrev pub cons_some : {A : Type 0} → Option A → List A → List A
  cons_some none xs = xs
  cons_some (some x) xs = x ∷ xs

  -- The loop of BuildPlan.
  unfoldable pub build_inputs : Config → List RouteGroup → App (List InputGroup)
  unfolding build_input
  build_inputs cfg [] = pure []
  build_inputs cfg (g ∷ gs) =
      build_input cfg g >>= λ input. build_inputs cfg gs >>= λ inputs. pure (cons_some input inputs)

  -- The gauges of a group's plan: what there will be once it is applied.
  unfoldable pub set_plan_gauges : GroupPlan → Metrics.Registry → Metrics.Registry
  set_plan_gauges gp r =
      Metrics.set_group_gauge "managed_rules" gp.group
        (sub_ℕ (gp.current_managed_rule_count + length gp.rules_to_add) (length gp.rules_to_remove))
        (Metrics.set_group_gauge "managed_routes" gp.group
          (sub_ℕ (gp.current_managed_route_count + length gp.routes_to_add)
            (length gp.routes_to_remove))
          (Metrics.set_group_gauge "managed_prefixes" gp.group (pos gp.desired_prefix_count) r))

  unfoldable pub set_all_gauges : List GroupPlan → Metrics.Registry → Metrics.Registry
  unfolding set_plan_gauges
  set_all_gauges [] r = r
  set_all_gauges (gp ∷ gps) r = set_all_gauges gps (set_plan_gauges gp r)

  -- BuildPlan
  unfoldable pub build_plan : Config → App (List GroupPlan)
  unfolding build_inputs set_all_gauges
  build_plan cfg = build_inputs cfg (groups cfg) >>= λ inputs s.
      let plan = build w.text w.ranges cfg.global.route_protocol inputs in
      (ok plan, record_metric (set_all_gauges plan) s)

  -- The body of the loop of BuildCleanupPlan.
  unfoldable pub cleanup_group : Config → RouteGroup → App GroupPlan
  cleanup_group cfg g = do
    current_routes ← in_context (g.name <> ": list owned routes for cleanup") (
        lift
          (Routes.current_owned w.kernel g.target.table cfg.global.route_protocol g.target.family))
    current_rules ←
        if g.rule.enabled
        then in_context (g.name <> ": list owned rules for cleanup") (
            lift (
              Rules.current_owned w.kernel g.target.table g.rule.priority
                cfg.global.rule_priority_base cfg.global.rule_priority_step g.target.family))
        else pure []
    pure (record {
      group = g.name;
      source_type = g.source.source_type;
      target_table = g.target.table;
      family = g.target.family;
      desired_prefix_count = 0;
      current_managed_route_count = length current_routes;
      current_managed_rule_count = length current_rules;
      routes_to_add = [];
      routes_to_remove = current_routes;
      rules_to_add = [];
      rules_to_remove = current_rules;
      source_from_fallback = false;
    })

  unfoldable pub cleanup_groups : Config → List RouteGroup → App (List GroupPlan)
  unfolding cleanup_group
  cleanup_groups cfg [] = pure []
  cleanup_groups cfg (g ∷ gs) =
      cleanup_group cfg g >>= λ gp. cleanup_groups cfg gs >>= λ gps. pure (gp ∷ gps)

  -- BuildCleanupPlan
  unfoldable pub build_cleanup_plan : Config → App (List GroupPlan)
  unfolding cleanup_groups
  build_cleanup_plan cfg = cleanup_groups cfg (groups cfg)
