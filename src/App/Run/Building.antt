-- ===== src/App/Run/Building.antt =====
-- BuildPlan and BuildCleanupPlan of internal/app/app.go: what they do to the machine and to the
-- registry.
use route_sync.Base.{
  refl, String, ◌<>◌, Bool, true, false, Option, none, some, List, [], ◌∷◌, if◌then◌else◌,
}
use route_sync.Base.Result.{err}
use route_sync.Netip.{Prefix}
use route_sync.Config.{RouteGroup, Config, groups}
use route_sync.Source.Normalize.{normalize}
use route_sync.Reconcile.Routes.{list_if, append_lists, lists_v4, lists_v6}
use route_sync.Reconcile.Routes
use route_sync.Reconcile.Rules
use route_sync.Base.Text.{has_any}
use route_sync.Metrics.Lines.{group_gauge-IsFree}
use route_sync.Metrics
use route_sync.Metrics.{Registry}
use route_sync.Planner.{GroupPlan, build}
use route_sync.App.Locals.{exclusion_inputs}
use route_sync.App.World.{World, AppState, ◌>>=◌, lift, in_context, probe}
use route_sync.App.Candidates.{resolve_target_hops, resolve_default_hops}
use route_sync.App.Candidates.Keeps.{resolve_target_hops-keeps, resolve_default_hops-keeps}
use route_sync.App.Stays.{
  Stays, Out, lift-Stays, bind-Stays, pure-Stays, in_context-Stays, if-Stays,
}
use route_sync.App.Plan.{
  set_plan_gauges, set_all_gauges, default_dev, has_provider, fetch_or_load, group_input, input_of,
  build_input, build_inputs, build_plan, cleanup_group, cleanup_groups, build_cleanup_plan,
}
use route_sync.App.Run.Reads.{
  ReadsKeep, MetricsKeep, probe_keeps, owned_routes-Stays, owned_rules-Stays, fetch_or_load-Stays,
  save_fetched-Stays, link_index_of-Stays, exclusion_inputs-Stays,
}

module _ (w : World) (P : w.kernel.State → Type 0) (R : Registry → Type 0) (k : ReadsKeep w P)
    (m : MetricsKeep R) where
  pub target_hops-Stays :
      (g : RouteGroup)
      → Stays (Out P R) (
          in_context
            (g.name <> ": resolve target gateways")
            (resolve_target_hops (probe w) w.text g.name g.target.family g.target))
  target_hops-Stays g =
      in_context-Stays P R _ (resolve_target_hops (probe w) w.text g.name g.target.family g.target)
        (record {
          at =
              resolve_target_hops-keeps (Out P R) (probe w) (probe_keeps w P R k m) w.text g.name
                g.target.family g.target;
        })

  pub default_hops-Stays :
      (g : RouteGroup)
      → Stays (Out P R) (
          in_context
            (g.name <> ": resolve default gateways")
            (resolve_default_hops (probe w) w.text g.name g.target.family g.target.default))
  default_hops-Stays g =
      in_context-Stays P R _
        (resolve_default_hops (probe w) w.text g.name g.target.family g.target.default)
        (record {
          at =
              resolve_default_hops-keeps (Out P R) (probe w) (probe_keeps w P R k m) w.text g.name
                g.target.family g.target.default;
        })

  pub group_routes-Stays :
      (context : String) (cfg : Config) (g : RouteGroup)
      → Stays (Out P R) (
          in_context context (
            lift (
              Routes.current_owned w.kernel g.target.table cfg.global.route_protocol
                g.target.family)))
  group_routes-Stays context cfg g = in_context-Stays P R context _ (
      lift-Stays P R _
        (owned_routes-Stays w P R k m g.target.table cfg.global.route_protocol g.target.family))

  pub group_rules-Stays :
      (context : String) (cfg : Config) (g : RouteGroup)
      → Stays (Out P R) (
          in_context context (
            lift (
              Rules.current_owned w.kernel g.target.table g.rule.priority
                cfg.global.rule_priority_base cfg.global.rule_priority_step g.target.family)))
  group_rules-Stays context cfg g = in_context-Stays P R context _ (
      lift-Stays P R _ (
        owned_rules-Stays w P R k m g.target.table g.rule.priority cfg.global.rule_priority_base
          cfg.global.rule_priority_step g.target.family))

  group_input-Stays :
      (g : RouteGroup) (cfg : Config) (fallback : Bool) (ps : List Prefix)
      → Stays (Out P R) (group_input w g cfg fallback ps)
  unfolding group_input
  group_input-Stays g cfg fallback ps =
      bind-Stays P R _ _
        (link_index_of-Stays w P R k m (g.name <> (": resolve target dev " <> g.target.dev))
          g.target.dev)
        (λ link.
          bind-Stays P R _ _
            (link_index_of-Stays w P R k m
              (g.name <> (": resolve target default dev " <> default_dev w g.target.default))
              (default_dev w g.target.default))
            (λ default_link. bind-Stays P R _ _ (target_hops-Stays g) (λ target_hops.
              bind-Stays P R _ _ (default_hops-Stays g) (λ default_hops.
                bind-Stays P R _ _ (group_routes-Stays (g.name <> ": list owned routes") cfg g)
                  (λ routes.
                    bind-Stays P R _ _ (group_rules-Stays (g.name <> ": list owned rules") cfg g)
                      (λ rules.
                        bind-Stays P R _ _
                          (in_context-Stays P R (g.name <> ": build exclusion inputs")
                            (exclusion_inputs w.text (lift w.interface_addrs) g.target)
                            (exclusion_inputs-Stays w P R k m g.target))
                          (λ exclusions. record { at = λ s p. p })))))))

  input_of-Stays :
      (cfg : Config) (g : RouteGroup) (o : Option (List Prefix × Bool))
      → Stays (Out P R) (input_of w cfg g o)
  unfolding input_of
  input_of-Stays cfg g none = pure-Stays P R none
  input_of-Stays cfg g (some (raw, fallback)) =
      let ps = normalize raw cfg.global.enable_prefix_aggregation in
      bind-Stays P R _ _ (save_fetched-Stays w P R k m g cfg fallback ps)
        (λ _. group_input-Stays g cfg fallback ps)

  pub build_input-Stays : (cfg : Config) (g : RouteGroup) → Stays (Out P R) (build_input w cfg g)
  unfolding build_input
  build_input-Stays cfg g = record { at = λ s p. at_provider (has_provider w g) s p }
    where
      at_provider :
          (b : Bool) (s : AppState w.kernel.State)
          → Out P R s
          → Out P R
              (if b
                then (fetch_or_load w g cfg >>= input_of w cfg g) s
                else (err ("unsupported source type " <> w.text.quote g.source.source_type), s)).1
      at_provider true s p =
          (bind-Stays P R _ _ (fetch_or_load-Stays w P R k m g cfg) (input_of-Stays cfg g)).at s p
      at_provider false s p = p

  pub build_inputs-Stays :
      (cfg : Config) (gs : List RouteGroup) → Stays (Out P R) (build_inputs w cfg gs)
  unfolding build_inputs
  build_inputs-Stays cfg [] = pure-Stays P R []
  build_inputs-Stays cfg (g ∷ gs) =
      bind-Stays P R _ _ (build_input-Stays cfg g)
        (λ input. bind-Stays P R _ _ (build_inputs-Stays cfg gs) (λ inputs. pure-Stays P R _))

  set_plan_gauges-keeps : (gp : GroupPlan) (r : Registry) → R r → R (set_plan_gauges w gp r)
  unfolding set_plan_gauges Metrics.set_group_gauge has_any
  set_plan_gauges-keeps gp r h = m.gauges _ _ _ (group_gauge-IsFree "managed_rules" gp.group refl) (
      m.gauges _ _ _ (group_gauge-IsFree "managed_routes" gp.group refl)
        (m.gauges _ _ r (group_gauge-IsFree "managed_prefixes" gp.group refl) h))

  set_all_gauges-keeps : (gps : List GroupPlan) (r : Registry) → R r → R (set_all_gauges w gps r)
  unfolding set_all_gauges
  set_all_gauges-keeps [] r h = h
  set_all_gauges-keeps (gp ∷ gps) r h =
      set_all_gauges-keeps gps (set_plan_gauges w gp r) (set_plan_gauges-keeps gp r h)

  pub build_plan-Stays : (cfg : Config) → Stays (Out P R) (build_plan w cfg)
  unfolding build_plan
  build_plan-Stays cfg = bind-Stays P R _ _ (build_inputs-Stays cfg (groups cfg)) (λ inputs.
      record {
        at = λ s p. (
          p.0,
          set_all_gauges-keeps (build w.text w.ranges cfg.global.route_protocol inputs) s.registry
              p.1,
        );
      })

  cleanup_group-Stays : (cfg : Config) (g : RouteGroup) → Stays (Out P R) (cleanup_group w cfg g)
  unfolding cleanup_group
  cleanup_group-Stays cfg g =
      bind-Stays P R _ _ (group_routes-Stays (g.name <> ": list owned routes for cleanup") cfg g)
        (λ routes.
          bind-Stays P R _ _
            (if-Stays P R g.rule.enabled _ _
              (group_rules-Stays (g.name <> ": list owned rules for cleanup") cfg g)
              (pure-Stays P R []))
            (λ rules. record { at = λ s p. p }))

  cleanup_groups-Stays :
      (cfg : Config) (gs : List RouteGroup) → Stays (Out P R) (cleanup_groups w cfg gs)
  unfolding cleanup_groups
  cleanup_groups-Stays cfg [] = pure-Stays P R []
  cleanup_groups-Stays cfg (g ∷ gs) =
      bind-Stays P R _ _ (cleanup_group-Stays cfg g)
        (λ gp. bind-Stays P R _ _ (cleanup_groups-Stays cfg gs) (λ gps. pure-Stays P R _))

  pub build_cleanup_plan-Stays : (cfg : Config) → Stays (Out P R) (build_cleanup_plan w cfg)
  unfolding build_cleanup_plan
  build_cleanup_plan-Stays cfg = cleanup_groups-Stays cfg (groups cfg)
