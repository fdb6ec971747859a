-- ===== src/App/Run/Cleaned/Plans.antt =====
-- BuildCleanupPlan of internal/app/app.go: what its plans remove of the kernel's lists.
use route_sync.Base.{
  ◌≡◌, refl, sym, ◌∙◌, ap, subst, ◌<>◌, Bool, true, false, ◌&&◌, ◌||◌, List, [], ◌∷◌, ◌++◌, any,
  any-append, any-ext, any-or, none_of, All, arith, if◌then◌else◌,
}
use route_sync.Base.Int.{ℤ}
use route_sync.Base.Result.{ok, Action, after_ok-eq-ok, value_of_eq, state_of_eq}
use route_sync.Config.{RouteGroup, Config}
use route_sync.Rtnl.{Route, Rule}
use route_sync.Planner.{GroupPlan}
use route_sync.Reconcile.Routes
use route_sync.Reconcile.Rules
use route_sync.Reconcile.Rules.{change_rules}
use route_sync.Reconcile.Removals.{OnlyRemoves, removed_routes, removed_rules}
use route_sync.App.World.{World, AppState, in_context, lift, pure}
use route_sync.App.Plan.{App, cleanup_group, cleanup_groups}
use route_sync.App.Run.Dry.{AnyRegistry, any_metrics}
use route_sync.App.Run.Reads.{owned_routes-Stays, owned_rules-Stays}
use route_sync.App.Succeeds.{called-eq-ok}
use route_sync.App.Tables.{IsMachine, own_route, own_rule, owned_routes-Lists, owned_rules-Lists}

-- A list in two parts, of each of which it is known what of `v` it holds.
in_parts :
    {A : Type 0} (f : A → Bool) (v xs ys : List A) (p q : A → Bool)
    → any f xs ≡ any (λ a. p a && f a) v
    → any f ys ≡ any (λ a. q a && f a) v
    → any f (xs ++ ys) ≡ any (λ a. (p a || q a) && f a) v
in_parts f v xs ys p q hx hy =
    any-append f xs ys
    ∙ ground (
      arith,
      hx,
      hy,
      any-or (λ a. p a && f a) (λ a. q a && f a) v,
      any-ext (λ a. (p a || q a) && f a) (λ a. (p a && f a) || (q a && f a)) v (λ a. ground arith),
    )

module _ (of_family : ℤ → Route → Bool) (rule_of_family : ℤ → Rule → Bool) (cfg : Config) where
  -- A route that the program owns for the group
  abbrev pub route_of_group : Route → RouteGroup → Bool
  route_of_group q g = own_route of_family rule_of_family cfg g q

  -- A rule that the program owns for the group, if the group has a rule
  abbrev pub rule_of_group : Rule → RouteGroup → Bool
  rule_of_group q g = g.rule.enabled && own_rule of_family rule_of_family cfg g q

  module _ (w : World) (routes : w.kernel.State → List Route) (rules : w.kernel.State → List Rule)
      (is : IsMachine w routes rules of_family rule_of_family) where
    abbrev route_list : RouteGroup → Action w.kernel.State (List Route)
    route_list g =
        Routes.current_owned w.kernel g.target.table cfg.global.route_protocol g.target.family

    abbrev rule_list : RouteGroup → Action w.kernel.State (List Rule)
    rule_list g =
        Rules.current_owned w.kernel g.target.table g.rule.priority cfg.global.rule_priority_base
          cfg.global.rule_priority_step g.target.family

    abbrev rules_if : RouteGroup → Bool → App w (List Rule)
    rules_if g b =
        if b
        then in_context (g.name <> ": list owned rules for cleanup") (lift (rule_list g))
        else pure []

    -- The listing of a group's rules, from a state where the routes are v
    listed_rules :
        (g : RouteGroup) (b : Bool) (s t : AppState w.kernel.State) (qs : List Rule)
        → rules_if g b s ≡ (ok qs, t)
        → ((f : Rule → Bool)
            → any f qs
              ≡ any
                  (λ q. (b && own_rule of_family rule_of_family cfg g q) && f q)
                  (rules s.outside))
          × (rules t.outside ≡ rules s.outside)
          × (routes t.outside ≡ routes s.outside)
    listed_rules g false s t qs h = (
      λ f.
          ap (any f) (sym (value_of_eq h))
          ∙ sym (none_of (λ q. false) (rules s.outside) (λ q i. refl)),
      ap (λ u. rules u.outside) (sym (state_of_eq h)),
      ap (λ u. routes u.outside) (sym (state_of_eq h)),
    )
    listed_rules g true s t qs h =
        let e = called-eq-ok (g.name <> ": list owned rules for cleanup") (rule_list g) s qs t h in
        let (from, same) =
          owned_rules-Lists of_family rule_of_family w routes rules is g.target.table
            g.rule.priority cfg.global.rule_priority_base cfg.global.rule_priority_step
            g.target.family s.outside t.outside qs e in
        (
          from,
          same,
          ap (λ m. routes m.1) (sym e)
              ∙ (owned_rules-Stays w (λ u. routes u ≡ routes s.outside) AnyRegistry
                    (is.reads_routes (routes s.outside)) any_metrics g.target.table g.rule.priority
                    cfg.global.rule_priority_base cfg.global.rule_priority_step g.target.family).at
                  s.outside refl,
        )

    -- The plans remove what passes the tests, and nothing has changed.
    pub record Removing (gs : List RouteGroup) (gps : List GroupPlan) (s t : w.kernel.State)
        : Type 0 where
      pub only : All OnlyRemoves gps
      pub from_routes :
          (f : Route → Bool)
          → any f (removed_routes gps) ≡ any (λ q. any (route_of_group q) gs && f q) (routes s)
      pub from_rules :
          (f : Rule → Bool)
          → any f (removed_rules gps) ≡ any (λ q. any (rule_of_group q) gs && f q) (rules s)
      pub same_routes : routes t ≡ routes s
      pub same_rules : rules t ≡ rules s

    no_plans :
        (s t : w.kernel.State) (gps : List GroupPlan) → s ≡ t → [] ≡ gps → Removing [] gps s t
    no_plans s t gps same none =
        subst (λ plans. Removing [] plans s t) none
          (subst (λ y. Removing [] [] s y) same
            (record {
              only = tt;
              from_routes = λ f. sym (none_of (λ q. false) (routes s) (λ q i. refl));
              from_rules = λ f. sym (none_of (λ q. false) (rules s) (λ q i. refl));
              same_routes = refl;
              same_rules = refl;
            }))

    cons-Removing :
        (g : RouteGroup) (gs : List RouteGroup) (gps : List GroupPlan)
        (s t u : AppState w.kernel.State) (gp : GroupPlan)
        → cleanup_group w cfg g s ≡ (ok gp, t)
        → Removing gs gps t.outside u.outside
        → Removing (g ∷ gs) (gp ∷ gps) s.outside u.outside
    unfolding cleanup_group
    cons-Removing g gs gps s t u gp h rest =
        let context = g.name <> ": list owned routes for cleanup" in
        let (rs, v, e₁, h₁) = after_ok-eq-ok (in_context context (lift (route_list g)) s) _ h in
        let (qs, x, e₂, h₂) = after_ok-eq-ok (rules_if g g.rule.enabled v) _ h₁ in
        let e = called-eq-ok context (route_list g) s rs v e₁ in
        let (from, same) =
          owned_routes-Lists of_family rule_of_family w routes rules is g.target.table
            cfg.global.route_protocol g.target.family s.outside v.outside rs e in
        let rules_v : rules v.outside ≡ rules s.outside =
          ap (λ m. rules m.1) (sym e)
          ∙ (owned_routes-Stays w (λ u. rules u ≡ rules s.outside) AnyRegistry
                (is.reads_rules (rules s.outside)) any_metrics g.target.table
                cfg.global.route_protocol g.target.family).at
              s.outside refl in
        let (from_rule, same_rules, same_routes) = listed_rules g g.rule.enabled v x qs e₂ in
        let end : x ≡ t = state_of_eq h₂ in
        let routes_t : routes t.outside ≡ routes s.outside =
          ap (λ y. routes y.outside) (sym end) ∙ same_routes ∙ same in
        let rules_t : rules t.outside ≡ rules s.outside =
          ap (λ y. rules y.outside) (sym end) ∙ same_rules ∙ rules_v in
        subst (λ plan. Removing (g ∷ gs) (plan ∷ gps) s.outside u.outside) (value_of_eq h₂)
          (record {
            only = ((refl, refl), rest.only);
            from_routes = λ f.
                in_parts f (routes s.outside) rs (removed_routes gps) (λ q. route_of_group q g)
                  (λ q. any (route_of_group q) gs) (from f)
                  (rest.from_routes f ∙ ap (any (λ q. any (route_of_group q) gs && f q)) routes_t);
            from_rules = λ f.
                in_parts f (rules s.outside) qs (removed_rules gps) (λ q. rule_of_group q g)
                  (λ q. any (rule_of_group q) gs)
                  (from_rule f ∙ ap (any (λ q. rule_of_group q g && f q)) rules_v)
                  (rest.from_rules f ∙ ap (any (λ q. any (rule_of_group q) gs && f q)) rules_t);
            same_routes = rest.same_routes ∙ routes_t;
            same_rules = rest.same_rules ∙ rules_t;
          })

    pub cleanup_groups-Removing :
        (gs : List RouteGroup) (s t : AppState w.kernel.State) (gps : List GroupPlan)
        → cleanup_groups w cfg gs s ≡ (ok gps, t)
        → Removing gs gps s.outside t.outside
    unfolding cleanup_groups
    cleanup_groups-Removing [] s t gps h =
        no_plans s.outside t.outside gps (ap (λ y. y.outside) (state_of_eq h)) (value_of_eq h)
    cleanup_groups-Removing (g ∷ gs) s t gps h =
        let (gp, u, e₁, h₁) = after_ok-eq-ok (cleanup_group w cfg g s) _ h in
        let (rest, v, e₂, h₂) = after_ok-eq-ok (cleanup_groups w cfg gs u) _ h₁ in
        let end : v ≡ t = state_of_eq h₂ in
        subst (λ plans. Removing (g ∷ gs) plans s.outside t.outside) (value_of_eq h₂)
          (subst (λ y. Removing (g ∷ gs) (gp ∷ rest) s.outside y.outside) end
            (cons-Removing g gs rest s u v gp e₁ (cleanup_groups-Removing gs u v rest e₂)))
