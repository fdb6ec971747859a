-- ===== src/App/Run/Inputs.antt =====
-- The loop of BuildPlan of internal/app/app.go: the current routes and rules of its inputs.
use route_sync.Base.{
  ◌≡◌, ◌∙◌, ap, subst, ◌<>◌, Bool, true, false, ◌&&◌, Option, none, some, List, [], ◌∷◌, any, All,
  if◌then◌else◌,
}
use route_sync.Base.Int.{ℤ}
use route_sync.Base.Result.{ok, err, after_ok-eq-ok, err≢ok, value_of_eq, state_of_eq}
use route_sync.Netip.{Prefix}
use route_sync.Config.{RouteGroup, Config}
use route_sync.Rtnl.{Route, Rule}
use route_sync.Source.Normalize.{normalize}
use route_sync.Planner.{InputGroup}
use route_sync.Reconcile.Routes
use route_sync.Reconcile.Rules
use route_sync.App.World.{World, AppState, ◌>>=◌, lift, in_context}
use route_sync.App.Plan.{
  App, default_dev, has_provider, fetch_or_load, group_input, input_of, build_input, build_inputs,
  cons_some,
}
use route_sync.App.Locals.{exclusion_inputs}
use route_sync.App.Stays.{Stays, Out, in_context-Stays}
use route_sync.App.Run.Dry.{AnyRegistry, any_metrics}
use route_sync.App.Run.Reads.{
  ReadsKeep, exclusion_inputs-Stays, fetch_or_load-Stays, save_fetched-Stays, link_index_of-Stays,
}
use route_sync.App.Run.Building.{
  group_routes-Stays, group_rules-Stays, target_hops-Stays, default_hops-Stays, build_input-Stays,
}
use route_sync.App.Succeeds.{called-eq-ok}
use route_sync.App.Tables.{IsMachine, own_route, own_rule, owned_routes-Lists, owned_rules-Lists}

both :
    (w : World) (P Q : w.kernel.State → Type 0)
    → ReadsKeep w P
    → ReadsKeep w Q
    → ReadsKeep w (λ t. P t × Q t)
both w P Q k l = record {
  links = λ name s p. (k.links name s p.0, l.links name s p.1);
  pings = λ dev a timeout s p. (k.pings dev a timeout s p.0, l.pings dev a timeout s p.1);
  ripe = λ country timeout s p. (k.ripe country timeout s p.0, l.ripe country timeout s p.1);
  txt = λ url timeout s p. (k.txt url timeout s p.0, l.txt url timeout s p.1);
  addrs = λ s p. (k.addrs s p.0, l.addrs s p.1);
  routes =
      λ n family protocol s p. (k.routes n family protocol s p.0, l.routes n family protocol s p.1);
  rules = λ family s p. (k.rules family s p.0, l.rules family s p.1);
  mkdirs = λ dir s p. (k.mkdirs dir s p.0, l.mkdirs dir s p.1);
  reads = λ name s p. (k.reads name s p.0, l.reads name s p.1);
  writes = λ name bytes s p. (k.writes name bytes s p.0, l.writes name bytes s p.1);
}

module _ (of_family : ℤ → Route → Bool) (rule_of_family : ℤ → Rule → Bool) (cfg : Config) where
  -- The current routes and rules of the input are those of the lists that the program owns for its
  -- group.
  abbrev pub IsCurrent : List Route → List Rule → InputGroup → Type 0
  IsCurrent vr vu i =
      ((f : Route → Bool)
        → any f i.current_routes
          ≡ any (λ q. own_route of_family rule_of_family cfg i.config q && f q) vr)
      × ((f : Rule → Bool)
          → any f i.current_rules
            ≡ any (λ q. own_rule of_family rule_of_family cfg i.config q && f q) vu)

  abbrev OfSome : List Route → List Rule → Option InputGroup → Type 0
  OfSome vr vu none = Unit
  OfSome vr vu (some i) = IsCurrent vr vu i

  module _ (w : World) (routes : w.kernel.State → List Route) (rules : w.kernel.State → List Rule)
      (is : IsMachine w routes rules of_family rule_of_family) (vr : List Route)
      (vu : List Rule) where
    abbrev Seen : w.kernel.State → Type 0
    Seen t = (routes t ≡ vr) × (rules t ≡ vu)

    reads-Seen : ReadsKeep w Seen
    reads-Seen =
        both w (λ t. routes t ≡ vr) (λ t. rules t ≡ vu) (is.reads_routes vr) (is.reads_rules vu)

    -- What a run that succeeds has begun with keeps `Seen`, and its rest goes on from there.
    from_bind :
        {A B : Type 0} (Goal : Type 0) (m : App w A) (f : A → App w B)
        (s t : AppState w.kernel.State) (b : B)
        → Stays (Out Seen AnyRegistry) m
        → Seen s.outside
        → (m >>= f) s ≡ (ok b, t)
        → ((a : A) (u : AppState w.kernel.State)
            → Seen u.outside
            → m s ≡ (ok a, u)
            → f a u ≡ (ok b, t)
            → Goal)
        → Goal
    from_bind Goal m f s t b stays seen h next =
        let (a, u, e, k) = after_ok-eq-ok (m s) f h in
        next a u (subst (λ r. Seen r.1.outside) e (stays.at s (seen, tt)).0) e k

    listed_routes :
        (g : RouteGroup) (s t : AppState w.kernel.State) (rs : List Route)
        → Seen s.outside
        → in_context
            (g.name <> ": list owned routes")
            (lift (
              Routes.current_owned w.kernel g.target.table cfg.global.route_protocol
                g.target.family))
            s
          ≡ (ok rs, t)
        → (f : Route → Bool)
        → any f rs ≡ any (λ q. own_route of_family rule_of_family cfg g q && f q) vr
    listed_routes g s t rs seen e f =
        let list =
          Routes.current_owned w.kernel g.target.table cfg.global.route_protocol g.target.family in
        (owned_routes-Lists of_family rule_of_family w routes rules is g.target.table
            cfg.global.route_protocol g.target.family s.outside t.outside rs
            (called-eq-ok (g.name <> ": list owned routes") list s rs t e)).0
          f
        ∙ ap (any (λ q. own_route of_family rule_of_family cfg g q && f q)) seen.0

    listed_rules :
        (g : RouteGroup) (s t : AppState w.kernel.State) (us : List Rule)
        → Seen s.outside
        → in_context
            (g.name <> ": list owned rules")
            (lift (
              Rules.current_owned w.kernel g.target.table g.rule.priority
                cfg.global.rule_priority_base cfg.global.rule_priority_step g.target.family))
            s
          ≡ (ok us, t)
        → (f : Rule → Bool)
        → any f us ≡ any (λ q. own_rule of_family rule_of_family cfg g q && f q) vu
    listed_rules g s t us seen e f =
        let list =
          Rules.current_owned w.kernel g.target.table g.rule.priority cfg.global.rule_priority_base
            cfg.global.rule_priority_step g.target.family in
        (owned_rules-Lists of_family rule_of_family w routes rules is g.target.table g.rule.priority
            cfg.global.rule_priority_base cfg.global.rule_priority_step g.target.family s.outside
            t.outside us (called-eq-ok (g.name <> ": list owned rules") list s us t e)).0
          f
        ∙ ap (any (λ q. own_rule of_family rule_of_family cfg g q && f q)) seen.1

    group_input-OfSome :
        (g : RouteGroup) (fallback : Bool) (ps : List Prefix) (s t : AppState w.kernel.State)
        (o : Option InputGroup)
        → Seen s.outside
        → group_input w g cfg fallback ps s ≡ (ok o, t)
        → OfSome vr vu o
    unfolding group_input
    group_input-OfSome g fallback ps s t o seen h =
        let Goal = OfSome vr vu o in
        from_bind Goal _ _ s t o
          (link_index_of-Stays w Seen AnyRegistry reads-Seen any_metrics
            (g.name <> (": resolve target dev " <> g.target.dev)) g.target.dev)
          seen h
          (λ _ s₁ seen₁ _ h₁.
            from_bind Goal _ _ s₁ t o
              (link_index_of-Stays w Seen AnyRegistry reads-Seen any_metrics
                (g.name <> (": resolve target default dev " <> default_dev w g.target.default))
                (default_dev w g.target.default))
              seen₁ h₁
              (λ _ s₂ seen₂ _ h₂.
                from_bind Goal _ _ s₂ t o
                  (target_hops-Stays w Seen AnyRegistry reads-Seen any_metrics g) seen₂ h₂
                  (λ _ s₃ seen₃ _ h₃.
                    from_bind Goal _ _ s₃ t o
                      (default_hops-Stays w Seen AnyRegistry reads-Seen any_metrics g) seen₃ h₃
                      (λ _ s₄ seen₄ _ h₄.
                        from_bind Goal _ _ s₄ t o
                          (group_routes-Stays w Seen AnyRegistry reads-Seen any_metrics
                            (g.name <> ": list owned routes") cfg g)
                          seen₄ h₄
                          (λ rs s₅ seen₅ e₅ h₅.
                            from_bind Goal _ _ s₅ t o
                              (group_rules-Stays w Seen AnyRegistry reads-Seen any_metrics
                                (g.name <> ": list owned rules") cfg g)
                              seen₅ h₅
                              (λ us s₆ seen₆ e₆ h₆.
                                from_bind Goal _ _ s₆ t o
                                  (in_context-Stays Seen AnyRegistry
                                    (g.name <> ": build exclusion inputs")
                                    (exclusion_inputs w.text (lift w.interface_addrs) g.target)
                                    (exclusion_inputs-Stays w Seen AnyRegistry reads-Seen
                                      any_metrics g.target))
                                  seen₆ h₆
                                  (λ _ s₇ seen₇ _ h₇.
                                    let current : ((f : Route → Bool)
                                          → any f rs
                                            ≡ any
                                                (λ q.
                                                  own_route of_family rule_of_family cfg g q && f q)
                                                vr)
                                        × ((f : Rule → Bool)
                                            → any f us
                                              ≡ any
                                                  (λ q.
                                                    own_rule of_family rule_of_family cfg g q
                                                    && f q)
                                                  vu) =
                                      (
                                        listed_routes g s₄ s₅ rs seen₄ e₅,
                                        listed_rules g s₅ s₆ us seen₅ e₆,
                                      ) in
                                    subst (OfSome vr vu) (value_of_eq h₇) current)))))))

    input_of-OfSome :
        (g : RouteGroup) (m : Option (List Prefix × Bool)) (s t : AppState w.kernel.State)
        (o : Option InputGroup)
        → Seen s.outside
        → input_of w cfg g m s ≡ (ok o, t)
        → OfSome vr vu o
    unfolding input_of
    input_of-OfSome g none s t o seen h = subst (OfSome vr vu) (value_of_eq h) tt
    input_of-OfSome g (some (raw, fallback)) s t o seen h =
        let ps = normalize raw cfg.global.enable_prefix_aggregation in
        from_bind (OfSome vr vu o) _ _ s t o
          (save_fetched-Stays w Seen AnyRegistry reads-Seen any_metrics g cfg fallback ps) seen h
          (λ _ u seen_u _ k. group_input-OfSome g fallback ps u t o seen_u k)

    build_input-OfSome :
        (g : RouteGroup) (s t : AppState w.kernel.State) (o : Option InputGroup)
        → Seen s.outside
        → build_input w cfg g s ≡ (ok o, t)
        → OfSome vr vu o
    unfolding build_input
    build_input-OfSome g s t o seen h = at_provider (has_provider w g) h
      where
        at_provider :
            (b : Bool)
            → (if b
                then (fetch_or_load w g cfg >>= input_of w cfg g) s
                else (err ("unsupported source type " <> w.text.quote g.source.source_type), s))
              ≡ (ok o, t)
            → OfSome vr vu o
        at_provider true k =
            from_bind (OfSome vr vu o) _ _ s t o
              (fetch_or_load-Stays w Seen AnyRegistry reads-Seen any_metrics g cfg) seen k
              (λ m u seen_u _ l. input_of-OfSome g m u t o seen_u l)
        at_provider false k = absurd (err≢ok _ o (ap (λ p. p.0) k))

    joined-IsCurrent :
        (o : Option InputGroup) (is : List InputGroup)
        → OfSome vr vu o
        → All (IsCurrent vr vu) is
        → All (IsCurrent vr vu) (cons_some w o is)
    joined-IsCurrent none is h hs = hs
    joined-IsCurrent (some i) is h hs = (h, hs)

    -- The inputs that the loop builds, from a state that shows these lists
    pub build_inputs-IsCurrent :
        (gs : List RouteGroup) (s t : AppState w.kernel.State) (inputs : List InputGroup)
        → Seen s.outside
        → build_inputs w cfg gs s ≡ (ok inputs, t)
        → All (IsCurrent vr vu) inputs × Seen t.outside
    unfolding build_inputs
    build_inputs-IsCurrent [] s t inputs seen h = (
      subst (All (IsCurrent vr vu)) (value_of_eq h) tt,
      subst (λ y. Seen y.outside) (state_of_eq h) seen,
    )
    build_inputs-IsCurrent (g ∷ gs) s t inputs seen h =
        let Goal = All (IsCurrent vr vu) inputs × Seen t.outside in
        from_bind Goal _ _ s t inputs
          (build_input-Stays w Seen AnyRegistry reads-Seen any_metrics cfg g) seen h
          (λ o u seen_u e k.
            let (rest, v, e₂, k₂) = after_ok-eq-ok (build_inputs w cfg gs u) _ k in
            let (these, seen_v) = build_inputs-IsCurrent gs u v rest seen_u e₂ in
            (
              subst (All (IsCurrent vr vu)) (value_of_eq k₂)
                  (joined-IsCurrent o rest (build_input-OfSome g s u o seen e) these),
              subst (λ y. Seen y.outside) (state_of_eq k₂) seen_v,
            ))
