-- ===== src/App/Run/Cleaned.antt =====
-- cleanupOwned of internal/app/app.go on the lists of the kernel's routes and rules.
pub mod Plans
use route_sync.Base.{
  ◌≡◌, refl, sym, ◌∙◌, ap, subst, String, ◌<>◌, Bool, true, false, not, ◌&&◌, ◌||◌, List, [], ◌∷◌,
  ◌++◌, any, any-append, any-ext, any-or, none_of, fails_of, In, All, arith, str_eq, str_eq_iff,
  if◌then◌else◌,
}
use route_sync.Base.Int.{ℤ}
use route_sync.Base.Result.{
  Result, ok, err, Action, after_ok, after_ok-eq-ok, value_of_eq, state_of_eq,
}
use route_sync.Config.{RouteGroup, Config, groups}
use route_sync.Rtnl.{Route, Rule}
use route_sync.Planner.{GroupPlan}
use route_sync.Reconcile.Routes
use route_sync.Reconcile.Rules
use route_sync.Reconcile.Rules.{change_rules}
use route_sync.Reconcile.Routes.Table.{same_key}
use route_sync.Reconcile.Removals.{
  OnlyRemoves, removed_routes, removed_rules, same_rule, any-apply_removals,
  any-apply_rule_removals,
}
use route_sync.App.World.{World, AppState, in_context, lift, pure}
use route_sync.App.Plan.{App, cleanup_group, cleanup_groups, build_cleanup_plan}
use route_sync.App.Run.{apply_plan, counting_errors, cleanup_owned}
use route_sync.App.Run.Dry.{AnyRegistry, any_metrics}
use route_sync.App.Run.Reads.{owned_routes-Stays, owned_rules-Stays}
use route_sync.App.Succeeds.{
  called-eq-ok, counted-eq-ok, apply_plan-eq-ok, rules_apply-keeps, routes_apply-keeps,
}
use route_sync.App.Tables.{
  IsMachine, owned_route, owned_rule, owned_routes-Lists, owned_rules-Lists,
}
use route_sync.App.Run.Cleaned.Plans.{
  route_of_group, rule_of_group, Removing, cleanup_groups-Removing,
}

-- What `after` holds is what `before` held, less all that is the same as something of its own in
-- `before`; nothing of its own is left.
abbrev pub Without : {A : Type 0} → (A → A → Bool) → (A → Bool) → List A → List A → Type 0
Without {A} same own before after =
    (any own after ≡ false)
    × ((f : A → Bool)
        → any f after ≡ any (λ q. not (any (λ r. own r && same r q) before) && f q) before)

module _ {A : Type 0} (same : A → A → Bool) (reflexive : (a : A) → same a a ≡ true)
    (own : A → Bool) where
  from_removed :
      (before after removed : List A)
      → ((f : A → Bool) → any f after ≡ any (λ q. not (any (λ r. same r q) removed) && f q) before)
      → ((f : A → Bool) → any f removed ≡ any (λ q. own q && f q) before)
      → Without same own before after
  from_removed before after removed h from =
      let kept = λ (f : A → Bool).
        h f
        ∙ any-ext (λ q. not (any (λ r. same r q) removed) && f q)
            (λ q. not (any (λ r. own r && same r q) before) && f q) before
            (λ q. ap (λ b. not b && f q) (from (λ r. same r q))) in
      (
        kept own
            ∙ none_of (λ q. not (any (λ r. own r && same r q) before) && own q) before
                (λ q i. ground (arith, i (λ r. own r && same r q), reflexive q)),
        kept,
      )

-- cleanupOwned, on a machine whose routes and rules are lists: if it succeeds without the dry-run
-- flag, no route is left that the program owns for a group of the configuration, and no rule that it
-- owns for a group that has a rule; every other route and rule is as before, but for those with the
-- key of an owned one. It is assumed that the kernel takes the owned ones as they are given.
pub cleanup_owned-Without :
    (w : World) (routes : w.kernel.State → List Route) (rules : w.kernel.State → List Rule)
    (of_family : ℤ → Route → Bool) (rule_of_family : ℤ → Rule → Bool)
    (is : IsMachine w routes rules of_family rule_of_family) (cfg : Config)
    (s t : AppState w.kernel.State)
    → any
        (λ q.
          any (route_of_group of_family rule_of_family cfg q) (groups cfg)
          && not (is.table.exact q))
        (routes s.outside)
      ≡ false
    → any
        (λ q.
          any (rule_of_group of_family rule_of_family cfg q) (groups cfg)
          && not (is.rule_table.exact q))
        (rules s.outside)
      ≡ false
    → cleanup_owned w cfg false s ≡ (ok tt, t)
    → Without
        (same_key w.text)
        (λ q. any (route_of_group of_family rule_of_family cfg q) (groups cfg))
        (routes s.outside)
        (routes t.outside)
      × Without
          (same_rule w.text)
          (λ q. any (rule_of_group of_family rule_of_family cfg q) (groups cfg))
          (rules s.outside)
          (rules t.outside)
unfolding cleanup_owned build_cleanup_plan
cleanup_owned-Without w routes rules of_family rule_of_family is cfg s t routes_taken rules_taken
      h =
    let name : String = "failed_cleanup_total" in
    let (gps, u, e₁, h₁) =
      after_ok-eq-ok (counting_errors w name (cleanup_groups w cfg (groups cfg)) s) _ h in
    let (_, v, e₂, h₂) = after_ok-eq-ok (apply_plan w name gps u) _ h₁ in
    let same : v.outside ≡ t.outside = ap (λ y. y.outside) (state_of_eq h₂) in
    let plan =
      cleanup_groups-Removing of_family rule_of_family cfg w routes rules is (groups cfg) s u gps
        (counted-eq-ok w name (cleanup_groups w cfg (groups cfg)) s gps u e₁) in
    let (x, by_rules, by_routes) = apply_plan-eq-ok w name gps u v e₂ in
    let routes_x : routes x ≡ routes s.outside =
      ap (λ m. routes m.1) (sym by_rules)
      ∙ rules_apply-keeps w.kernel (λ y. routes y ≡ routes s.outside)
          (λ r. is.add_rule_apart r (routes s.outside))
          (λ r. is.delete_rule_apart r (routes s.outside)) gps u.outside plan.same_routes in
    let rules_v : rules v.outside ≡ rules x =
      ap (λ m. rules m.1) (sym by_routes)
      ∙ routes_apply-keeps w.kernel (λ y. rules y ≡ rules x) w.text
          (λ r. is.add_route_apart r (rules x)) (λ r. is.delete_route_apart r (rules x)) gps x
          refl in
    (
      from_removed (same_key w.text) (λ r. (str_eq_iff _ _).1 refl)
          (λ q. any (route_of_group of_family rule_of_family cfg q) (groups cfg)) (routes s.outside)
          (routes t.outside) (removed_routes gps)
          (λ f.
            ap (λ y. any f (routes y)) (sym same)
            ∙ any-apply_removals w.text w.kernel routes is.table gps plan.only
                (plan.from_routes (λ r. not (is.table.exact r)) ∙ routes_taken) x v.outside
                by_routes f
            ∙ ap (any (λ q. not (any (λ r. same_key w.text r q) (removed_routes gps)) && f q))
                routes_x)
          plan.from_routes,
      from_removed (same_rule w.text) (λ r. (str_eq_iff _ _).1 refl)
          (λ q. any (rule_of_group of_family rule_of_family cfg q) (groups cfg)) (rules s.outside)
          (rules t.outside) (removed_rules gps)
          (λ f.
            ap (λ y. any f (rules y)) (sym same)
            ∙ ap (any f) rules_v
            ∙ any-apply_rule_removals w.text w.kernel rules is.rule_table gps plan.only
                (plan.from_rules (λ r. not (is.rule_table.exact r)) ∙ rules_taken) u.outside x
                by_rules f
            ∙ ap (any (λ q. not (any (λ r. same_rule w.text r q) (removed_rules gps)) && f q))
                plan.same_rules)
          plan.from_rules,
    )
