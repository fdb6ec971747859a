-- ===== src/App/Run/Reconciled/Applied.antt =====
-- What reconcileOnce of internal/app/app.go has done when it succeeds.
use route_sync.Base.{◌≡◌, refl, sym, ◌∙◌, ap, subst, String, Bool, false, List, All}
use route_sync.Base.Int.{ℤ}
use route_sync.Base.Result.{ok, after_ok-eq-ok, value_of_eq, state_of_eq}
use route_sync.Config.{Config, groups}
use route_sync.Rtnl.{Route, Rule}
use route_sync.Planner.{InputGroup, build}
use route_sync.Reconcile.Routes
use route_sync.Reconcile.Rules
use route_sync.App.World.{World, AppState}
use route_sync.App.Plan.{build_inputs, build_plan}
use route_sync.App.Run.{counting_errors, apply_plan, reconcile_once}
use route_sync.App.Run.Inputs.{IsCurrent, build_inputs-IsCurrent}
use route_sync.App.Succeeds.{counted-eq-ok, apply_plan-eq-ok}
use route_sync.App.Tables.{IsMachine}

module _ (w : World) (routes : w.kernel.State → List Route) (rules : w.kernel.State → List Rule)
    (of_family : ℤ → Route → Bool) (rule_of_family : ℤ → Rule → Bool)
    (is : IsMachine w routes rules of_family rule_of_family) (cfg : Config) where
  -- A reconciliation that succeeds has built these inputs, and applied the plan of Build for them.
  pub record Applied (inputs : List InputGroup) (s t : w.kernel.State) : Type 0 where
    pub middle : w.kernel.State
    pub current : All (IsCurrent of_family rule_of_family cfg (routes s) (rules s)) inputs
    pub start : w.kernel.State
    pub same_routes : routes start ≡ routes s
    pub same_rules : rules start ≡ rules s
    pub by_rules :
        Rules.apply w.kernel (build w.text w.ranges cfg.global.route_protocol inputs) start
        ≡ (ok tt, middle)
    pub by_routes :
        Routes.apply w.kernel w.text (build w.text w.ranges cfg.global.route_protocol inputs) middle
        ≡ (ok tt, t)

  pub reconcile_once-Applied :
      (inputs : List InputGroup) (s u t : AppState w.kernel.State)
      → build_inputs w cfg (groups cfg) s ≡ (ok inputs, u)
      → reconcile_once w cfg false s ≡ (ok tt, t)
      → Applied inputs s.outside t.outside
  unfolding reconcile_once build_plan
  reconcile_once-Applied inputs s u t built h =
      let name : String = "failed_reconcile_total" in
      let plan_of = build w.text w.ranges cfg.global.route_protocol in
      let (plan, v, e₁, h₁) = after_ok-eq-ok (counting_errors w name (build_plan w cfg) s) _ h in
      let (others, x, e₂, h₂) =
        after_ok-eq-ok (build_inputs w cfg (groups cfg) s) _
          (counted-eq-ok w name (build_plan w cfg) s plan v e₁) in
      let same : others ≡ inputs = value_of_eq (sym e₂ ∙ built) in
      let plan_eq : plan ≡ plan_of inputs = sym (value_of_eq h₂) ∙ ap plan_of same in
      let (_, y, e₃, h₃) = after_ok-eq-ok (apply_plan w name plan v) _ h₁ in
      let (middle, by_rules, by_routes) = apply_plan-eq-ok w name plan v y e₃ in
      let end : y.outside ≡ t.outside = ap (λ z. z.outside) (state_of_eq h₃) in
      let start : x.outside ≡ v.outside = ap (λ z. z.outside) (state_of_eq h₂) in
      let (current, seen) =
        build_inputs-IsCurrent of_family rule_of_family cfg w routes rules is (routes s.outside)
          (rules s.outside) (groups cfg) s x others (refl, refl) e₂ in
      record {
        middle = middle;
        current =
            subst
              (All (IsCurrent of_family rule_of_family cfg (routes s.outside) (rules s.outside)))
              same current;
        start = v.outside;
        same_routes = ap routes (sym start) ∙ seen.0;
        same_rules = ap rules (sym start) ∙ seen.1;
        by_rules = ap (λ p. Rules.apply w.kernel p v.outside) (sym plan_eq) ∙ by_rules;
        by_routes =
            ap (λ p. Routes.apply w.kernel w.text p middle) (sym plan_eq)
            ∙ by_routes
            ∙ ap (λ z. (ok tt, z)) end;
      }
