-- ===== src/App/Run/Reconciled.antt =====
-- reconcileOnce of internal/app/app.go on the lists of the kernel's routes and rules.
mod Applied
mod Owned
use route_sync.Base.{
  ◌≡◌, refl, sym, ◌∙◌, ap, subst, String, Bool, true, false, not, ◌&&◌, ◌||◌, List, [], ◌∷◌, ◌++◌,
  any, any-ext, any-keep, any_mono, none_of, In, keep, All, arith, str_eq, str_eq_iff, Bool-cases,
  inl, inr,
}
use route_sync.Base.Int.{ℤ}
use route_sync.Base.Maps.{IsOrder}
use route_sync.Base.Result.{Result, ok, after_ok-eq-ok, value_of_eq, state_of_eq}
use route_sync.Config.{Config, groups}
use route_sync.Metrics
use route_sync.Rtnl.{Route, Rule}
use route_sync.Planner.{InputGroup, GroupPlan, build, desired_rules, route_key, rule_key}
use route_sync.Planner.Diff.{has_key}
use route_sync.Planner.Build.{wanted_routes}
use route_sync.Reconcile.Routes
use route_sync.Reconcile.Rules
use route_sync.Reconcile.Rules.Table.{mentions, apply_rules-build}
use route_sync.Reconcile.Routes.Table.{keyed_in, same_key}
use route_sync.Reconcile.Routes.Table.Applied.{barred, clash, in_slot_of}
use route_sync.Reconcile.Routes.Table.Restricted.{in_table}
use route_sync.Reconcile.Routes.Table.Groups.{touches, apply-build}
use route_sync.Reconcile.Routes.Table.Groups
use route_sync.Reconcile.Rules.Table
use route_sync.App.World.{World, AppState, record_metric}
use route_sync.App.Plan.{build_inputs, build_plan, set_all_gauges}
use route_sync.App.Run.{counting_errors, apply_plan, reconcile_once}
use route_sync.App.Run.Inputs.{IsCurrent, build_inputs-IsCurrent}
use route_sync.App.Succeeds.{counted-eq-ok, apply_plan-eq-ok, rules_apply-keeps, routes_apply-keeps}
use route_sync.App.Tables.{IsMachine, own_route, own_rule}
use route_sync.App.Run.Reconciled.Applied.{reconcile_once-Applied}
use route_sync.App.Run.Reconciled.Owned.{apply-owned}

All-at : {A : Type 0} (P : A → Type 0) (xs ys : List A) (a : A) → All P (xs ++ (a ∷ ys)) → P a
All-at P [] ys a h = h.0
All-at P (x ∷ xs) ys a h = All-at P xs ys a h.1

module _ (of_family : ℤ → Route → Bool) (rule_of_family : ℤ → Rule → Bool) (w : World)
    (cfg : Config) where
  -- The input has a wanted route, or one of `rs` that the program owns for it, that passes the test.
  abbrev pub uses_route : List Route → (Route → Bool) → InputGroup → Bool
  uses_route rs f i =
      any f (wanted_routes w.text cfg.global.route_protocol i)
      || any (λ q. own_route of_family rule_of_family cfg i.config q && f q) rs

  -- The same of rules
  abbrev pub uses_rule : List Rule → (Rule → Bool) → InputGroup → Bool
  uses_rule rs f i =
      any f (desired_rules w.text i.config)
      || any (λ q. own_rule of_family rule_of_family cfg i.config q && f q) rs

  module _ (vr : List Route) (vu : List Rule) where
    uses-uses_route :
        (f : Route → Bool) (is : List InputGroup)
        → All (IsCurrent of_family rule_of_family cfg vr vu) is
        → any (Groups.uses w.text cfg.global.route_protocol f) is ≡ any (uses_route vr f) is
    uses-uses_route f [] h = refl
    uses-uses_route f (i ∷ is) (h, hs) = ground (arith, h.0 f, uses-uses_route f is hs)

    uses-uses_rule :
        (f : Rule → Bool) (is : List InputGroup)
        → All (IsCurrent of_family rule_of_family cfg vr vu) is
        → any (Table.uses w.text f) is ≡ any (uses_rule vu f) is
    uses-uses_rule f [] h = refl
    uses-uses_rule f (i ∷ is) (h, hs) = ground (arith, h.1 f, uses-uses_rule f is hs)

module _ (w : World) (routes : w.kernel.State → List Route) (rules : w.kernel.State → List Rule)
    (of_family : ℤ → Route → Bool) (rule_of_family : ℤ → Rule → Bool)
    (is : IsMachine w routes rules of_family rule_of_family) (cfg : Config) where
  -- reconcileOnce, on a machine whose rules are a list, if it succeeds without the dry-run flag and g
  -- is one of the inputs that BuildPlan makes: the key of a rule that no other input wants or has
  -- among its current rules is among the rules afterwards exactly if g wants it, or if it was among
  -- them before and no rule with it was the program's own for g. Go may range over the maps in any
  -- order. It is assumed that the kernel keeps one rule of a key, and takes the rules that the inputs
  -- want, and those that the program owns for them, as they are given.
  pub reconcile_once-rules :
      IsOrder w.ranges.routes
      → IsOrder w.ranges.rules
      → (before behind : List InputGroup) (g : InputGroup) (s u t : AppState w.kernel.State)
        (x : String)
      → build_inputs w cfg (groups cfg) s ≡ (ok (before ++ (g ∷ behind)), u)
      → any (mentions w.text x) (before ++ behind) ≡ false
      → any
          (uses_rule of_family rule_of_family w cfg
            (rules s.outside)
            (λ r. not (is.rule_table.exact r)))
          (before ++ (g ∷ behind))
        ≡ false
      → reconcile_once w cfg false s ≡ (ok tt, t)
      → has_key (rule_key w.text) x (rules t.outside) ≡ (
          (has_key (rule_key w.text) x (rules s.outside)
            && not (
                any
                  (λ q.
                    own_rule of_family rule_of_family cfg g.config q
                    && str_eq (rule_key w.text q) x)
                  (rules s.outside)))
          || has_key (rule_key w.text) x (desired_rules w.text g.config))
  reconcile_once-rules ro uo before behind g s u t x built others taken h =
      let run =
        reconcile_once-Applied w routes rules of_family rule_of_family is cfg
          (before ++ (g ∷ behind)) s u t built h in
      let key_of = λ (r : Rule). str_eq (rule_key w.text r) x in
      let own = own_rule of_family rule_of_family cfg g.config in
      let current = (All-at _ before behind g run.current).1 key_of in
      let among =
        any_mono (λ q. own q && key_of q) key_of (λ q k. ground (arith, k)) (rules s.outside) in
      let start = ap (any key_of) run.same_rules in
      let after : rules t.outside ≡ rules run.middle =
        ap (λ m. rules m.1) (sym run.by_routes)
        ∙ routes_apply-keeps w.kernel (λ y. rules y ≡ rules run.middle) w.text
            (λ r. is.add_route_apart r (rules run.middle))
            (λ r. is.delete_route_apart r (rules run.middle)) _ run.middle refl in
      ap (any key_of) after
      ∙ apply_rules-build w.text w.ranges ro uo w.kernel rules is.rule_table
          cfg.global.route_protocol before behind g run.start run.middle x others
          (ground (arith, current, among, start))
          (uses-uses_rule of_family rule_of_family w cfg (routes s.outside) (rules s.outside)
              (λ r. not (is.rule_table.exact r)) (before ++ (g ∷ behind)) run.current
            ∙ taken)
          run.by_rules
      ∙ ground (arith, current, start)

  -- reconcileOnce, on a machine whose routes are a list, if it succeeds without the dry-run flag and g
  -- is one of the inputs that BuildPlan makes: a key is among the routes of g's table afterwards
  -- exactly if g wants it, or if it was among them before and no route with it was the program's own
  -- for g. Go may range over the maps in any order. It is assumed that no other input has that table
  -- as its target or a current route in it; that the kernel keeps one route of a table, metric and
  -- destination; that no printed gateway in the table or of a wanted route holds a bar; that no two
  -- wanted routes with different keys share a table, metric and destination; that no route of the
  -- table that shares them with a wanted one is foreign; and that the kernel takes the routes that the
  -- inputs want, and those that the program owns for them, as they are given.
  pub reconcile_once-routes :
      IsOrder w.ranges.routes
      → IsOrder w.ranges.rules
      → (before behind : List InputGroup) (g : InputGroup) (s u t : AppState w.kernel.State)
        (x : String)
      → build_inputs w cfg (groups cfg) s ≡ (ok (before ++ (g ∷ behind)), u)
      → any (touches g.config.target.table) (before ++ behind) ≡ false
      → any (barred w.text) (keep (in_table g.config.target.table) (routes s.outside)) ≡ false
      → any (barred w.text) (wanted_routes w.text cfg.global.route_protocol g) ≡ false
      → any
          (λ a. any (clash w.text a) (wanted_routes w.text cfg.global.route_protocol g))
          (wanted_routes w.text cfg.global.route_protocol g)
        ≡ false
      → any
          (λ q.
            in_slot_of w.text (wanted_routes w.text cfg.global.route_protocol g) q
            && not (own_route of_family rule_of_family cfg g.config q))
          (keep (in_table g.config.target.table) (routes s.outside))
        ≡ false
      → any
          (uses_route of_family rule_of_family w cfg
            (routes s.outside)
            (λ r. not (is.table.exact r)))
          (before ++ (g ∷ behind))
        ≡ false
      → reconcile_once w cfg false s ≡ (ok tt, t)
      → has_key (route_key w.text) x (keep (in_table g.config.target.table) (routes t.outside)) ≡ (
          (has_key (route_key w.text) x (keep (in_table g.config.target.table) (routes s.outside))
            && not (
                any
                  (λ q.
                    own_route of_family rule_of_family cfg g.config q
                    && str_eq (route_key w.text q) x)
                  (routes s.outside)))
          || has_key (route_key w.text) x (wanted_routes w.text cfg.global.route_protocol g))
  reconcile_once-routes ro uo before behind g s u t x built others readable wanted_readable apart
        free taken h =
      let run =
        reconcile_once-Applied w routes rules of_family rule_of_family is cfg
          (before ++ (g ∷ behind)) s u t built h in
      let seen : routes run.middle ≡ routes s.outside =
        ap (λ m. routes m.1) (sym run.by_rules)
        ∙ rules_apply-keeps w.kernel (λ y. routes y ≡ routes s.outside)
            (λ r. is.add_rule_apart r (routes s.outside))
            (λ r. is.delete_rule_apart r (routes s.outside)) _ run.start run.same_routes in
      let current = (All-at _ before behind g run.current).0 in
      subst
        (λ l.
          ((f : Route → Bool)
            → any f g.current_routes
              ≡ any (λ q. own_route of_family rule_of_family cfg g.config q && f q) l)
          → any (barred w.text) (keep (in_table g.config.target.table) l) ≡ false
          → any
              (λ q.
                in_slot_of w.text (wanted_routes w.text cfg.global.route_protocol g) q
                && not (own_route of_family rule_of_family cfg g.config q))
              (keep (in_table g.config.target.table) l)
            ≡ false
          → has_key (route_key w.text) x (keep (in_table g.config.target.table) (routes t.outside))
            ≡ ((has_key (route_key w.text) x (keep (in_table g.config.target.table) l)
                  && not (
                      any
                        (λ q.
                          own_route of_family rule_of_family cfg g.config q
                          && str_eq (route_key w.text q) x)
                        l))
                || has_key (route_key w.text) x (wanted_routes w.text cfg.global.route_protocol g)))
        seen
        (λ c r f.
          apply-owned w routes rules of_family rule_of_family is cfg ro uo before behind g
            run.middle t.outside x c others r wanted_readable apart f
            (uses-uses_route of_family rule_of_family w cfg (routes s.outside) (rules s.outside)
                (λ q. not (is.table.exact q)) (before ++ (g ∷ behind)) run.current
              ∙ taken)
            run.by_routes)
        current readable free
