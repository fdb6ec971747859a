-- ===== src/App/Run/Reconciled/Owned.antt =====
-- Apply of internal/reconcile/routes/routes.go on the plans of Build, where the current routes of a
-- group are those of the table that the program owns.
use route_sync.Base.{
  ◌≡◌, refl, ◌∙◌, ap, String, Bool, true, false, not, ◌&&◌, ◌||◌, List, ◌∷◌, ◌++◌, any, any-keep,
  none_of, keep, arith, str_eq, str_eq_iff,
}
use route_sync.Base.Int.{ℤ}
use route_sync.Base.Maps.{IsOrder}
use route_sync.Base.Result.{ok}
use route_sync.Config.{Config}
use route_sync.Rtnl.{Route, Rule}
use route_sync.Planner.{InputGroup, build, route_key}
use route_sync.Planner.Diff.{has_key}
use route_sync.Planner.Build.{wanted_routes}
use route_sync.Reconcile.Routes
use route_sync.Reconcile.Routes.Table.{keyed_in, same_key}
use route_sync.Reconcile.Routes.Table.Applied.{barred, clash, in_slot_of}
use route_sync.Reconcile.Routes.Table.Restricted.{in_table}
use route_sync.Reconcile.Routes.Table.Groups.{touches, uses, apply-build}
use route_sync.App.World.{World}
use route_sync.App.Tables.{IsMachine, own_route}

module _ (w : World) (routes : w.kernel.State → List Route) (rules : w.kernel.State → List Rule)
    (of_family : ℤ → Route → Bool) (rule_of_family : ℤ → Rule → Bool)
    (is : IsMachine w routes rules of_family rule_of_family) (cfg : Config) where
  -- Apply of the routes, where the current routes of g are those of the table that it owns.
  pub apply-owned :
      IsOrder w.ranges.routes
      → IsOrder w.ranges.rules
      → (before behind : List InputGroup) (g : InputGroup) (s t : w.kernel.State) (x : String)
      → ((f : Route → Bool)
          → any f g.current_routes
            ≡ any (λ q. own_route of_family rule_of_family cfg g.config q && f q) (routes s))
      → any (touches g.config.target.table) (before ++ behind) ≡ false
      → any (barred w.text) (keep (in_table g.config.target.table) (routes s)) ≡ false
      → any (barred w.text) (wanted_routes w.text cfg.global.route_protocol g) ≡ false
      → any
          (λ a. any (clash w.text a) (wanted_routes w.text cfg.global.route_protocol g))
          (wanted_routes w.text cfg.global.route_protocol g)
        ≡ false
      → any
          (λ q.
            in_slot_of w.text (wanted_routes w.text cfg.global.route_protocol g) q
            && not (own_route of_family rule_of_family cfg g.config q))
          (keep (in_table g.config.target.table) (routes s))
        ≡ false
      → any
          (uses w.text cfg.global.route_protocol (λ r. not (is.table.exact r)))
          (before ++ (g ∷ behind))
        ≡ false
      → Routes.apply w.kernel w.text
          (build w.text w.ranges cfg.global.route_protocol (before ++ (g ∷ behind)))
          s
        ≡ (ok tt, t)
      → has_key (route_key w.text) x (keep (in_table g.config.target.table) (routes t)) ≡ (
          (has_key (route_key w.text) x (keep (in_table g.config.target.table) (routes s))
            && not (
                any
                  (λ q.
                    own_route of_family rule_of_family cfg g.config q
                    && str_eq (route_key w.text q) x)
                  (routes s)))
          || has_key (route_key w.text) x (wanted_routes w.text cfg.global.route_protocol g))
  apply-owned ro uo before behind g s t x current others readable wanted_readable apart free taken
        e =
      let n = g.config.target.table in
      let own = own_route of_family rule_of_family cfg g.config in
      let wanted = wanted_routes w.text cfg.global.route_protocol g in
      let own_in_table : (q : Route) → own q ≡ true → in_table n q ≡ true =
        λ q h. ground (arith, h) in
      apply-build w.text w.ranges ro uo w.kernel routes is.table cfg.global.route_protocol before
        behind g s t others
        (current (λ r. not (in_table n r))
          ∙ none_of (λ q. own q && not (in_table n q)) (routes s)
              (λ q i. ground (arith, own_in_table q)))
        readable
        (current (barred w.text)
          ∙ none_of (λ q. own q && barred w.text q) (routes s)
              (λ q i. ground (
                arith,
                own_in_table q,
                any-keep (barred w.text) (in_table n) (routes s),
                i (λ r. in_table n r && barred w.text r),
                readable,
              )))
        wanted_readable apart
        (any-keep (λ q. in_slot_of w.text wanted q && not (keyed_in w.text g.current_routes q))
            (in_table n) (routes s)
          ∙ none_of
              (λ q.
                in_table n q
                && (in_slot_of w.text wanted q && not (keyed_in w.text g.current_routes q)))
              (routes s)
              (λ q i. ground (
                arith,
                any-keep (λ q. in_slot_of w.text wanted q && not (own q)) (in_table n) (routes s),
                free,
                i (λ r. in_table n r && (in_slot_of w.text wanted r && not (own r))),
                current (λ r. same_key w.text r q),
                i (λ r. own r && same_key w.text r q),
                (str_eq_iff (route_key w.text q) (route_key w.text q)).1 refl,
              )))
        (current (λ c. not (keyed_in w.text (keep (in_table n) (routes s)) c))
          ∙ none_of (λ q. own q && not (keyed_in w.text (keep (in_table n) (routes s)) q))
              (routes s)
              (λ q i. ground (
                arith,
                own_in_table q,
                any-keep (λ r. same_key w.text r q) (in_table n) (routes s),
                i (λ r. in_table n r && same_key w.text r q),
                (str_eq_iff (route_key w.text q) (route_key w.text q)).1 refl,
              )))
        taken e x
      ∙ ap
          (λ b.
            (has_key (route_key w.text) x (keep (in_table n) (routes s)) && not b)
            || has_key (route_key w.text) x wanted)
          (current (λ q. str_eq (route_key w.text q) x))
