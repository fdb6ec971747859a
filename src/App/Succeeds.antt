-- ===== src/App/Succeeds.antt =====
-- What it takes for the actions of internal/app/app.go to succeed.
use route_sync.Base.{◌≡◌, ap, String, ◌<>◌, List, [], ◌∷◌}
use route_sync.Base.Result.{
  Result, ok, err, Action, after_ok, for_each, after_ok-keeps, after_ok-eq-ok, err≢ok,
}
use route_sync.App.Candidates.Keeps.{Keeps}
use route_sync.Netip.Text.{NetipText}
use route_sync.Metrics
use route_sync.Rtnl.{Route, Rule, Kernel}
use route_sync.Planner.{GroupPlan}
use route_sync.Reconcile.Routes
use route_sync.Reconcile.Rules
use route_sync.App.World.{World, AppState, lift, in_context, record_metric}
use route_sync.App.Plan.{App}
use route_sync.App.Run.{counting_errors, apply_plan}

module _ {O A : Type 0} where
  lift_from :
      (r : Result A × O) (s : AppState O) (a : A) (t : AppState O)
      → ◌≡◌ {A = Result A × AppState O}
          (r.0, record { outside = r.1; registry = s.registry })
          (ok a, t)
      → r ≡ (ok a, t.outside)
  lift_from (ok b, o) s a t h = ap (λ p. (p.0, p.1.outside)) h
  lift_from (err e, o) s a t h = absurd (err≢ok e a (ap (λ p. p.0) h))

  pub lift-eq-ok :
      (m : Action O A) (s : AppState O) (a : A) (t : AppState O)
      → lift m s ≡ (ok a, t)
      → m s.outside ≡ (ok a, t.outside)
  lift-eq-ok m s a t h = lift_from (m s.outside) s a t h

-- `return err` after a failure that changes the error or the state alone.
module _ {S A : Type 0} where
  pub after_ok-pure :
      (m : Result A × S) (c : String → String) (f : S → S) (a : A) (t : S)
      → after_ok {B = Result A × S} m (λ b u. (ok b, u)) (λ e u. (err (c e), f u)) ≡ (ok a, t)
      → m ≡ (ok a, t)
  after_ok-pure (ok b, u) c f a t h = h
  after_ok-pure (err e, u) c f a t h = absurd (err≢ok (c e) a (ap (λ p. p.0) h))

module _ {O A : Type 0} where
  -- A call of the machine with a context for its error
  pub called-eq-ok :
      (context : String) (m : Action O A) (s : AppState O) (a : A) (t : AppState O)
      → in_context context (lift m) s ≡ (ok a, t)
      → m s.outside ≡ (ok a, t.outside)
  called-eq-ok context m s a t h =
      lift-eq-ok m s a t (after_ok-pure (lift m s) (λ e. context <> (": " <> e)) (λ u. u) a t h)

module _ {S : Type 0} (P : S → Type 0) where
  pub for_each-keeps :
      {X : Type 0} (body : X → Action S (Unit {0}))
      → ((x : X) → Keeps P (body x))
      → (xs : List X) → Keeps P (for_each body xs)
  for_each-keeps body k [] s p = p
  for_each-keeps body k (x ∷ xs) s p =
      after_ok-keeps P (body x s) _ _ (k x s p) (λ _ t q. for_each-keeps body k xs t q) (λ _ t q. q)

module _ (k : Kernel) (P : k.State → Type 0) where
  pub rules_apply-keeps :
      ((r : Rule) → Keeps P (k.add_rule r))
      → ((r : Rule) → Keeps P (k.delete_rule r))
      → (gps : List GroupPlan) → Keeps P (Rules.apply k gps)
  unfolding Rules.apply Rules.change_rules
  rules_apply-keeps added deleted = for_each-keeps P (Rules.change_rules k) (λ gp s p.
      after_ok-keeps P (for_each k.add_rule gp.rules_to_add s) _ _
        (for_each-keeps P k.add_rule added gp.rules_to_add s p)
        (λ _ t q. for_each-keeps P k.delete_rule deleted gp.rules_to_remove t q) (λ _ t q. q))

  pub routes_apply-keeps :
      (text : NetipText)
      → ((r : Route) → Keeps P (k.add_route r))
      → ((r : Route) → Keeps P (k.delete_route r))
      → (gps : List GroupPlan) → Keeps P (Routes.apply k text gps)
  unfolding Routes.apply Routes.replace_routes Routes.remove_routes
  routes_apply-keeps text added deleted gps s p =
      after_ok-keeps P (for_each (Routes.replace_routes k text) gps s) _ _
        (for_each-keeps P (Routes.replace_routes k text)
          (λ gp u q.
            after_ok-keeps P (for_each k.delete_route (Routes.conflicting_route_removals text gp) u)
              _ _ (for_each-keeps P k.delete_route deleted _ u q)
              (λ _ v r. for_each-keeps P k.add_route added gp.routes_to_add v r) (λ _ v r. r))
          gps s p)
        (λ _ t q.
          for_each-keeps P (Routes.remove_routes k text)
            (λ gp. for_each-keeps P k.delete_route deleted (Routes.late_route_removals text gp)) gps
            t q)
        (λ _ t q. q)

module _ (w : World) where
  pub counted-eq-ok :
      {A : Type 0} (name : String) (m : App w A) (s : AppState w.kernel.State) (a : A)
      (t : AppState w.kernel.State)
      → counting_errors w name m s ≡ (ok a, t)
      → m s ≡ (ok a, t)
  counted-eq-ok name m s a t h =
      after_ok-pure (m s) (λ e. e) (record_metric (Metrics.inc name)) a t h

  -- The rules are applied, and then the routes.
  pub apply_plan-eq-ok :
      (failed : String) (plan : List GroupPlan) (s t : AppState w.kernel.State)
      → apply_plan w failed plan s ≡ (ok tt, t)
      → (u : w.kernel.State) × (Rules.apply w.kernel plan s.outside ≡ (ok tt, u))
        × (Routes.apply w.kernel w.text plan u ≡ (ok tt, t.outside))
  unfolding apply_plan
  apply_plan-eq-ok failed plan s t h =
      let rules : App w (Unit {0}) = lift (Rules.apply w.kernel plan) in
      let routes : App w (Unit {0}) = lift (Routes.apply w.kernel w.text plan) in
      let (_, u, e₁, h₁) = after_ok-eq-ok (counting_errors w failed rules s) _ h in
      (
        u.outside,
        lift-eq-ok (Rules.apply w.kernel plan) s tt u (counted-eq-ok failed rules s tt u e₁),
        lift-eq-ok (Routes.apply w.kernel w.text plan) u tt t
            (counted-eq-ok failed routes u tt t h₁),
      )
