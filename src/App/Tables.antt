-- ===== src/App/Tables.antt =====
-- The kernel under internal/app/app.go as two lists, of routes and of rules: what CurrentOwned of
-- internal/reconcile/routes/routes.go and internal/reconcile/rules/rules.go lists of them.
pub mod Listing
use route_sync.Base.{
  ◌≡◌, refl, sym, ◌∙◌, ap, String, Bool, true, false, ◌&&◌, ◌||◌, List, any, any-append, any-keep,
  any-ext, any-or, none_of, arith,
}
use route_sync.Base.Int.{ℤ, pos, eqb_ℤ, add_int, mul_int}
use route_sync.Base.Result.{ok, Action, after_ok-eq-ok, value_of_eq, state_of_eq}
use route_sync.Config.{RouteGroup, Config}
use route_sync.Rtnl.{Route, Rule}
use route_sync.Reconcile.Routes.{lists_v4, lists_v6, list_if, append_lists}
use route_sync.Reconcile.Routes
use route_sync.Reconcile.Rules
use route_sync.Reconcile.Routes.Table.{IsTable}
use route_sync.Reconcile.Routes.Table.Restricted.{in_table}
use route_sync.Reconcile.Rules.Table.{IsRuleTable}
use route_sync.App.Candidates.Keeps.{Keeps}
use route_sync.App.World.{World}
use route_sync.App.Run.Reads.{ReadsKeep}

-- Where the action succeeds, it lists what passes the test of what is there, and changes nothing.
abbrev pub Lists : {S A : Type 0} → (S → List A) → Action S (List A) → (A → Bool) → Type 0
Lists {S} {A} view m test =
    (s t : S) (xs : List A)
    → m s ≡ (ok xs, t)
    → ((f : A → Bool) → any f xs ≡ any (λ q. test q && f q) (view s)) × (view t ≡ view s)

module _ {S A : Type 0} (view : S → List A) where
  list_if-Lists :
      (b : Bool) (m : Action S (List A)) (test : A → Bool)
      → Lists view m test
      → Lists view (list_if b m) (λ q. b && test q)
  list_if-Lists true m test h s t xs e = h s t xs e
  list_if-Lists false m test h s t xs e = (
    λ f.
        ap (any f) (sym (value_of_eq e))
        ∙ sym (none_of (λ q. (false && test q) && f q) (view s) (λ q i. refl)),
    ap view (sym (state_of_eq e)),
  )

  append_lists-Lists :
      (m n : Action S (List A)) (p q : A → Bool)
      → Lists view m p
      → Lists view n q
      → Lists view (append_lists m n) (λ x. p x || q x)
  append_lists-Lists m n p q hm hn s t xs e =
      let (ys, u, em, e₁) = after_ok-eq-ok (m s) _ e in
      let (zs, v, en, e₂) = after_ok-eq-ok (n u) _ e₁ in
      let (from_m, same_m) = hm s u ys em in
      let (from_n, same_n) = hn u v zs en in
      (
        λ f.
            ap (any f) (sym (value_of_eq e₂))
            ∙ any-append f ys zs
            ∙ ground (
              arith,
              from_m f,
              from_n f ∙ ap (any (λ x. q x && f x)) same_m,
              any-or (λ x. p x && f x) (λ x. q x && f x) (view s),
              any-ext (λ x. (p x || q x) && f x) (λ x. (p x && f x) || (q x && f x)) (view s)
                  (λ x. ground arith),
            ),
        ap view (sym (state_of_eq e₂)) ∙ same_n ∙ same_m,
      )

-- What the program relies on of the machine, seen through the lists of its routes and of its rules:
-- the kernel's calls do to them what netlink documents (`of_family` and `rule_of_family` say which
-- entries it lists for a family, 4 or 6), and the other calls leave them alone.
pub record IsMachine (w : World) (routes : w.kernel.State → List Route)
    (rules : w.kernel.State → List Rule) (of_family : ℤ → Route → Bool)
    (rule_of_family : ℤ → Rule → Bool) : Type 0 where
  pub table : IsTable w.text w.kernel routes
  pub rule_table : IsRuleTable w.text w.kernel rules
  pub lists_routes :
      (n family protocol : ℤ)
      → Lists routes
          (w.kernel.list_routes n family protocol)
          (λ q. in_table n q && eqb_ℤ q.protocol protocol && of_family family q)
  pub lists_rules : (family : ℤ) → Lists rules (w.kernel.list_rules family) (rule_of_family family)
  pub add_rule_apart : (r : Rule) (v : List Route) → Keeps (λ t. routes t ≡ v) (w.kernel.add_rule r)
  pub delete_rule_apart :
      (r : Rule) (v : List Route) → Keeps (λ t. routes t ≡ v) (w.kernel.delete_rule r)
  pub add_route_apart :
      (r : Route) (v : List Rule) → Keeps (λ t. rules t ≡ v) (w.kernel.add_route r)
  pub delete_route_apart :
      (r : Route) (v : List Rule) → Keeps (λ t. rules t ≡ v) (w.kernel.delete_route r)
  pub reads_routes : (v : List Route) → ReadsKeep w (λ t. routes t ≡ v)
  pub reads_rules : (v : List Rule) → ReadsKeep w (λ t. rules t ≡ v)

module _ (of_family : ℤ → Route → Bool) (rule_of_family : ℤ → Rule → Bool) where
  -- The routes that the program takes for its own.
  abbrev pub owned_route : ℤ → ℤ → String → Route → Bool
  owned_route n protocol family q =
      (lists_v4 family && (in_table n q && eqb_ℤ q.protocol protocol && of_family (pos 4) q))
      || (lists_v6 family && (in_table n q && eqb_ℤ q.protocol protocol && of_family (pos 6) q))

  -- The rules that the program takes for its own.
  abbrev pub owned_rule : ℤ → ℤ → ℤ → ℤ → String → Rule → Bool
  owned_rule n priority base step family q =
      let own = Rules.owns n priority base (add_int base (mul_int step (pos 1000))) q in
      (lists_v4 family && (rule_of_family (pos 4) q && own))
      || (lists_v6 family && (rule_of_family (pos 6) q && own))

  -- The routes that the program takes for its own for a group.
  abbrev pub own_route : Config → RouteGroup → Route → Bool
  own_route cfg g = owned_route g.target.table cfg.global.route_protocol g.target.family

  -- The rules that it takes for its own for a group.
  abbrev pub own_rule : Config → RouteGroup → Rule → Bool
  own_rule cfg g =
      owned_rule g.target.table g.rule.priority cfg.global.rule_priority_base
        cfg.global.rule_priority_step g.target.family

  module _ (w : World) (routes : w.kernel.State → List Route) (rules : w.kernel.State → List Rule)
      (is : IsMachine w routes rules of_family rule_of_family) where
    pub owned_routes-Lists :
        (n protocol : ℤ) (family : String)
        → Lists routes
            (Routes.current_owned w.kernel n protocol family)
            (owned_route n protocol family)
    unfolding Routes.current_owned
    owned_routes-Lists n protocol family =
        append_lists-Lists routes _ _ _ _
          (list_if-Lists routes (lists_v4 family) _ _ (is.lists_routes n (pos 4) protocol))
          (list_if-Lists routes (lists_v6 family) _ _ (is.lists_routes n (pos 6) protocol))

    kept_rules-Lists :
        (own : Rule → Bool) (family : ℤ)
        → Lists rules
            (Rules.owned_rules w.kernel own family)
            (λ q. rule_of_family family q && own q)
    unfolding Rules.owned_rules
    kept_rules-Lists own family s t xs e =
        let (ys, u, em, e₁) = after_ok-eq-ok (w.kernel.list_rules family s) _ e in
        let (from, same) = is.lists_rules family s u ys em in
        (
          λ f.
              ap (any f) (sym (value_of_eq e₁))
              ∙ any-keep f own ys
              ∙ from (λ q. own q && f q)
              ∙ any-ext (λ q. rule_of_family family q && (own q && f q))
                  (λ q. (rule_of_family family q && own q) && f q) (rules s) (λ q. ground arith),
          ap rules (sym (state_of_eq e₁)) ∙ same,
        )

    pub owned_rules-Lists :
        (n priority base step : ℤ) (family : String)
        → Lists rules
            (Rules.current_owned w.kernel n priority base step family)
            (owned_rule n priority base step family)
    unfolding Rules.current_owned
    owned_rules-Lists n priority base step family =
        let own = Rules.owns n priority base (add_int base (mul_int step (pos 1000))) in
        append_lists-Lists rules _ _ _ _
          (list_if-Lists rules (lists_v4 family) _ _ (kept_rules-Lists own (pos 4)))
          (list_if-Lists rules (lists_v6 family) _ _ (kept_rules-Lists own (pos 6)))
