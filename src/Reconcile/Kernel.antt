-- ===== src/Reconcile/Kernel.antt =====
-- NetlinkKernel of internal/rtnl/netlink_linux.go as the tables of routes and rules that Apply of
-- internal/reconcile/routes/routes.go and internal/reconcile/rules/rules.go change.
use route_sync.Base.{
  ◌≡◌, refl, sym, ◌∙◌, ap, String, Bool, true, false, not, ◌||◌, List, [], ◌∷◌, any, keep, arith,
  str_eq, Bool-cases, if◌then◌else◌, ◌⊎◌, inl, inr,
}
use route_sync.Base.Result.{Result, ok, err, after_ok, err≢ok, state_of_eq}
use route_sync.Netip.Text.{NetipText}
use route_sync.Rtnl.{Route, Rule}
use route_sync.Rtnl.Netlink.{
  Netlink, NlRoute, NlRule, eexist, esrch, enoent, to_nl_route, to_nl_rule, listed_routes,
  listed_rules, ignore_exists, ignore_not_found, netlink_kernel,
}
use route_sync.Rtnl.Netlink.RoundTrip.{
  IsPlanned, IsPlannedRule, anonymous, anonymous_rule, listed_routes-anonymous,
  listed_rules-anonymous_rule,
}
use route_sync.Rtnl.Netlink.Listed.{listed_routes-keep, listed_rules-keep}
use route_sync.Planner.{rule_key}
use route_sync.Reconcile.Routes.Table.{same_slot, same_key, put, drop, IsTable}
use route_sync.Reconcile.Rules.Table
use route_sync.Reconcile.Rules.Table.{IsRuleTable}

keep_absent :
    {A : Type 0} (f : A → Bool) (xs : List A) → any f xs ≡ false → keep (λ x. not (f x)) xs ≡ xs
keep_absent f [] h = refl
keep_absent f (x ∷ xs) h = ground (arith, h, keep_absent f xs)

-- A view of the library's state, as one of the kernel's
unfoldable pub seen : {A : Type 0} (n : Netlink) → (n.State → A) → (netlink_kernel n).State → A
unfolding netlink_kernel
seen n view s = view s

module _ (text : NetipText) (n : Netlink) where
  -- What netlink documents of adding and deleting routes, for those that pass `exact`: an addition
  -- ends well and there is one entry more, or with EEXIST where the table, metric and destination
  -- are taken; a deletion ends well and the entry is gone, or with ESRCH where there was none.
  pub record RoutesLaw (view : n.State → List NlRoute) (exact : Route → Bool) : Type 0 where
    pub planned : (r : Route) → exact r ≡ true → IsPlanned r
    pub added :
        (r : Route) (s t : n.State)
        → exact r ≡ true
        → n.route_add (to_nl_route r) s ≡ (ok tt, t)
        → (view t ≡ to_nl_route r ∷ view s)
          × (any (λ q. same_slot text q r) (listed_routes (view s)) ≡ false)
    pub taken :
        (r : Route) (s t : n.State) (e : String)
        → exact r ≡ true
        → n.route_add (to_nl_route r) s ≡ (err e, t)
        → n.is_error eexist e ≡ true
        → (view t ≡ view s) × (any (λ q. same_slot text q r) (listed_routes (view s)) ≡ true)
    pub deleted :
        (r : Route) (s t : n.State)
        → exact r ≡ true
        → n.route_del (to_nl_route r) s ≡ (ok tt, t)
        → view t ≡ keep (λ q. not (any (same_key text r) (listed_routes (q ∷ [])))) (view s)
    pub missing :
        (r : Route) (s t : n.State) (e : String)
        → exact r ≡ true
        → n.route_del (to_nl_route r) s ≡ (err e, t)
        → (n.is_error esrch e || n.is_error enoent e) ≡ true
        → (view t ≡ view s) × (any (same_key text r) (listed_routes (view s)) ≡ false)

  -- A call that ends well once its tolerated errors count as none
  tolerated :
      (test : String → Bool) (m : Result (Unit {0}) × n.State) (t : n.State)
      → ◌≡◌ {A = Result (Unit {0}) × n.State}
          (after_ok m (λ _ u. (ok tt, u)) (λ e u. (if test e then ok tt else err e, u)))
          (ok tt, t)
      → (m ≡ (ok tt, t)) ⊎ ((e : String) × (m ≡ (err e, t)) × (test e ≡ true))
  tolerated test (ok done, u) t h = inl h
  tolerated test (err e, u) t h = elim (Bool-cases (test e)) [
    | inl y ↦ inr (e, ap (λ v. (err e, v)) (state_of_eq h), y)
    | inr y ↦
        let outcome : Bool → Result (Unit {0}) = λ b. if b then ok tt else err e in
        absurd (err≢ok e tt (ap outcome (sym y) ∙ ap (λ p. p.0) h))
  ]

  -- NetlinkKernel, over a netlink library that does as RoutesLaw says, is a table of routes: what its
  -- entries are listed as changes with AddRoute and DeleteRoute as IsTable says, also where they ignore
  -- EEXIST, ESRCH and ENOENT.
  pub netlink_kernel-IsTable :
      (view : n.State → List NlRoute) (exact : Route → Bool)
      → RoutesLaw view exact
      → IsTable text (netlink_kernel n) (seen n (λ s. listed_routes (view s)))
  unfolding seen netlink_kernel ignore_exists ignore_not_found put drop
  netlink_kernel-IsTable view exact law = record {
    exact = exact;
    added = λ r s t x e.
        let listed = listed_routes (view s) in
        let outcome : Bool → List Route = λ b. if b then listed else anonymous r ∷ listed in
        elim (tolerated (n.is_error eexist) (n.route_add (to_nl_route r) s) t e) [
          | inl m ↦
              let (more, free) = law.added r s t x m in
              ap listed_routes more
              ∙ listed_routes-anonymous r (view s) (law.planned r x)
              ∙ ap outcome (sym free)
          | inr (why, m, y) ↦
              let (same, occupied) = law.taken r s t why x m y in
              ap listed_routes same ∙ ap outcome (sym occupied)
        ];
    deleted = λ r s t x e.
        elim (tolerated (λ y. n.is_error esrch y || n.is_error enoent y)
          (n.route_del (to_nl_route r) s) t e) [
            | inl m ↦
                ap listed_routes (law.deleted r s t x m)
                ∙ listed_routes-keep (same_key text r) (view s)
            | inr (why, m, y) ↦
                let (same, absent) = law.missing r s t why x m y in
                ap listed_routes same
                ∙ sym (keep_absent (same_key text r) (listed_routes (view s)) absent)
          ];
  }

  abbrev pub same_rule : Rule → Rule → Bool
  same_rule r q = str_eq (rule_key text q) (rule_key text r)

  -- What netlink documents of adding and deleting rules, for those that pass `exact`.
  pub record RulesLaw (view : n.State → List NlRule) (exact : Rule → Bool) : Type 0 where
    pub planned : (r : Rule) → exact r ≡ true → IsPlannedRule r
    pub added :
        (r : Rule) (s t : n.State)
        → exact r ≡ true
        → n.rule_add (to_nl_rule r) s ≡ (ok tt, t)
        → (view t ≡ to_nl_rule r ∷ view s) × (any (same_rule r) (listed_rules (view s)) ≡ false)
    pub taken :
        (r : Rule) (s t : n.State) (e : String)
        → exact r ≡ true
        → n.rule_add (to_nl_rule r) s ≡ (err e, t)
        → n.is_error eexist e ≡ true
        → (view t ≡ view s) × (any (same_rule r) (listed_rules (view s)) ≡ true)
    pub deleted :
        (r : Rule) (s t : n.State)
        → exact r ≡ true
        → n.rule_del (to_nl_rule r) s ≡ (ok tt, t)
        → view t ≡ keep (λ q. not (any (same_rule r) (listed_rules (q ∷ [])))) (view s)
    pub missing :
        (r : Rule) (s t : n.State) (e : String)
        → exact r ≡ true
        → n.rule_del (to_nl_rule r) s ≡ (err e, t)
        → (n.is_error esrch e || n.is_error enoent e) ≡ true
        → (view t ≡ view s) × (any (same_rule r) (listed_rules (view s)) ≡ false)

  -- NetlinkKernel, over a netlink library that does as RulesLaw says, is a table of rules: what its
  -- entries are listed as changes with AddRule and DeleteRule as IsRuleTable says, also where they
  -- ignore EEXIST, ESRCH and ENOENT.
  pub netlink_kernel-IsRuleTable :
      (view : n.State → List NlRule) (exact : Rule → Bool)
      → RulesLaw view exact
      → IsRuleTable text (netlink_kernel n) (seen n (λ s. listed_rules (view s)))
  unfolding seen netlink_kernel ignore_exists ignore_not_found Table.put Table.drop
  netlink_kernel-IsRuleTable view exact law = record {
    exact = exact;
    added = λ r s t x e.
        let listed = listed_rules (view s) in
        let outcome : Bool → List Rule = λ b. if b then listed else anonymous_rule r ∷ listed in
        elim (tolerated (n.is_error eexist) (n.rule_add (to_nl_rule r) s) t e) [
          | inl m ↦
              let (more, free) = law.added r s t x m in
              ap listed_rules more
              ∙ listed_rules-anonymous_rule r (view s) (law.planned r x)
              ∙ ap outcome (sym free)
          | inr (why, m, y) ↦
              let (same, occupied) = law.taken r s t why x m y in
              ap listed_rules same ∙ ap outcome (sym occupied)
        ];
    deleted = λ r s t x e.
        elim (tolerated (λ y. n.is_error esrch y || n.is_error enoent y)
          (n.rule_del (to_nl_rule r) s) t e) [
            | inl m ↦
                ap listed_rules (law.deleted r s t x m) ∙ listed_rules-keep (same_rule r) (view s)
            | inr (why, m, y) ↦
                let (same, absent) = law.missing r s t why x m y in
                ap listed_rules same
                ∙ sym (keep_absent (same_rule r) (listed_rules (view s)) absent)
          ];
  }
