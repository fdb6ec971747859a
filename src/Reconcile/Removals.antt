-- ===== src/Reconcile/Removals.antt =====
-- Apply of internal/reconcile/routes/routes.go and of internal/reconcile/rules/rules.go on plans that
-- only remove, such as those of BuildCleanupPlan.
use route_sync.Base.{
  ◌≡◌, refl, sym, ◌∙◌, ap, Bool, true, false, not, ◌&&◌, List, [], ◌∷◌, ◌++◌, map, any, any-append,
  any-keep, any-ext, keep, All, arith, str_eq,
}
use route_sync.Base.Result.{ok, for_each, after_ok-eq-ok, state_of_eq}
use route_sync.Netip.Text.{NetipText}
use route_sync.Rtnl.{Route, Rule, Kernel}
use route_sync.Planner.{GroupPlan, rule_key}
use route_sync.Reconcile.Routes
use route_sync.Reconcile.Routes.{
  conflicting_route_removals, late_route_removals, route_identity_set,
}
use route_sync.Reconcile.Routes.Commands.{
  Command, delete, all_replace, all_remove, commands, apply-perform_all,
}
use route_sync.Reconcile.Routes.Table.{
  IsTable, run_commands, perform_all-run_commands, any-run_deletes, same_key,
}
use route_sync.Reconcile.Routes.Table.Exact.{IsFree, commands-IsFree}
use route_sync.Reconcile.Rules
use route_sync.Reconcile.Rules.{change_rules}
use route_sync.Reconcile.Rules.Table.{IsRuleTable, drop}

-- The plan adds nothing.
abbrev pub OnlyRemoves : GroupPlan → Type 0
OnlyRemoves gp = (gp.routes_to_add ≡ []) × (gp.rules_to_add ≡ [])

-- The routes that plans remove, one plan after the other.
abbrev pub removed_routes : List GroupPlan → List Route
removed_routes [] = []
removed_routes (gp ∷ gps) = gp.routes_to_remove ++ removed_routes gps

-- The rules that plans remove.
abbrev pub removed_rules : List GroupPlan → List Rule
removed_rules [] = []
removed_rules (gp ∷ gps) = gp.rules_to_remove ++ removed_rules gps

keep_all : {A : Type 0} (q : A → Bool) → ((x : A) → q x ≡ true) → (xs : List A) → keep q xs ≡ xs
keep_all q h [] = refl
keep_all q h (x ∷ xs) = ground (arith, h x, keep_all q h xs)

keep_none : {A : Type 0} (q : A → Bool) → ((x : A) → q x ≡ false) → (xs : List A) → keep q xs ≡ []
keep_none q h [] = refl
keep_none q h (x ∷ xs) = ground (arith, h x, keep_none q h xs)

module _ (text : NetipText) where
  no_conflicts : (gp : GroupPlan) → gp.routes_to_add ≡ [] → conflicting_route_removals text gp ≡ []
  unfolding conflicting_route_removals route_identity_set
  no_conflicts gp h =
      ap
        (λ news.
          keep (λ r. Routes.in_set (route_identity_set text news) (Routes.route_identity text r))
            gp.routes_to_remove)
        h
      ∙ keep_none (λ r. false) (λ r. refl) gp.routes_to_remove

  all_late :
      (gp : GroupPlan) → gp.routes_to_add ≡ [] → late_route_removals text gp ≡ gp.routes_to_remove
  unfolding late_route_removals route_identity_set
  all_late gp h =
      ap
        (λ rs.
          keep
            (λ r. not (Routes.in_set (route_identity_set text rs) (Routes.route_identity text r)))
            gp.routes_to_remove)
        (no_conflicts gp h)
      ∙ keep_all (λ r. true) (λ r. refl) gp.routes_to_remove

  all_replace-nil : (gps : List GroupPlan) → All OnlyRemoves gps → all_replace text gps ≡ []
  all_replace-nil [] h = refl
  all_replace-nil (gp ∷ gps) (h, hs) =
      ap (λ rs. (map delete rs ++ map Command.add gp.routes_to_add) ++ all_replace text gps)
        (no_conflicts gp h.0)
      ∙ ap (λ rs. map Command.add rs ++ all_replace text gps) h.0
      ∙ all_replace-nil gps hs

  map-append : (rs qs : List Route) → map delete (rs ++ qs) ≡ map delete rs ++ map delete qs
  map-append [] qs = refl
  map-append (r ∷ rs) qs = ap (λ cs. delete r ∷ cs) (map-append rs qs)

  all_remove-deletes :
      (gps : List GroupPlan)
      → All OnlyRemoves gps
      → all_remove text gps ≡ map delete (removed_routes gps)
  all_remove-deletes [] h = refl
  all_remove-deletes (gp ∷ gps) (h, hs) =
      ap (λ rs. map delete rs ++ all_remove text gps) (all_late gp h.0)
      ∙ ap (λ cs. map delete gp.routes_to_remove ++ cs) (all_remove-deletes gps hs)
      ∙ sym (map-append gp.routes_to_remove (removed_routes gps))

  each-IsFree :
      (f : Route → Bool) (gps : List GroupPlan)
      → All OnlyRemoves gps
      → any f (removed_routes gps) ≡ false
      → All (IsFree f) gps
  each-IsFree f [] h taken = tt
  each-IsFree f (gp ∷ gps) (h, hs) taken =
      let parts = any-append f gp.routes_to_remove (removed_routes gps) in
      (
        (ap (any f) h.0, ground (arith, taken, parts)),
        each-IsFree f gps hs (ground (arith, taken, parts)),
      )

  -- A test on routes after Apply: some route passes it whose key no removed one has.
  pub any-apply_removals :
      (k : Kernel) (view : k.State → List Route) (table : IsTable text k view)
      (gps : List GroupPlan)
      → All OnlyRemoves gps
      → any (λ r. not (table.exact r)) (removed_routes gps) ≡ false
      → (s t : k.State) → Routes.apply k text gps s ≡ (ok tt, t)
      → (f : Route → Bool)
      → any f (view t)
        ≡ any (λ q. not (any (λ r. same_key text r q) (removed_routes gps)) && f q) (view s)
  any-apply_removals k view table gps h taken s t e f =
      let inexact : Route → Bool = λ r. not (table.exact r) in
      let run =
        perform_all-run_commands text k view table (commands text gps) s t
          (commands-IsFree inexact text gps (each-IsFree inexact gps h taken))
          (sym (apply-perform_all k text gps s) ∙ e) in
      ap (any f) (
        run
        ∙ ap (λ cs. run_commands text (cs ++ all_remove text gps) (view s)) (all_replace-nil gps h)
        ∙ ap (λ cs. run_commands text cs (view s)) (all_remove-deletes gps h))
      ∙ any-run_deletes text f (removed_routes gps) (view s)

  abbrev pub same_rule : Rule → Rule → Bool
  same_rule r q = str_eq (rule_key text q) (rule_key text r)

  module _ (k : Kernel) (view : k.State → List Rule) (table : IsRuleTable text k view) where
    any-delete_rules :
        (ds : List Rule) (s t : k.State)
        → any (λ r. not (table.exact r)) ds ≡ false
        → for_each k.delete_rule ds s ≡ (ok tt, t)
        → (f : Rule → Bool)
        → any f (view t) ≡ any (λ q. not (any (λ r. same_rule r q) ds) && f q) (view s)
    unfolding drop
    any-delete_rules [] s t taken e f = ap (λ u. any f (view u)) (sym (state_of_eq e))
    any-delete_rules (d ∷ ds) s t taken e f =
        let (_, u, e₁, e₂) = after_ok-eq-ok (k.delete_rule d s) _ e in
        let later : Rule → Bool = λ q. not (any (λ r. same_rule r q) ds) && f q in
        any-delete_rules ds u t (ground (arith, taken)) e₂ f
        ∙ ap (any later) (table.deleted d s u (ground (arith, taken)) e₁)
        ∙ any-keep later (λ q. not (same_rule d q)) (view s)
        ∙ any-ext _ (λ q. not (any (λ r. same_rule r q) (d ∷ ds)) && f q) (view s)
            (λ q. ground arith)

    -- The same of rules.
    pub any-apply_rule_removals :
        (gps : List GroupPlan)
        → All OnlyRemoves gps
        → any (λ r. not (table.exact r)) (removed_rules gps) ≡ false
        → (s t : k.State) → Rules.apply k gps s ≡ (ok tt, t)
        → (f : Rule → Bool)
        → any f (view t)
          ≡ any (λ q. not (any (λ r. same_rule r q) (removed_rules gps)) && f q) (view s)
    unfolding Rules.apply change_rules
    any-apply_rule_removals [] h taken s t e f = ap (λ u. any f (view u)) (sym (state_of_eq e))
    any-apply_rule_removals (gp ∷ gps) (h, hs) taken s t e f =
        let inexact : Rule → Bool = λ r. not (table.exact r) in
        let parts = any-append inexact gp.rules_to_remove (removed_rules gps) in
        let (_, u, e₁, e₂) = after_ok-eq-ok (change_rules k gp s) _ e in
        let (_, v, e₃, e₄) = after_ok-eq-ok (for_each k.add_rule gp.rules_to_add s) _ e₁ in
        let still : s ≡ v = state_of_eq (sym (ap (λ rs. for_each k.add_rule rs s) h.1) ∙ e₃) in
        let later : Rule → Bool = λ q. not (any (λ r. same_rule r q) (removed_rules gps)) && f q in
        any-apply_rule_removals gps hs (ground (arith, taken, parts)) u t e₂ f
        ∙ any-delete_rules gp.rules_to_remove v u (ground (arith, taken, parts)) e₄ later
        ∙ ap (λ x. any (λ q. not (any (λ r. same_rule r q) gp.rules_to_remove) && later q) (view x))
            (sym still)
        ∙ any-ext _
            (λ q. not (any (λ r. same_rule r q) (gp.rules_to_remove ++ removed_rules gps)) && f q)
            (view s)
            (λ q.
              ground
                (arith, any-append (λ r. same_rule r q) gp.rules_to_remove (removed_rules gps)))
