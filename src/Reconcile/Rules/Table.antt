-- ===== src/Reconcile/Rules/Table.antt =====
-- Build of internal/planner/planner.go followed by Apply of internal/reconcile/rules/rules.go, seen
-- from a kernel that holds a list of rules.
use route_sync.Base.{
  ◌≡◌, refl, sym, ◌∙◌, ap, ap₂, String, Bool, true, false, not, ◌&&◌, ◌||◌, List, [], ◌∷◌, ◌++◌,
  any, any-ext, any-keep, any_of_once, none_of, keep, arith, str_eq, str_eq_iff, if◌then◌else◌,
  Bool-cases, inl, inr,
}
use route_sync.Base.Int.{ℤ}
use route_sync.Base.Maps.{IsOrder}
use route_sync.Base.Result.{ok, for_each, after_ok-eq-ok, state_of_eq}
use route_sync.Netip.Text.{NetipText}
use route_sync.Rtnl.{Rule, Kernel}
use route_sync.Rtnl.Netlink.RoundTrip.{anonymous_rule}
use route_sync.Planner.{InputGroup, Ranges, rule_key, desired_rules, build_group, build}
use route_sync.Planner.Build.{build_group-rules, build_group-sources}
use route_sync.Planner.Diff.{has_key}
use route_sync.Reconcile.Rules.{change_rules, apply}

-- Equal strings compare alike.
swap : (a b x : String) → str_eq a x ≡ true → str_eq a b ≡ str_eq b x
swap a b x h = elim (Bool-cases (str_eq b x)) [
  | inl e ↦ ground (arith, str_eq_iff a x, str_eq_iff b x, str_eq_iff a b)
  | inr e ↦ ground (arith, str_eq_iff a x, str_eq_iff b x, str_eq_iff a b)
]

module _ (text : NetipText) where
  -- Adding fails with EEXIST, which the program ignores, where the rule is there. The kernel does
  -- not hold the group.
  unfoldable pub put : Rule → List Rule → List Rule
  put r rs = if has_key (rule_key text) (rule_key text r) rs then rs else anonymous_rule r ∷ rs

  unfoldable pub drop : Rule → List Rule → List Rule
  drop r rs = keep (λ q. not (str_eq (rule_key text q) (rule_key text r))) rs

  -- What the program relies on of a kernel: seen through `view`, successful calls change the rules
  -- as netlink documents it. `exact` says which rules the kernel takes as they are given: it lists
  -- no source for 0.0.0.0/0, say.
  pub record IsRuleTable (k : Kernel) (view : k.State → List Rule) : Type 0 where
    pub exact : Rule → Bool
    pub added :
        (r : Rule) (s t : k.State)
        → exact r ≡ true
        → k.add_rule r s ≡ (ok tt, t)
        → view t ≡ put r (view s)
    pub deleted :
        (r : Rule) (s t : k.State)
        → exact r ≡ true
        → k.delete_rule r s ≡ (ok tt, t)
        → view t ≡ drop r (view s)

  -- A rule of the group's, wanted or current, passes the test.
  abbrev pub uses : (Rule → Bool) → InputGroup → Bool
  uses f g = any f (desired_rules text g.config) || any f g.current_rules

  held_key : (r : Rule) → rule_key text (anonymous_rule r) ≡ rule_key text r
  unfolding rule_key
  held_key r = refl

  module _ (x : String) where
    abbrev pub present : List Rule → Bool
    present = has_key (rule_key text) x

    -- The group wants a rule with the key, or has a current one.
    abbrev pub mentions : InputGroup → Bool
    mentions g = present g.current_rules || present (desired_rules text g.config)

    present-put :
        (r : Rule) (rs : List Rule) → present (put r rs) ≡ (present rs || present (r ∷ []))
    unfolding put
    present-put r rs = elim (Bool-cases (has_key (rule_key text) (rule_key text r) rs)) [
      | inl e ↦ elim (Bool-cases (str_eq (rule_key text r) x)) [
        | inl h ↦
            let same =
              ap (λ y. has_key (rule_key text) y rs) ((str_eq_iff (rule_key text r) x).0 h) in
            rw e (ground (arith, e, same, h))
        | inr h ↦ rw e (ground (arith, h))
      ]
      | inr e ↦ rw e (ground (arith, ap (λ y. str_eq y x) (held_key r)))
    ]

    present-drop :
        (r : Rule) (rs : List Rule) → present (drop r rs) ≡ (present rs && not (present (r ∷ [])))
    unfolding drop
    present-drop r rs =
        any-keep _ (λ q. not (str_eq (rule_key text q) (rule_key text r))) rs
        ∙ elim (Bool-cases (str_eq (rule_key text r) x)) [
          | inl h ↦
              none_of
                (λ q.
                  not (str_eq (rule_key text q) (rule_key text r)) && str_eq (rule_key text q) x)
                rs (λ q i. ground (arith, h, swap (rule_key text q) (rule_key text r) x))
              ∙ ground (arith, h)
          | inr h ↦
              any-ext
                (λ q.
                  not (str_eq (rule_key text q) (rule_key text r)) && str_eq (rule_key text q) x)
                (λ q. str_eq (rule_key text q) x) rs
                (λ q. ground (arith, h, swap (rule_key text q) (rule_key text r) x))
              ∙ ground (arith, h)
        ]

    module _ (k : Kernel) (view : k.State → List Rule) (table : IsRuleTable k view) where
      -- The kernel changes the rule.
      abbrev pub inexact : Rule → Bool
      inexact r = not (table.exact r)

      present-adds :
          (rs : List Rule) (s t : k.State)
          → any inexact rs ≡ false
          → for_each k.add_rule rs s ≡ (ok tt, t)
          → present (view t) ≡ (present (view s) || present rs)
      present-adds [] s t h e = ap (λ u. present (view u)) (sym (state_of_eq e)) ∙ ground arith
      present-adds (r ∷ rs) s t h e =
          let (_, u, e₁, e₂) = after_ok-eq-ok (k.add_rule r s) _ e in
          present-adds rs u t (ground (arith, h)) e₂
          ∙ ap (λ l. present l || present rs) (table.added r s u (ground (arith, h)) e₁)
          ∙ ap (λ b. b || present rs) (present-put r (view s))
          ∙ ground arith

      present-deletes :
          (rs : List Rule) (s t : k.State)
          → any inexact rs ≡ false
          → for_each k.delete_rule rs s ≡ (ok tt, t)
          → present (view t) ≡ (present (view s) && not (present rs))
      present-deletes [] s t h e = ap (λ u. present (view u)) (sym (state_of_eq e)) ∙ ground arith
      present-deletes (r ∷ rs) s t h e =
          let (_, u, e₁, e₂) = after_ok-eq-ok (k.delete_rule r s) _ e in
          present-deletes rs u t (ground (arith, h)) e₂
          ∙ ap (λ l. present l && not (present rs)) (table.deleted r s u (ground (arith, h)) e₁)
          ∙ ap (λ b. b && not (present rs)) (present-drop r (view s))
          ∙ ground arith

      module _ (ranges : Ranges) (ro : IsOrder ranges.routes) (uo : IsOrder ranges.rules)
          (protocol : ℤ) where
        -- The plan of a group adds what is wanted and not current, and removes what is current and
        -- not wanted.
        present-change_rules :
            (g : InputGroup) (s t : k.State)
            → uses inexact g ≡ false
            → change_rules k (build_group text ranges protocol g) s ≡ (ok tt, t)
            → present (view t) ≡ (
                (present (view s)
                  || (present (desired_rules text g.config) && not (present g.current_rules)))
                && not (present g.current_rules && not (present (desired_rules text g.config))))
        unfolding change_rules
        present-change_rules g s t taken e =
            let plan = build_group text ranges protocol g in
            let (_, u, e₁, e₂) = after_ok-eq-ok (for_each k.add_rule plan.rules_to_add s) _ e in
            let (adds, removes) = build_group-rules text ranges ro uo protocol g x in
            let (_, from_current, _, from_wanted) =
              build_group-sources text ranges ro uo protocol g (λ r. true) inexact in
            present-deletes plan.rules_to_remove u t (ground (arith, taken, from_current)) e₂
            ∙ ap₂ (λ a b. a && not b)
                (present-adds plan.rules_to_add s u (ground (arith, taken, from_wanted)) e₁
                  ∙ ap (λ b. present (view s) || b) (any_of_once _ plan.rules_to_add _ adds))
                (any_of_once _ plan.rules_to_remove _ removes)

        present-idle :
            (gs : List InputGroup) (s t : k.State)
            → any mentions gs ≡ false
            → any (uses inexact) gs ≡ false
            → for_each (change_rules k) (build text ranges protocol gs) s ≡ (ok tt, t)
            → present (view t) ≡ present (view s)
        unfolding build
        present-idle [] s t h taken e = ap (λ u. present (view u)) (sym (state_of_eq e))
        present-idle (g ∷ gs) s t h taken e =
            let (_, u, e₁, e₂) =
              after_ok-eq-ok (change_rules k (build_group text ranges protocol g) s) _ e in
            present-idle gs u t (ground (arith, h)) (ground (arith, taken)) e₂
            ∙ present-change_rules g s u (ground (arith, taken)) e₁
            ∙ ground (arith, h)

        present-for_each :
            (before behind : List InputGroup) (g : InputGroup) (s t : k.State)
            → any mentions (before ++ behind) ≡ false
            → (present g.current_rules && not (present (view s))) ≡ false
            → any (uses inexact) (before ++ (g ∷ behind)) ≡ false
            → for_each (change_rules k) (build text ranges protocol (before ++ (g ∷ behind))) s
              ≡ (ok tt, t)
            → present (view t) ≡ (
                (present (view s) && not (present g.current_rules))
                || present (desired_rules text g.config))
        unfolding build
        present-for_each [] behind g s t h listed taken e =
            let (_, u, e₁, e₂) =
              after_ok-eq-ok (change_rules k (build_group text ranges protocol g) s) _ e in
            present-idle behind u t h (ground (arith, taken)) e₂
            ∙ present-change_rules g s u (ground (arith, taken)) e₁
            ∙ ground (arith, listed)
        present-for_each (o ∷ before) behind g s t h listed taken e =
            let (_, u, e₁, e₂) =
              after_ok-eq-ok (change_rules k (build_group text ranges protocol o) s) _ e in
            let same : present (view u) ≡ present (view s) =
              present-change_rules o s u (ground (arith, taken)) e₁ ∙ ground (arith, h) in
            present-for_each before behind g u t (ground (arith, h)) (ground (arith, same, listed))
              (ground (arith, taken)) e₂
            ∙ ground (arith, same)

-- Build and then Apply of the rules, for any number of groups: if Apply ends without an error, then
-- the key of a rule that no group but g wants or has among its current ones is among the kernel's
-- rules exactly if g wants it, or was among them before and is not one of g's current ones. Go may
-- range over the maps in any order. It is assumed that the kernel keeps one rule of a key, that
-- the key, if it is one of g's current ones, is among the rules before, and that the kernel takes the
-- wanted and the current rules of all groups as they are given.
pub apply_rules-build :
    (text : NetipText) (ranges : Ranges)
    → IsOrder ranges.routes
    → IsOrder ranges.rules
    → (k : Kernel) (view : k.State → List Rule) (table : IsRuleTable text k view)
    → (protocol : ℤ) (before behind : List InputGroup) (g : InputGroup) (s t : k.State) (x : String)
    → any (mentions text x) (before ++ behind) ≡ false
    → (has_key (rule_key text) x g.current_rules && not (has_key (rule_key text) x (view s)))
      ≡ false
    → any (uses text (λ r. not (table.exact r))) (before ++ (g ∷ behind)) ≡ false
    → apply k (build text ranges protocol (before ++ (g ∷ behind))) s ≡ (ok tt, t)
    → has_key (rule_key text) x (view t) ≡ (
        (has_key (rule_key text) x (view s) && not (has_key (rule_key text) x g.current_rules))
        || has_key (rule_key text) x (desired_rules text g.config))
unfolding apply
apply_rules-build text ranges ro uo k view table protocol before behind g s t x others listed taken
      e =
    present-for_each text x k view table ranges ro uo protocol before behind g s t others listed
      taken e
