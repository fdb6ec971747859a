-- ===== src/Reconcile/Rules.antt =====
-- internal/reconcile/rules/rules.go. The log lines are not modelled.
pub mod Owned
pub mod Table
use route_sync.Base.{String, Bool, ◌&&◌, List, keep}
use route_sync.Base.Int.{ℤ, pos, leb_ℤ, ltb_ℤ, eqb_ℤ, add_int, mul_int}
use route_sync.Base.Result.{ok, err, Action, after_ok, for_each}
use route_sync.Rtnl.{Rule, Kernel}
use route_sync.Planner.{GroupPlan}
use route_sync.Reconcile.Routes.{lists_v4, lists_v6, list_if, append_lists}

-- The test of addFamily on a rule, with low and high.
unfoldable pub owns : ℤ → ℤ → ℤ → ℤ → Rule → Bool
owns table priority low high r =
    eqb_ℤ r.table table
    && eqb_ℤ r.priority priority
    && leb_ℤ low r.priority
    && ltb_ℤ r.priority high

module _ (k : Kernel) where
  -- addFamily
  unfoldable pub owned_rules : (Rule → Bool) → ℤ → Action k.State (List Rule)
  owned_rules test family s =
      after_ok (k.list_rules family s) (λ rs t. (ok (keep test rs), t)) (λ e t. (err e, t))

  -- CurrentOwned
  unfoldable pub current_owned : ℤ → ℤ → ℤ → ℤ → String → Action k.State (List Rule)
  unfolding owned_rules
  current_owned table priority base step family =
      let test = owns table priority base (add_int base (mul_int step (pos 1000))) in
      append_lists (list_if (lists_v4 family) (owned_rules test (pos 4)))
        (list_if (lists_v6 family) (owned_rules test (pos 6)))

  -- The body of the loop of Apply.
  unfoldable pub change_rules : GroupPlan → Action k.State (Unit {0})
  change_rules gp s =
      after_ok (for_each k.add_rule gp.rules_to_add s)
        (λ _ t. for_each k.delete_rule gp.rules_to_remove t) (λ e t. (err e, t))

  -- Apply
  unfoldable pub apply : List GroupPlan → Action k.State (Unit {0})
  unfolding change_rules
  apply = for_each change_rules
