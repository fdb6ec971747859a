-- ===== src/Planner/Show.antt =====
-- The text that a dry run prints of group plans, in internal/planner/planner.go.
use route_sync.Base.{String, ◌<>◌, List, [], ◌∷◌, length, map, if◌then◌else◌}
use route_sync.Base.Int.{show_ℕ, show_ℤ}
use route_sync.Planner.{GroupPlan}

abbrev concat : List String → String
concat [] = ""
concat (s ∷ ss) = s <> concat ss

-- The two lines of a group.
unfoldable pub show_group : GroupPlan → String
show_group g = concat (
    "group="
    ∷ g.group
    ∷ " source="
    ∷ g.source_type
    ∷ " table="
    ∷ show_ℤ g.target_table
    ∷ " family="
    ∷ g.family
    ∷ " desired_prefixes="
    ∷ show_ℕ g.desired_prefix_count
    ∷ " current_routes="
    ∷ show_ℕ g.current_managed_route_count
    ∷ " current_rules="
    ∷ show_ℕ g.current_managed_rule_count
    ∷ (if g.source_from_fallback then " fallback=true" else "")
    ∷ "\n"
    ∷ "  routes: add="
    ∷ show_ℕ (length g.routes_to_add)
    ∷ " remove="
    ∷ show_ℕ (length g.routes_to_remove)
    ∷ " rules: add="
    ∷ show_ℕ (length g.rules_to_add)
    ∷ " remove="
    ∷ show_ℕ (length g.rules_to_remove)
    ∷ "\n"
    ∷ [])

-- String
unfoldable pub show_plan : List GroupPlan → String
unfolding show_group
show_plan gs = concat (map show_group gs)
