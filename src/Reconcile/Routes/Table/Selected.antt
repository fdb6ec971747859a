-- ===== src/Reconcile/Routes/Table/Selected.antt =====
-- The calls of Apply of internal/reconcile/routes/routes.go that are on one routing table.
use route_sync.Base.{
  ◌≡◌, refl, ◌∙◌, ap₂, Bool, false, not, List, [], ◌∷◌, ◌++◌, map, any, any_of_parts, keep,
  keep-append, All, arith,
}
use route_sync.Base.Int.{ℤ}
use route_sync.Netip.Text.{NetipText}
use route_sync.Rtnl.{Route}
use route_sync.Planner.{GroupPlan}
use route_sync.Reconcile.Routes.{conflicting_route_removals, late_route_removals}
use route_sync.Reconcile.Routes.Commands.{
  add, delete, commands, all_replace, all_remove, replace_commands, remove_commands, late_or_not,
}
use route_sync.Reconcile.Routes.Table.Restricted.{in_table, on_table}

-- The plan leaves the table alone.
abbrev pub IsElsewhere : ℤ → GroupPlan → Type 0
IsElsewhere n gp =
    (any (in_table n) gp.routes_to_add ≡ false) × (any (in_table n) gp.routes_to_remove ≡ false)

-- The plan changes the table alone.
abbrev pub IsWithin : ℤ → GroupPlan → Type 0
IsWithin n gp =
    (any (λ r. not (in_table n r)) gp.routes_to_add ≡ false)
    × (any (λ r. not (in_table n r)) gp.routes_to_remove ≡ false)

module _ (n : ℤ) where
  keep-deletes_none :
      (rs : List Route) → any (in_table n) rs ≡ false → keep (on_table n) (map delete rs) ≡ []
  keep-deletes_none [] h = refl
  keep-deletes_none (r ∷ rs) h = ground (arith, h, keep-deletes_none rs)

  keep-adds_none :
      (rs : List Route) → any (in_table n) rs ≡ false → keep (on_table n) (map add rs) ≡ []
  keep-adds_none [] h = refl
  keep-adds_none (r ∷ rs) h = ground (arith, h, keep-adds_none rs)

  keep-deletes_all :
      (rs : List Route)
      → any (λ r. not (in_table n r)) rs ≡ false
      → keep (on_table n) (map delete rs) ≡ map delete rs
  keep-deletes_all [] h = refl
  keep-deletes_all (r ∷ rs) h = ground (arith, h, keep-deletes_all rs)

  keep-adds_all :
      (rs : List Route)
      → any (λ r. not (in_table n r)) rs ≡ false
      → keep (on_table n) (map add rs) ≡ map add rs
  keep-adds_all [] h = refl
  keep-adds_all (r ∷ rs) h = ground (arith, h, keep-adds_all rs)

  module _ (text : NetipText) where
    parts_free :
        (f : Route → Bool) (gp : GroupPlan)
        → any f gp.routes_to_remove ≡ false
        → (any f (conflicting_route_removals text gp) ≡ false)
          × (any f (late_route_removals text gp) ≡ false)
    parts_free f gp h =
        let parts =
          any_of_parts f (conflicting_route_removals text gp) (late_route_removals text gp)
            gp.routes_to_remove (late_or_not text gp f) in
        (ground (arith, h, parts), ground (arith, h, parts))

    keep-replace_none :
        (gp : GroupPlan) → IsElsewhere n gp → keep (on_table n) (replace_commands text gp) ≡ []
    keep-replace_none gp (a, r) =
        keep-append (on_table n) (map delete (conflicting_route_removals text gp))
          (map add gp.routes_to_add)
        ∙ ap₂ ◌++◌ (keep-deletes_none _ (parts_free (in_table n) gp r).0)
            (keep-adds_none gp.routes_to_add a)

    keep-replace_all :
        (gp : GroupPlan)
        → IsWithin n gp
        → keep (on_table n) (replace_commands text gp) ≡ replace_commands text gp
    keep-replace_all gp (a, r) =
        keep-append (on_table n) (map delete (conflicting_route_removals text gp))
          (map add gp.routes_to_add)
        ∙ ap₂ ◌++◌ (keep-deletes_all _ (parts_free (λ r. not (in_table n r)) gp r).0)
            (keep-adds_all gp.routes_to_add a)

    keep-all_replace_none :
        (gps : List GroupPlan)
        → All (IsElsewhere n) gps
        → keep (on_table n) (all_replace text gps) ≡ []
    keep-all_replace_none [] h = refl
    keep-all_replace_none (gp ∷ gps) (e, h) =
        keep-append (on_table n) (replace_commands text gp) (all_replace text gps)
        ∙ ap₂ ◌++◌ (keep-replace_none gp e) (keep-all_replace_none gps h)

    keep-all_remove_none :
        (gps : List GroupPlan)
        → All (IsElsewhere n) gps
        → keep (on_table n) (all_remove text gps) ≡ []
    keep-all_remove_none [] h = refl
    keep-all_remove_none (gp ∷ gps) (e, h) =
        keep-append (on_table n) (remove_commands text gp) (all_remove text gps)
        ∙ ap₂ ◌++◌ (keep-deletes_none _ (parts_free (in_table n) gp e.1).1)
            (keep-all_remove_none gps h)

    keep-all_replace :
        (pre post : List GroupPlan) (gp : GroupPlan)
        → All (IsElsewhere n) pre
        → IsWithin n gp
        → All (IsElsewhere n) post
        → keep (on_table n) (all_replace text (pre ++ (gp ∷ post))) ≡ all_replace text (gp ∷ [])
    keep-all_replace [] post gp h w k =
        keep-append (on_table n) (replace_commands text gp) (all_replace text post)
        ∙ ap₂ ◌++◌ (keep-replace_all gp w) (keep-all_replace_none post k)
    keep-all_replace (other ∷ pre) post gp (e, h) w k =
        keep-append (on_table n) (replace_commands text other)
          (all_replace text (pre ++ (gp ∷ post)))
        ∙ ap₂ ◌++◌ (keep-replace_none other e) (keep-all_replace pre post gp h w k)

    keep-all_remove :
        (pre post : List GroupPlan) (gp : GroupPlan)
        → All (IsElsewhere n) pre
        → IsWithin n gp
        → All (IsElsewhere n) post
        → keep (on_table n) (all_remove text (pre ++ (gp ∷ post))) ≡ all_remove text (gp ∷ [])
    keep-all_remove [] post gp h w k =
        keep-append (on_table n) (remove_commands text gp) (all_remove text post)
        ∙ ap₂ ◌++◌ (keep-deletes_all _ (parts_free (λ r. not (in_table n r)) gp w.1).1)
            (keep-all_remove_none post k)
    keep-all_remove (other ∷ pre) post gp (e, h) w k =
        keep-append (on_table n) (remove_commands text other) (all_remove text (pre ++ (gp ∷ post)))
        ∙ ap₂ ◌++◌ (keep-deletes_none _ (parts_free (in_table n) other e.1).1)
            (keep-all_remove pre post gp h w k)

    -- Of the calls for several plans, those on the table of one plan are the calls for it alone.
    pub keep-commands :
        (pre post : List GroupPlan) (gp : GroupPlan)
        → All (IsElsewhere n) pre
        → IsWithin n gp
        → All (IsElsewhere n) post
        → keep (on_table n) (commands text (pre ++ (gp ∷ post))) ≡ commands text (gp ∷ [])
    keep-commands pre post gp h w k =
        keep-append (on_table n) (all_replace text (pre ++ (gp ∷ post)))
          (all_remove text (pre ++ (gp ∷ post)))
        ∙ ap₂ ◌++◌ (keep-all_replace pre post gp h w k) (keep-all_remove pre post gp h w k)
