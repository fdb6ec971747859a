-- ===== src/Reconcile/Routes/Table/Exact.antt =====
-- Tests on routes that the calls of Apply of internal/reconcile/routes/routes.go pass on from the
-- plans.
use route_sync.Base.{◌≡◌, refl, Bool, false, List, [], ◌∷◌, any, All, arith, count}
use route_sync.Netip.Text.{NetipText}
use route_sync.Rtnl.{Route}
use route_sync.Planner.{GroupPlan}
use route_sync.Reconcile.Routes.Commands.{
  Command, add, delete, commands, adds, deletes, count_each, count-commands,
}
use route_sync.Reconcile.Routes.Table.{of_command}

-- No route of the plan passes the test.
abbrev pub IsFree : (Route → Bool) → GroupPlan → Type 0
IsFree f gp = (any f gp.routes_to_add ≡ false) × (any f gp.routes_to_remove ≡ false)

module _ (f : Route → Bool) where
  any_of_counts :
      (cs : List Command)
      → count (deletes f) cs ≡ 0
      → count (adds f) cs ≡ 0
      → any (of_command f) cs ≡ false
  any_of_counts [] d a = refl
  any_of_counts (add r ∷ cs) d a = ground (arith, d, a, any_of_counts cs)
  any_of_counts (delete r ∷ cs) d a = ground (arith, d, a, any_of_counts cs)

  count_none : (rs : List Route) → any f rs ≡ false → count f rs ≡ 0
  count_none [] h = refl
  count_none (r ∷ rs) h = ground (arith, h, count_none rs)

  each-IsFree :
      (gps : List GroupPlan)
      → All (IsFree f) gps
      → (count_each (λ gp. gp.routes_to_remove) f gps ≡ 0)
        × (count_each (λ gp. gp.routes_to_add) f gps ≡ 0)
  each-IsFree [] h = (refl, refl)
  each-IsFree (gp ∷ gps) (h, hs) = omega (
    arith,
    count_none gp.routes_to_remove h.1,
    count_none gp.routes_to_add h.0,
    each-IsFree gps hs,
  )

  -- If no route of the plans passes the test, no route of the calls does.
  pub commands-IsFree :
      (text : NetipText) (gps : List GroupPlan)
      → All (IsFree f) gps
      → any (of_command f) (commands text gps) ≡ false
  commands-IsFree text gps h =
      let counts = count-commands text f gps in
      let none = each-IsFree gps h in
      any_of_counts (commands text gps) (omega (arith, counts, none)) (omega (arith, counts, none))
