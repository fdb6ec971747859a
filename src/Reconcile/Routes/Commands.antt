-- ===== src/Reconcile/Routes/Commands.antt =====
-- Apply as one sequence of calls of the kernel, cut off at the first error.
use route_sync.Base.{
  ℕ, ◌+◌, ◌≡◌, refl, sym, ◌∙◌, ap, ap₂, fun_ext, String, Bool, true, false, not, List, [], ◌∷◌,
  ◌++◌, arith, map, All, All-map, keep, count, count-append, str_eq, str_eq_iff,
}
use route_sync.Base.Result.{Result, ok, err, Action, after_ok, for_each}
use route_sync.Netip.Text.{NetipText}
use route_sync.Rtnl.{Route, Kernel}
use route_sync.Planner.{GroupPlan}
use route_sync.Reconcile.Routes.{
  route_identity, in_set, conflicting_route_removals, late_route_removals, replace_routes,
  remove_routes, apply,
}

-- A call that changes the kernel's routes.
pub data Command : Type 0 where
  add : Route → Command
  delete : Route → Command

abbrev pub perform : (k : Kernel) → Command → Action k.State (Unit {0})
perform k (add r) = k.add_route r
perform k (delete r) = k.delete_route r

-- The calls one after the other, up to the first that fails.
abbrev pub perform_all : (k : Kernel) → List Command → Action k.State (Unit {0})
perform_all k = for_each (perform k)

module _ (text : NetipText) where
  -- Of a group: the removals that make way, then the additions.
  abbrev pub replace_commands : GroupPlan → List Command
  replace_commands gp = map delete (conflicting_route_removals text gp) ++ map add gp.routes_to_add

  abbrev pub remove_commands : GroupPlan → List Command
  remove_commands gp = map delete (late_route_removals text gp)

  abbrev pub all_replace : List GroupPlan → List Command
  all_replace [] = []
  all_replace (gp ∷ gps) = replace_commands gp ++ all_replace gps

  abbrev pub all_remove : List GroupPlan → List Command
  all_remove [] = []
  all_remove (gp ∷ gps) = remove_commands gp ++ all_remove gps

  -- The replacements of all groups, then the remaining removals of all groups.
  abbrev pub commands : List GroupPlan → List Command
  commands gps = all_replace gps ++ all_remove gps

module _ {S : Type 0} {A : Type 0} where
  -- `next` when the run ended well, and the run's error else.
  abbrev pub then_run : Result (Unit {0}) × S → (S → Result A × S) → Result A × S
  then_run m next = after_ok m (λ _ t. next t) (λ e t. (err e, t))

module _ (k : Kernel) where
  then_run_assoc :
      (m : Result (Unit {0}) × k.State) (f g : Action k.State (Unit {0}))
      → then_run (then_run m f) g ≡ then_run m (λ t. then_run (f t) g)
  then_run_assoc (ok tt, t) f g = refl
  then_run_assoc (err e, t) f g = refl

  perform_all-append :
      (xs ys : List Command) (s : k.State)
      → perform_all k (xs ++ ys) s ≡ then_run (perform_all k xs s) (perform_all k ys)
  perform_all-append [] ys s = refl
  perform_all-append (x ∷ xs) ys s =
      ap (λ f. then_run (perform k x s) f) (fun_ext (perform_all-append xs ys))
      ∙ sym (then_run_assoc (perform k x s) (perform_all k xs) (perform_all k ys))

  perform-deletes :
      (rs : List Route) (s : k.State)
      → for_each k.delete_route rs s ≡ perform_all k (map delete rs) s
  perform-deletes [] s = refl
  perform-deletes (r ∷ rs) s =
      ap (λ f. then_run (k.delete_route r s) f) (fun_ext (perform-deletes rs))

  perform-adds :
      (rs : List Route) (s : k.State) → for_each k.add_route rs s ≡ perform_all k (map add rs) s
  perform-adds [] s = refl
  perform-adds (r ∷ rs) s = ap (λ f. then_run (k.add_route r s) f) (fun_ext (perform-adds rs))

  module _ (text : NetipText) where
    perform-replace :
        (gp : GroupPlan) (s : k.State)
        → replace_routes k text gp s ≡ perform_all k (replace_commands text gp) s
    unfolding replace_routes
    perform-replace gp s =
        ap₂ then_run (perform-deletes (conflicting_route_removals text gp) s)
          (fun_ext (perform-adds gp.routes_to_add))
        ∙ sym (
            perform_all-append (map delete (conflicting_route_removals text gp))
              (map add gp.routes_to_add) s)

    perform-all_replace :
        (gps : List GroupPlan) (s : k.State)
        → for_each (replace_routes k text) gps s ≡ perform_all k (all_replace text gps) s
    perform-all_replace [] s = refl
    perform-all_replace (gp ∷ gps) s =
        ap₂ then_run (perform-replace gp s) (fun_ext (perform-all_replace gps))
        ∙ sym (perform_all-append (replace_commands text gp) (all_replace text gps) s)

    perform-all_remove :
        (gps : List GroupPlan) (s : k.State)
        → for_each (remove_routes k text) gps s ≡ perform_all k (all_remove text gps) s
    unfolding remove_routes
    perform-all_remove [] s = refl
    perform-all_remove (gp ∷ gps) s =
        ap₂ then_run (perform-deletes (late_route_removals text gp) s)
          (fun_ext (perform-all_remove gps))
        ∙ sym (perform_all-append (remove_commands text gp) (all_remove text gps) s)

    -- Over every kernel Apply makes one sequence of calls up to the first error: of each group the
    -- conflicting removals and then the additions, and after all groups the other removals.
    pub apply-perform_all :
        (gps : List GroupPlan) (s : k.State)
        → apply k text gps s ≡ perform_all k (commands text gps) s
    unfolding apply
    apply-perform_all gps s =
        ap₂ then_run (perform-all_replace gps s) (fun_ext (perform-all_remove gps))
        ∙ sym (perform_all-append (all_replace text gps) (all_remove text gps) s)

-- Tests on the calls.
abbrev pub deletes : (Route → Bool) → Command → Bool
deletes f (add r) = false
deletes f (delete r) = f r

abbrev pub adds : (Route → Bool) → Command → Bool
adds f (add r) = f r
adds f (delete r) = false

abbrev pub count_each : (GroupPlan → List Route) → (Route → Bool) → List GroupPlan → ℕ
count_each of f [] = 0
count_each of f (gp ∷ gps) = count f (of gp) + count_each of f gps

count-map_delete :
    (f : Route → Bool) (rs : List Route)
    → (count (deletes f) (map delete rs) ≡ count f rs) × (count (adds f) (map delete rs) ≡ 0)
count-map_delete f [] = (refl, refl)
count-map_delete f (r ∷ rs) = ground (arith, count-map_delete f rs)

count-map_add :
    (f : Route → Bool) (rs : List Route)
    → (count (deletes f) (map add rs) ≡ 0) × (count (adds f) (map add rs) ≡ count f rs)
count-map_add f [] = (refl, refl)
count-map_add f (r ∷ rs) = ground (arith, count-map_add f rs)

-- Splitting a list by a test that agrees with q on its elements.
count-split :
    (f q late : Route → Bool) (rs : List Route)
    → All (λ (r : Route). late r ≡ not (q r)) rs
    → count f (keep q rs) + count f (keep late rs) ≡ count f rs
count-split f q late [] h = omega arith
count-split f q late (r ∷ rs) (e, h) = ground (arith, count-split f q late rs h)

module _ (text : NetipText) (q : String → Bool) where
  abbrev kept_set : List Route → List String
  kept_set rs = map (route_identity text) (keep (λ r. q (route_identity text r)) rs)

  in_kept_set :
      (rs : List Route)
      → All
          (λ (r : Route).
            q (route_identity text r) ≡ true → in_set (kept_set rs) (route_identity text r) ≡ true)
          rs
  in_kept_set [] = tt
  in_kept_set (r ∷ rs) = (
    λ h. ground (arith, str_eq_iff (route_identity text r) (route_identity text r)),
    All-map (λ x e h. ground (arith, e h)) rs (in_kept_set rs),
  )

  in_kept_set-q : (rs : List Route) (s : String) → in_set (kept_set rs) s ≡ true → q s ≡ true
  in_kept_set-q [] s h = cc
  in_kept_set-q (r ∷ rs) s h =
      let same = λ (e : str_eq (route_identity text r) s ≡ true).
        ap q ((str_eq_iff (route_identity text r) s).0 e) in
      ground (arith, in_kept_set-q rs s, same)

module _ (text : NetipText) (gp : GroupPlan) where
  -- A removal is late exactly if it does not make way for an addition.
  pub late_or_not :
      (f : Route → Bool)
      → count f (conflicting_route_removals text gp) + count f (late_route_removals text gp)
        ≡ count f gp.routes_to_remove
  unfolding late_route_removals
  late_or_not f =
      let q = in_set (map (route_identity text) gp.routes_to_add) in
      count-split f _ _ gp.routes_to_remove (
        All-map
          (λ r e.
            ground (arith, e, in_kept_set-q text q gp.routes_to_remove (route_identity text r)))
          gp.routes_to_remove (in_kept_set text q gp.routes_to_remove))

  count-replace_commands :
      (f : Route → Bool)
      → (count (deletes f) (replace_commands text gp)
          ≡ count f (conflicting_route_removals text gp))
        × (count (adds f) (replace_commands text gp) ≡ count f gp.routes_to_add)
  count-replace_commands f = omega (
    arith,
    count-append (deletes f) (map delete (conflicting_route_removals text gp))
        (map add gp.routes_to_add),
    count-append (adds f) (map delete (conflicting_route_removals text gp))
        (map add gp.routes_to_add),
    count-map_delete f (conflicting_route_removals text gp),
    count-map_add f gp.routes_to_add,
  )

module _ (text : NetipText) (f : Route → Bool) where
  count-all_replace :
      (gps : List GroupPlan)
      → (count (deletes f) (all_replace text gps)
          ≡ count_each (conflicting_route_removals text) f gps)
        × (count (adds f) (all_replace text gps) ≡ count_each (λ gp. gp.routes_to_add) f gps)
  count-all_replace [] = (refl, refl)
  count-all_replace (gp ∷ gps) = omega (
    arith,
    count-append (deletes f) (replace_commands text gp) (all_replace text gps),
    count-append (adds f) (replace_commands text gp) (all_replace text gps),
    count-replace_commands text gp f,
    count-all_replace gps,
  )

  count-all_remove :
      (gps : List GroupPlan)
      → (count (deletes f) (all_remove text gps) ≡ count_each (late_route_removals text) f gps)
        × (count (adds f) (all_remove text gps) ≡ 0)
  count-all_remove [] = (refl, refl)
  count-all_remove (gp ∷ gps) = omega (
    arith,
    count-append (deletes f) (remove_commands text gp) (all_remove text gps),
    count-append (adds f) (remove_commands text gp) (all_remove text gps),
    count-map_delete f (late_route_removals text gp),
    count-all_remove gps,
  )

  each_removal :
      (gps : List GroupPlan)
      → count_each (conflicting_route_removals text) f gps
          + count_each (late_route_removals text) f gps
        ≡ count_each (λ gp. gp.routes_to_remove) f gps
  each_removal [] = omega arith
  each_removal (gp ∷ gps) = omega (arith, each_removal gps, late_or_not text gp f)

  -- The calls of Apply delete each route as often as the plans remove it, and add it as often as
  -- they add it.
  pub count-commands :
      (gps : List GroupPlan)
      → (count (deletes f) (commands text gps) ≡ count_each (λ gp. gp.routes_to_remove) f gps)
        × (count (adds f) (commands text gps) ≡ count_each (λ gp. gp.routes_to_add) f gps)
  count-commands gps = omega (
    arith,
    count-append (deletes f) (all_replace text gps) (all_remove text gps),
    count-append (adds f) (all_replace text gps) (all_remove text gps),
    count-all_replace gps,
    count-all_remove gps,
    each_removal gps,
  )
