-- ===== src/Reconcile/Routes/Table/Groups.antt =====
-- Build of internal/planner/planner.go followed by Apply of internal/reconcile/routes/routes.go, seen
-- from the routing table of a group.
use route_sync.Base.{
  ◌≡◌, refl, sym, ◌∙◌, ap, String, Bool, true, false, not, ◌&&◌, ◌||◌, List, [], ◌∷◌, ◌++◌, any,
  any-append, keep, All, arith,
}
use route_sync.Base.Int.{ℤ, eqb_ℤ, eqb_ℤ_refl}
use route_sync.Base.Maps.{IsOrder}
use route_sync.Base.Result.{ok}
use route_sync.Netip.Text.{NetipText}
use route_sync.Rtnl.{Route, Kernel}
use route_sync.Planner.{
  route_key, InputGroup, Ranges, build_group, build, target_prefixes, plan_family,
}
use route_sync.Planner.Diff.{has_key}
use route_sync.Planner.Build.{wanted_routes, build_group-sources, desired_routes-shared}
use route_sync.Reconcile.Routes.{apply}
use route_sync.Reconcile.Routes.Commands.{commands, apply-perform_all}
use route_sync.Reconcile.Routes.Table.{keyed_in, run_commands, IsTable, perform_all-run_commands}
use route_sync.Reconcile.Routes.Table.Exact.{IsFree, commands-IsFree}
use route_sync.Reconcile.Routes.Table.Applied.{barred, clash, in_slot_of}
use route_sync.Reconcile.Routes.Table.Built.{run_commands-build_group}
use route_sync.Reconcile.Routes.Table.Restricted.{in_table, on_table, keep-run_commands}
use route_sync.Reconcile.Routes.Table.Selected.{IsElsewhere, IsWithin, keep-commands}

-- The group's target is the table, or one of its current routes is in it.
abbrev pub touches : ℤ → InputGroup → Bool
touches n g = eqb_ℤ g.config.target.table n || any (in_table n) g.current_routes

-- The group wants a route that passes the test, or has a current one that does.
abbrev pub uses : NetipText → ℤ → (Route → Bool) → InputGroup → Bool
uses text protocol f g = any f (wanted_routes text protocol g) || any f g.current_routes

module _ (text : NetipText) (ranges : Ranges) (ro : IsOrder ranges.routes)
    (uo : IsOrder ranges.rules) (protocol : ℤ) where
  -- A test on tables that some addition of a group's plan passes, the table of its target passes.
  added_table :
      (f : ℤ → Bool) (g : InputGroup)
      → any (λ r. f r.table) (build_group text ranges protocol g).routes_to_add ≡ true
      → f g.config.target.table ≡ true
  added_table f g h =
      let (_, _, from_wanted, _) =
        build_group-sources text ranges ro uo protocol g (λ r. f r.table) (λ r. true) in
      desired_routes-shared (λ table p group. f table) protocol g text
        (target_prefixes g (plan_family g.config.target.family)) (from_wanted h)

  removed_route :
      (f : Route → Bool) (g : InputGroup)
      → any f g.current_routes ≡ false
      → any f (build_group text ranges protocol g).routes_to_remove ≡ false
  removed_route f g h =
      let (from_current, _, _, _) =
        build_group-sources text ranges ro uo protocol g f (λ r. true) in
      ground (arith, from_current, h)

  build_group-IsElsewhere :
      (n : ℤ) (g : InputGroup)
      → touches n g ≡ false
      → IsElsewhere n (build_group text ranges protocol g)
  build_group-IsElsewhere n g h = (
    ground (arith, added_table (λ t. eqb_ℤ t n) g, h),
    removed_route (in_table n) g (ground (arith, h)),
  )

  build-IsElsewhere :
      (n : ℤ) (gs : List InputGroup)
      → any (touches n) gs ≡ false
      → All (IsElsewhere n) (build text ranges protocol gs)
  unfolding build
  build-IsElsewhere n [] h = tt
  build-IsElsewhere n (g ∷ gs) h =
      (build_group-IsElsewhere n g (ground (arith, h)), build-IsElsewhere n gs (ground (arith, h)))

  build_group-IsWithin :
      (g : InputGroup)
      → any (λ r. not (in_table g.config.target.table r)) g.current_routes ≡ false
      → IsWithin g.config.target.table (build_group text ranges protocol g)
  build_group-IsWithin g h =
      let n = g.config.target.table in
      (
        ground (arith, added_table (λ t. not (eqb_ℤ t n)) g, eqb_ℤ_refl n),
        removed_route (λ r. not (in_table n r)) g h,
      )

  build_group-IsFree :
      (f : Route → Bool) (g : InputGroup)
      → uses text protocol f g ≡ false
      → IsFree f (build_group text ranges protocol g)
  build_group-IsFree f g h =
      let (_, _, from_wanted, _) = build_group-sources text ranges ro uo protocol g f (λ r. true) in
      (ground (arith, from_wanted, h), removed_route f g (ground (arith, h)))

  build-IsFree :
      (f : Route → Bool) (gs : List InputGroup)
      → any (uses text protocol f) gs ≡ false
      → All (IsFree f) (build text ranges protocol gs)
  unfolding build
  build-IsFree f [] h = tt
  build-IsFree f (g ∷ gs) h =
      (build_group-IsFree f g (ground (arith, h)), build-IsFree f gs (ground (arith, h)))

  build-append :
      (before behind : List InputGroup) (g : InputGroup)
      → build text ranges protocol (before ++ (g ∷ behind))
        ≡ build text ranges protocol before
          ++ (build_group text ranges protocol g ∷ build text ranges protocol behind)
  unfolding build
  build-append [] behind g = refl
  build-append (o ∷ before) behind g =
      ap (λ ps. build_group text ranges protocol o ∷ ps) (build-append before behind g)

-- Build and then Apply, for any number of groups: if Apply ends without an error, then of each group
-- g a key is among the routes of its table exactly if g wants it, or was among them before and is not
-- one of g's current ones. Go may range over the maps in any order. It is assumed that no other group
-- has that table as its target or a current route in it, and that g's current routes are in it; that
-- the kernel keeps one route of a table, metric and destination; that no printed gateway in the table,
-- of the current or of the wanted routes holds a bar; that no two wanted routes with different keys
-- share a table, metric and destination; that every route of the table that shares them with a wanted
-- one is among g's current ones by its key; that the keys of the current ones are in the table; and
-- that the kernel takes the wanted and the current routes of all groups as they are given.
pub apply-build :
    (text : NetipText) (ranges : Ranges)
    → IsOrder ranges.routes
    → IsOrder ranges.rules
    → (k : Kernel) (view : k.State → List Route) (table : IsTable text k view)
    → (protocol : ℤ) (before behind : List InputGroup) (g : InputGroup) (s t : k.State)
    → any (touches g.config.target.table) (before ++ behind) ≡ false
    → any (λ r. not (in_table g.config.target.table r)) g.current_routes ≡ false
    → any (barred text) (keep (in_table g.config.target.table) (view s)) ≡ false
    → any (barred text) g.current_routes ≡ false
    → any (barred text) (wanted_routes text protocol g) ≡ false
    → any (λ a. any (clash text a) (wanted_routes text protocol g)) (wanted_routes text protocol g)
      ≡ false
    → any
        (λ q.
          in_slot_of text (wanted_routes text protocol g) q
          && not (keyed_in text g.current_routes q))
        (keep (in_table g.config.target.table) (view s))
      ≡ false
    → any
        (λ c. not (keyed_in text (keep (in_table g.config.target.table) (view s)) c))
        g.current_routes
      ≡ false
    → any (uses text protocol (λ r. not (table.exact r))) (before ++ (g ∷ behind)) ≡ false
    → apply k text (build text ranges protocol (before ++ (g ∷ behind))) s ≡ (ok tt, t)
    → (x : String)
    → has_key (route_key text) x (keep (in_table g.config.target.table) (view t)) ≡ (
        (has_key (route_key text) x (keep (in_table g.config.target.table) (view s))
          && not (has_key (route_key text) x g.current_routes))
        || has_key (route_key text) x (wanted_routes text protocol g))
apply-build text ranges ro uo k view table protocol before behind g s t others own h₁ h₂ h₃ h₄ h₅ h₆
      taken e x =
    let n = g.config.target.table in
    let plans = build text ranges protocol (before ++ (g ∷ behind)) in
    let apart = any-append (touches n) before behind in
    let run =
      perform_all-run_commands text k view table (commands text plans) s t
        (commands-IsFree (λ r. not (table.exact r)) text plans
          (build-IsFree text ranges ro uo protocol (λ r. not (table.exact r))
            (before ++ (g ∷ behind)) taken))
        (sym (apply-perform_all k text plans s) ∙ e) in
    let calls =
      ap (λ ps. keep (on_table n) (commands text ps))
        (build-append text ranges ro uo protocol before behind g)
      ∙ keep-commands n text (build text ranges protocol before) (build text ranges protocol behind)
          (build_group text ranges protocol g)
          (build-IsElsewhere text ranges ro uo protocol n before (ground (arith, apart, others)))
          (build_group-IsWithin text ranges ro uo protocol g own)
          (build-IsElsewhere text ranges ro uo protocol n behind (ground (arith, apart, others))) in
    ap (λ rs. has_key (route_key text) x (keep (in_table n) rs)) run
    ∙ ap (has_key (route_key text) x) (
        keep-run_commands text n (commands text plans) (view s)
        ∙ ap (λ cs. run_commands text cs (keep (in_table n) (view s))) calls)
    ∙ run_commands-build_group text ranges ro uo protocol g (keep (in_table n) (view s)) h₁ h₂ h₃ h₄
        h₅ h₆ x
