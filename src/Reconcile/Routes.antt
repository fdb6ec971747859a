-- ===== src/Reconcile/Routes.antt =====
-- internal/reconcile/routes/routes.go. The log lines, and routeType which only they use, are not
-- modelled.
pub mod Commands
pub mod Table
pub mod Refused
use route_sync.Base.{
  String, Bool, not, ◌||◌, List, [], ◌∷◌, ◌++◌, map, any, keep, str_eq, if◌then◌else◌,
}
use route_sync.Base.Int.{ℤ, pos}
use route_sync.Base.Result.{ok, err, Action, after_ok, for_each}
use route_sync.Netip.Text.{NetipText}
use route_sync.Rtnl.{Route, Kernel}
use route_sync.Planner.{GroupPlan}

-- The tests of both CurrentOwned functions on the family.
abbrev pub lists_v4 : String → Bool
lists_v4 family = str_eq family "dual" || str_eq family "" || str_eq family "ipv4"

abbrev pub lists_v6 : String → Bool
lists_v6 family = str_eq family "dual" || str_eq family "" || str_eq family "ipv6"

-- `if wanted { rs, err := list(); ...; out = append(out, rs...) }`
abbrev pub list_if : {S A : Type 0} → Bool → Action S (List A) → Action S (List A)
list_if wanted list s = if wanted then list s else (ok [], s)

-- One list after the other, or the first error.
abbrev pub append_lists : {S A : Type 0} → Action S (List A) → Action S (List A) → Action S (List A)
append_lists m n s =
    after_ok (m s) (λ xs t. after_ok (n t) (λ ys u. (ok (xs ++ ys), u)) (λ e u. (err e, u)))
      (λ e t. (err e, t))

-- routeIdentity
unfoldable pub route_identity : NetipText → Route → String
route_identity text r = text.prefix_string r.dst

-- routeIdentitySet: the keys of the map, all of which are true.
unfoldable pub route_identity_set : NetipText → List Route → List String
unfolding route_identity
route_identity_set text = map (route_identity text)

abbrev pub in_set : List String → String → Bool
in_set set s = any (λ t. str_eq t s) set

module _ (text : NetipText) where
  -- conflictingRouteRemovals
  unfoldable pub conflicting_route_removals : GroupPlan → List Route
  unfolding route_identity_set
  conflicting_route_removals gp =
      keep (λ r. in_set (route_identity_set text gp.routes_to_add) (route_identity text r))
        gp.routes_to_remove

  -- The removals that the second loop of Apply does not skip.
  unfoldable pub late_route_removals : GroupPlan → List Route
  unfolding conflicting_route_removals
  late_route_removals gp =
      keep
        (λ r. not (
          in_set (route_identity_set text (conflicting_route_removals gp)) (route_identity text r)))
        gp.routes_to_remove

module _ (k : Kernel) where
  -- CurrentOwned
  unfoldable pub current_owned : ℤ → ℤ → String → Action k.State (List Route)
  current_owned table protocol family =
      append_lists (list_if (lists_v4 family) (k.list_routes table (pos 4) protocol))
        (list_if (lists_v6 family) (k.list_routes table (pos 6) protocol))

  -- The body of the first loop of Apply.
  unfoldable pub replace_routes : NetipText → GroupPlan → Action k.State (Unit {0})
  replace_routes text gp s =
      after_ok (for_each k.delete_route (conflicting_route_removals text gp) s)
        (λ _ t. for_each k.add_route gp.routes_to_add t) (λ e t. (err e, t))

  -- The body of the second loop of Apply.
  unfoldable pub remove_routes : NetipText → GroupPlan → Action k.State (Unit {0})
  remove_routes text gp = for_each k.delete_route (late_route_removals text gp)

  -- Apply
  unfoldable pub apply : NetipText → List GroupPlan → Action k.State (Unit {0})
  unfolding replace_routes remove_routes
  apply text plans s =
      after_ok (for_each (replace_routes text) plans s)
        (λ _ t. for_each (remove_routes text) plans t) (λ e t. (err e, t))
