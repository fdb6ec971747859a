-- ===== src/Reconcile/Routes/Table/Built.antt =====
-- Build of internal/planner/planner.go followed by Apply of internal/reconcile/routes/routes.go: the
-- routes of the table.
use route_sync.Base.{
  ℕ, ◌≡◌, sym, ◌∙◌, ap, ◌≤◌, String, Bool, true, false, not, ◌&&◌, ◌||◌, List, [], ◌∷◌, any,
  any_of_once, once, In, find_any, none_of, fails_of, arith, str_eq, str_eq_iff, Bool-cases, inl,
  inr,
}
use route_sync.Base.Int.{ℤ}
use route_sync.Base.Maps.{IsOrder}
use route_sync.Netip.Text.{NetipText}
use route_sync.Rtnl.{Route}
use route_sync.Planner.{route_key, InputGroup, Ranges, build_group}
use route_sync.Planner.Diff.{has_key}
use route_sync.Planner.Build.{wanted_routes, build_group-routes, build_group-sources}
use route_sync.Planner.Keys.{SameRoute}
use route_sync.Reconcile.Routes.Commands.{commands}
use route_sync.Reconcile.Routes.Table.{run_commands, same_slot, same_key, keyed_in, IsDistinct}
use route_sync.Reconcile.Routes.Table.Applied.{
  barred, clash, in_slot_of, same_key-SameRoute, IsDistinct-of, has_key-commands,
}

at_most_once : (n : ℕ) (b : Bool) → n ≡ once b → n ≤ 1
at_most_once n true h = omega (arith, h)
at_most_once n false h = omega (arith, h)

module _ (text : NetipText) (ranges : Ranges) (routes_ordered : IsOrder ranges.routes)
    (rules_ordered : IsOrder ranges.rules) (protocol : ℤ) (g : InputGroup) where
  abbrev plan_adds : List Route
  plan_adds = (build_group text ranges protocol g).routes_to_add

  abbrev plan_removes : List Route
  plan_removes = (build_group text ranges protocol g).routes_to_remove

  abbrev wanted : List Route
  wanted = wanted_routes text protocol g

  In-wanted : (a : Route) → In a plan_adds → In a wanted
  In-wanted a i f h =
      let (_, _, from_wanted, _) =
        build_group-sources text ranges routes_ordered rules_ordered protocol g f (λ r. true) in
      from_wanted (i f h)

  In-current : (r : Route) → In r plan_removes → In r g.current_routes
  In-current r i f h =
      (build_group-sources text ranges routes_ordered rules_ordered protocol g f (λ r. true)).0
        (i f h)

  added_keys :
      (x : String)
      → has_key (route_key text) x plan_adds
        ≡ (has_key (route_key text) x wanted && not (has_key (route_key text) x g.current_routes))
  added_keys x =
      any_of_once _ plan_adds _
        (build_group-routes text ranges routes_ordered rules_ordered protocol g x).0

  removed_keys :
      (x : String)
      → has_key (route_key text) x plan_removes
        ≡ (has_key (route_key text) x g.current_routes && not (has_key (route_key text) x wanted))
  removed_keys x =
      any_of_once _ plan_removes _
        (build_group-routes text ranges routes_ordered rules_ordered protocol g x).1

  module _ (compatible : any (λ a. any (clash text a) wanted) wanted ≡ false) where
    adds_apart : IsDistinct text plan_adds
    adds_apart =
        IsDistinct-of text plan_adds
          (none_of _ plan_adds (λ a i. none_of _ plan_adds (λ w j.
            fails_of _ wanted w (fails_of _ wanted a compatible (In-wanted a i)) (In-wanted w j))))
          (λ x.
            at_most_once _ _
              (build_group-routes text ranges routes_ordered rules_ordered protocol g x).0)

    -- An added route is not in the slot of a route whose key is both wanted and current.
    not_kept :
        (q w a : Route)
        → same_slot text q a ≡ true
        → In a plan_adds
        → In w wanted
        → SameRoute text w q
        → same_key text w q ≡ true
        → has_key (route_key text) (route_key text q) g.current_routes ≡ false
    not_kept q w a slot in_adds in_w shared same =
        let calm =
          fails_of _ wanted a (fails_of _ wanted w compatible in_w) (In-wanted a in_adds) in
        let moved : same_slot text w a ≡ true =
          rw (shared.same_table, shared.same_metric, shared.same_dst) slot in
        let one : route_key text w ≡ route_key text a =
          (str_eq_iff _ _).0 (ground (arith, calm, moved)) in
        let key : route_key text a ≡ route_key text q = sym one ∙ (str_eq_iff _ _).0 same in
        let added : has_key (route_key text) (route_key text q) plan_adds ≡ true =
          in_adds _ ((str_eq_iff _ _).1 key) in
        ground (arith, added, added_keys (route_key text q))

    module _ (rs : List Route) (readable : any (barred text) rs ≡ false)
        (readable_wanted : any (barred text) wanted ≡ false)
        (known : any (λ q. in_slot_of text wanted q && not (keyed_in text g.current_routes q)) rs
          ≡ false) where
      removes_slots :
          any (λ q. in_slot_of text plan_adds q && not (keyed_in text plan_removes q)) rs ≡ false
      removes_slots = none_of _ rs (λ q i. elim (Bool-cases (in_slot_of text plan_adds q)) [
        | inl h ↦
            let (a, slot, in_adds) = find_any _ plan_adds h in
            let listed : has_key (route_key text) (route_key text q) g.current_routes ≡ true =
              ground
                (arith, fails_of _ rs q known i, In-wanted a in_adds (same_slot text q) slot) in
            let gone = removed_keys (route_key text q) in
            elim (Bool-cases (has_key (route_key text) (route_key text q) wanted)) [
              | inl k ↦
                  let (w, same, in_w) = find_any _ wanted k in
                  let shared =
                    same_key-SameRoute text w q (fails_of _ wanted w readable_wanted in_w)
                      (fails_of _ rs q readable i) same in
                  ground (arith, listed, not_kept q w a slot in_adds in_w shared same)
              | inr k ↦ ground (arith, gone, listed, k)
            ]
        | inr h ↦ ground (arith, h)
      ])

present_keys :
    (text : NetipText) (rs cs : List Route)
    → any (λ c. not (keyed_in text rs c)) cs ≡ false
    → (x : String) → has_key (route_key text) x cs ≡ true
    → has_key (route_key text) x rs ≡ true
present_keys text rs [] h x e = cc
present_keys text rs (c ∷ cs) h x e =
    let same = λ (m : str_eq (route_key text c) x ≡ true).
      ap (λ y. has_key (route_key text) y rs) ((str_eq_iff (route_key text c) x).0 m) in
    ground (arith, h, e, same, present_keys text rs cs (ground (arith, h)) x)

-- The calls of Apply for the plan of one group, run on a table's routes, by keys: a key is there
-- afterwards exactly if it is wanted, or was there and is not one of the group's current ones.
pub run_commands-build_group :
    (text : NetipText) (ranges : Ranges)
    → IsOrder ranges.routes
    → IsOrder ranges.rules
    → (protocol : ℤ) (g : InputGroup) (rs : List Route) → any (barred text) rs ≡ false
    → any (barred text) g.current_routes ≡ false
    → any (barred text) (wanted_routes text protocol g) ≡ false
    → any (λ a. any (clash text a) (wanted_routes text protocol g)) (wanted_routes text protocol g)
      ≡ false
    → any
        (λ q.
          in_slot_of text (wanted_routes text protocol g) q
          && not (keyed_in text g.current_routes q))
        rs
      ≡ false
    → any (λ c. not (keyed_in text rs c)) g.current_routes ≡ false
    → (x : String)
    → has_key
        (route_key text)
        x
        (run_commands text (commands text (build_group text ranges protocol g ∷ [])) rs)
      ≡ ((has_key (route_key text) x rs && not (has_key (route_key text) x g.current_routes))
          || has_key (route_key text) x (wanted_routes text protocol g))
run_commands-build_group text ranges ro uo protocol g rs h₁ h₂ h₃ h₄ h₅ h₆ x =
    let gp = build_group text ranges protocol g in
    let adds = added_keys text ranges ro uo protocol g x in
    let removes = removed_keys text ranges ro uo protocol g x in
    let readable : any (barred text) gp.routes_to_remove ≡ false =
      none_of _ gp.routes_to_remove
        (λ r i. fails_of _ g.current_routes r h₂ (In-current text ranges ro uo protocol g r i)) in
    let present = present_keys text rs g.current_routes h₆ x in
    has_key-commands text gp rs h₁ readable
      (removes_slots text ranges ro uo protocol g h₄ rs h₁ h₃ h₅)
      (adds_apart text ranges ro uo protocol g h₄) x (ground (arith, adds, removes))
    ∙ ground (arith, adds, removes, present)
