-- ===== src/Reconcile/Routes/Table/Applied.antt =====
-- Build of internal/planner/planner.go followed by Apply of internal/reconcile/routes/routes.go, on
-- the routing table.

use route_sync.Base.{
  ◌≡◌, refl, sym, ◌∙◌, ap, ap₂, ◌≤◌, String, Bool, true, false, not, ◌&&◌, ◌||◌, List, [], ◌∷◌,
  ◌++◌, map, any, any-keep, any-ext, any-or, any_of_count, any_of_parts, any-map, count, In,
  find_any, none_of, fails_of, arith, str_eq, str_eq_iff,
}
use route_sync.Base.Text.{has_any}
use route_sync.Base.Text.Fields.{is_bar}
use route_sync.Netip.Text.{NetipText}
use route_sync.Rtnl.{Route}
use route_sync.Rtnl.Netlink.RoundTrip.{anonymous}
use route_sync.Planner.{route_key, GroupPlan}
use route_sync.Planner.Diff.{has_key}
use route_sync.Planner.Keys.{SameRoute, route_key-SameRoute}
use route_sync.Reconcile.Routes.{
  route_identity, in_set, route_identity_set, conflicting_route_removals, late_route_removals,
}
use route_sync.Reconcile.Routes.Commands.{add, delete, commands, late_or_not}
use route_sync.Reconcile.Routes.Table.{
  same_slot, same_key, keyed_in, run_commands, run_commands-append, any-run_deletes, any-run_adds,
  IsDistinct,
}

held_key : (text : NetipText) (r : Route) → route_key text (anonymous r) ≡ route_key text r
unfolding route_key
held_key text r = refl

module _ (text : NetipText) where
  -- The gateway is printed with a bar, which only a zone can hold.
  abbrev pub barred : Route → Bool
  barred r = has_any is_bar (text.addr_string r.via)

  -- The one slot is wanted for two different routes.
  abbrev pub clash : Route → Route → Bool
  clash a w = same_slot text a w && not (same_key text a w)

  pub IsDistinct-of :
      (rs : List Route)
      → any (λ a. any (clash a) rs) rs ≡ false
      → ((x : String) → count (λ r. str_eq (route_key text r) x) rs ≤ 1)
      → IsDistinct text rs
  IsDistinct-of [] h u = tt
  IsDistinct-of (a ∷ rs) h u =
      let later = any-or (λ b. clash b a) (λ b. any (clash b) rs) rs in
      let once_only : count (λ r. str_eq (route_key text r) (route_key text a)) rs ≡ 0 =
        ground (
          arith,
          u (route_key text a),
          (str_eq_iff (route_key text a) (route_key text a)).1 refl,
        ) in
      let other =
        any_of_count (λ r. str_eq (route_key text r) (route_key text a)) rs [] once_only in
      let calm : any (clash a) rs ≡ false = ground (arith, h) in
      let fresh : (w : Route) → In w rs → same_slot text a w ≡ false = λ w i.
        let flip = λ (e : str_eq (route_key text a) (route_key text w) ≡ true).
          (str_eq_iff (route_key text w) (route_key text a)).1
            (sym ((str_eq_iff (route_key text a) (route_key text w)).0 e)) in
        ground (
          arith,
          fails_of (clash a) rs w calm i,
          fails_of (λ r. str_eq (route_key text r) (route_key text a)) rs w other i,
          flip,
        ) in
      (
        none_of (same_slot text a) rs fresh,
        IsDistinct-of rs (ground (arith, h, later)) (λ x. ground (arith, u x)),
      )

  -- The calls of Apply for one plan: the removals that make way, the additions, the other removals.
  run_commands-single :
      (gp : GroupPlan) (rs : List Route)
      → run_commands text (commands text (gp ∷ [])) rs
        ≡ run_commands text (map delete (late_route_removals text gp)) (
            run_commands text
              (map add gp.routes_to_add)
              (run_commands text (map delete (conflicting_route_removals text gp)) rs))
  run_commands-single gp rs =
      run_commands-append text
        ((map delete (conflicting_route_removals text gp) ++ map add gp.routes_to_add) ++ [])
        (map delete (late_route_removals text gp) ++ []) rs
      ∙ run_commands-append text (map delete (late_route_removals text gp)) [] _
      ∙ ap (run_commands text (map delete (late_route_removals text gp))) (
          run_commands-append text
            (map delete (conflicting_route_removals text gp) ++ map add gp.routes_to_add) [] rs
          ∙ run_commands-append text (map delete (conflicting_route_removals text gp))
              (map add gp.routes_to_add) rs)

  -- By keys, deleting a list of routes is subtraction.
  keyed_away :
      (x : String) (ds rs : List Route)
      → any (λ q. not (keyed_in text ds q) && str_eq (route_key text q) x) rs
        ≡ (has_key (route_key text) x rs && not (has_key (route_key text) x ds))
  keyed_away x ds [] = refl
  keyed_away x ds (r ∷ rs) =
      let same = λ (e : str_eq (route_key text r) x ≡ true).
        ap (λ k. has_key (route_key text) k ds) ((str_eq_iff (route_key text r) x).0 e) in
      ground (arith, keyed_away x ds rs, same)

  -- q stands in the slot of a route of the list.
  abbrev pub in_slot_of : List Route → Route → Bool
  in_slot_of rs q = any (same_slot text q) rs

  -- What two readable routes with one key share.
  pub same_key-SameRoute :
      (r q : Route)
      → barred r ≡ false
      → barred q ≡ false
      → same_key text r q ≡ true
      → SameRoute text r q
  same_key-SameRoute r q h k e = route_key-SameRoute text r q h k ((str_eq_iff _ _).0 e)

  -- A removal to an added destination makes way.
  way_of :
      (gp : GroupPlan) (q r a : Route)
      → In r gp.routes_to_remove
      → In a gp.routes_to_add
      → text.prefix_string a.dst ≡ text.prefix_string r.dst
      → same_key text r q ≡ true
      → keyed_in text (conflicting_route_removals text gp) q ≡ true
  unfolding conflicting_route_removals route_identity_set
  way_of gp q r a in_removes in_adds dst same =
      let wanted : in_set (map (route_identity text) gp.routes_to_add) (route_identity text r)
          ≡ true =
        any-map (λ t. str_eq t (route_identity text r)) (route_identity text) gp.routes_to_add
        ∙ in_adds (λ b. str_eq (route_identity text b) (route_identity text r))
            ((str_eq_iff _ _).1 dst) in
      any-keep (λ b. same_key text b q) _ gp.routes_to_remove
      ∙ in_removes
          (λ b.
            in_set (map (route_identity text) gp.routes_to_add) (route_identity text b)
            && same_key text b q)
          (ground (arith, wanted, same))

  module _ (gp : GroupPlan) (rs : List Route) (readable : any barred rs ≡ false)
      (readable_plan : any barred gp.routes_to_remove ≡ false)
      (cleared : any
          (λ q. in_slot_of gp.routes_to_add q && not (keyed_in text gp.routes_to_remove q))
          rs
        ≡ false) where
    makes_way :
        (q : Route)
        → In q rs
        → in_slot_of gp.routes_to_add q ≡ true
        → keyed_in text (conflicting_route_removals text gp) q ≡ true
    makes_way q i h =
        let gone : keyed_in text gp.routes_to_remove q ≡ true =
          ground (arith, h, fails_of _ rs q cleared i) in
        let (r, same, in_removes) = find_any _ gp.routes_to_remove gone in
        let (a, slot, in_adds) = find_any _ gp.routes_to_add h in
        let shared =
          same_key-SameRoute r q (fails_of barred gp.routes_to_remove r readable_plan in_removes)
            (fails_of barred rs q readable i) same in
        let dst : str_eq (text.prefix_string q.dst) (text.prefix_string a.dst) ≡ true =
          ground (arith, slot) in
        way_of gp q r a in_removes in_adds (sym ((str_eq_iff _ _).0 dst) ∙ sym shared.same_dst) same

    freed :
        any
          (in_slot_of gp.routes_to_add)
          (run_commands text (map delete (conflicting_route_removals text gp)) rs)
        ≡ false
    freed =
        any-run_deletes text (in_slot_of gp.routes_to_add) (conflicting_route_removals text gp) rs
        ∙ none_of _ rs (λ q i. ground (arith, makes_way q i))

    in_parts :
        (f : Route → Bool)
        → (any f (conflicting_route_removals text gp) || any f (late_route_removals text gp))
          ≡ any f gp.routes_to_remove
    in_parts f =
        any_of_parts f (conflicting_route_removals text gp) (late_route_removals text gp)
          gp.routes_to_remove (late_or_not text gp f)

    module _ (apart : IsDistinct text gp.routes_to_add) (x : String)
        (settled : (has_key (route_key text) x gp.routes_to_add
            && has_key (route_key text) x gp.routes_to_remove)
          ≡ false) where
      pub has_key-commands :
          has_key (route_key text) x (run_commands text (commands text (gp ∷ [])) rs) ≡ (
            (has_key (route_key text) x rs && not (has_key (route_key text) x gp.routes_to_remove))
            || has_key (route_key text) x gp.routes_to_add)
      has_key-commands =
          ap (any (λ r. str_eq (route_key text r) x)) (run_commands-single gp rs)
          ∙ any-run_deletes text _ (late_route_removals text gp) _
          ∙ any-run_adds text _
              (λ q.
                ap
                  (λ y.
                    not (any (λ r. str_eq (route_key text r) y) (late_route_removals text gp))
                    && str_eq y x)
                  (held_key text q))
              gp.routes_to_add _ apart freed
          ∙ ap₂ ◌||◌ (keyed_away x (late_route_removals text gp) gp.routes_to_add) (
              any-run_deletes text _ (conflicting_route_removals text gp) rs
              ∙ any-ext _ _ rs (λ q. ground (arith, in_parts (λ r. same_key text r q)))
              ∙ keyed_away x gp.routes_to_remove rs)
          ∙ ground (arith, settled, in_parts (λ r. str_eq (route_key text r) x))
