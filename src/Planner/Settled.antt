-- ===== src/Planner/Settled.antt =====
-- Build of internal/planner/planner.go on routes and rules that netlink lists.
use route_sync.Base.{
  ℕ, suc, ◌≡◌, refl, sym, ◌∙◌, ap, String, Bool, true, false, not, ◌&&◌, List, [], ◌∷◌, arith, map,
  count, once, All, str_eq, str_eq_iff, if◌then◌else◌,
}
use route_sync.Base.Int.{ℤ}
use route_sync.Base.Maps.{IsOrder}
use route_sync.Netip.Text.{NetipText}
use route_sync.Rtnl.{Route, Rule}
use route_sync.Rtnl.Netlink.{to_nl_route, listed_routes, to_nl_rule, listed_rules}
use route_sync.Rtnl.Netlink.RoundTrip.{
  IsPlanned, anonymous, listed_routes-to_nl_route, IsPlannedRule, anonymous_rule,
  listed_rules-to_nl_rule,
}
use route_sync.Planner.{InputGroup, Ranges, build_group, desired_rules, route_key, rule_key}
use route_sync.Planner.Diff.{has_key}
use route_sync.Planner.Build.{wanted_routes, build_group-routes, build_group-rules}

once_both : (b : Bool) → once (b && not b) ≡ 0
once_both true = refl
once_both false = refl

suc-ne-zero : (n : ℕ) → ¬ (suc n ≡ 0)
suc-ne-zero n h = omega arith

str_eq_refl : (s : String) → str_eq s s ≡ true
str_eq_refl s = (str_eq_iff s s).1 refl

module _ {A : Type 0} (key : A → String) where
  has_key-map :
      (f : A → A)
      → ((x : A) → key (f x) ≡ key x)
      → (k : String) (xs : List A) → has_key key k (map f xs) ≡ has_key key k xs
  has_key-map f same k [] = refl
  has_key-map f same k (x ∷ xs) = rw (same x, has_key-map f same k xs) refl

  -- A list with no element of any key is empty.
  none_of_any_key : (xs : List A) → ((k : String) → count (λ x. str_eq (key x) k) xs ≡ 0) → xs ≡ []
  none_of_any_key [] h = refl
  none_of_any_key (x ∷ xs) h =
      let own : count (λ y. str_eq (key y) (key x)) (x ∷ xs) ≡ 0 = h (key x) in
      absurd (counted (str_eq (key x) (key x)) _ (str_eq_refl (key x)) own)
    where
      counted : (b : Bool) (n : ℕ) → b ≡ true → ¬ ((if b then suc n else n) ≡ 0)
      counted true n e z = suc-ne-zero n z
      counted false n e z = cc

  -- What one list lacks of another with the same keys.
  none_lacking :
      (xs has lacks : List A)
      → ((k : String)
          → count (λ x. str_eq (key x) k) xs
            ≡ once (has_key key k has && not (has_key key k lacks)))
      → ((k : String) → has_key key k has ≡ has_key key k lacks)
      → xs ≡ []
  none_lacking xs has lacks counted same =
      none_of_any_key xs (λ k. counted k ∙ (rw (same k) (once_both (has_key key k lacks))))

route_key-anonymous :
    (text : NetipText) (r : Route) → route_key text (anonymous r) ≡ route_key text r
unfolding route_key
route_key-anonymous text r = refl

rule_key-anonymous :
    (text : NetipText) (r : Rule) → rule_key text (anonymous_rule r) ≡ rule_key text r
unfolding rule_key
rule_key-anonymous text r = refl

module _ (text : NetipText) (ranges : Ranges) (routes_ordered : IsOrder ranges.routes)
    (rules_ordered : IsOrder ranges.rules) where
  -- Whatever the orders of the maps: if the current routes of a group are what netlink lists of its
  -- wanted routes, and these are masked, with gateways in range and throw routes without link or
  -- gateway, then the plan of the group adds no route and removes none.
  pub build_group-settled :
      (protocol : ℤ) (g : InputGroup)
      → All IsPlanned (wanted_routes text protocol g)
      → g.current_routes ≡ listed_routes (map to_nl_route (wanted_routes text protocol g))
      → ((build_group text ranges protocol g).routes_to_add ≡ [])
        × ((build_group text ranges protocol g).routes_to_remove ≡ [])
  build_group-settled protocol g planned listed = (
    none_lacking (route_key text) _ _ _
        (λ k. (build_group-routes text ranges routes_ordered rules_ordered protocol g k).0)
        (λ k. sym (same_keys k)),
    none_lacking (route_key text) _ _ _
        (λ k. (build_group-routes text ranges routes_ordered rules_ordered protocol g k).1)
        same_keys,
  )
    where
      same_keys :
          (k : String)
          → has_key (route_key text) k g.current_routes
            ≡ has_key (route_key text) k (wanted_routes text protocol g)
      same_keys k =
          ap (has_key (route_key text) k)
            (listed ∙ listed_routes-to_nl_route (wanted_routes text protocol g) planned)
          ∙ has_key-map (route_key text) anonymous (route_key-anonymous text) k
              (wanted_routes text protocol g)

  -- Whatever the orders of the maps: if the current rules of a group are what netlink lists of its
  -- wanted rules, and these have a masked source or none, and a mark with a mask or neither, then
  -- the plan of the group adds no rule and removes none.
  pub build_group-settled_rules :
      (protocol : ℤ) (g : InputGroup)
      → All IsPlannedRule (desired_rules text g.config)
      → g.current_rules ≡ listed_rules (map to_nl_rule (desired_rules text g.config))
      → ((build_group text ranges protocol g).rules_to_add ≡ [])
        × ((build_group text ranges protocol g).rules_to_remove ≡ [])
  build_group-settled_rules protocol g planned listed = (
    none_lacking (rule_key text) _ _ _
        (λ k. (build_group-rules text ranges routes_ordered rules_ordered protocol g k).0)
        (λ k. sym (same_keys k)),
    none_lacking (rule_key text) _ _ _
        (λ k. (build_group-rules text ranges routes_ordered rules_ordered protocol g k).1)
        same_keys,
  )
    where
      same_keys :
          (k : String)
          → has_key (rule_key text) k g.current_rules
            ≡ has_key (rule_key text) k (desired_rules text g.config)
      same_keys k =
          ap (has_key (rule_key text) k)
            (listed ∙ listed_rules-to_nl_rule (desired_rules text g.config) planned)
          ∙ has_key-map (rule_key text) anonymous_rule (rule_key-anonymous text) k
              (desired_rules text g.config)
