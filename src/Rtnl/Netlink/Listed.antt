-- ===== src/Rtnl/Netlink/Listed.antt =====
-- The loops of ListRoutes and ListRules of internal/rtnl/netlink_linux.go on parts of a list.
use route_sync.Base.{
  ◌≡◌, refl, Bool, not, ◌&&◌, List, [], ◌∷◌, any, keep, arith, Option-cases, inl, inr,
}
use route_sync.Netip.{Prefix}
use route_sync.Rtnl.{Route, Rule}
use route_sync.Rtnl.Netlink.{
  NlRoute, NlRule, dst_prefix, from_nl_route, from_nl_rule, listed_routes, listed_rules,
}

-- Without the entries that ListRoutes makes a route of that passes the test
pub listed_routes-keep :
    (f : Route → Bool) (qs : List NlRoute)
    → listed_routes (keep (λ q. not (any f (listed_routes (q ∷ [])))) qs)
      ≡ keep (λ r. not (f r)) (listed_routes qs)
unfolding listed_routes
listed_routes-keep f [] = refl
listed_routes-keep f (q ∷ qs) = elim (Option-cases (dst_prefix q.dst)) [
  | inl e ↦ ground (arith, listed_routes-keep f qs, e)
  | inr (p, e) ↦ ground (arith, listed_routes-keep f qs, e)
]

-- Without the entries that ListRules makes a rule of that passes the test
pub listed_rules-keep :
    (f : Rule → Bool) (qs : List NlRule)
    → listed_rules (keep (λ q. not (any f (listed_rules (q ∷ [])))) qs)
      ≡ keep (λ r. not (f r)) (listed_rules qs)
unfolding listed_rules
listed_rules-keep f [] = refl
listed_rules-keep f (q ∷ qs) = ground (arith, listed_rules-keep f qs)

-- Of the entries that pass a test, ListRoutes makes the routes that pass the test which agrees with
-- it on what is listed.
pub listed_routes-filter :
    (test : NlRoute → Bool) (f g : Route → Bool)
    → ((q : NlRoute) (p : Prefix)
        → listed_routes (q ∷ []) ≡ from_nl_route q p ∷ []
        → test q ≡ f (from_nl_route q p))
    → (qs : List NlRoute)
    → any g (listed_routes (keep test qs)) ≡ any (λ r. f r && g r) (listed_routes qs)
unfolding listed_routes
listed_routes-filter test f g agree [] = refl
listed_routes-filter test f g agree (q ∷ qs) = elim (Option-cases (dst_prefix q.dst)) [
  | inl e ↦ ground (arith, listed_routes-filter test f g agree qs, e)
  | inr (p, e) ↦
      let one : listed_routes (q ∷ []) ≡ from_nl_route q p ∷ [] = rw (listed_routes, e) refl in
      ground (arith, listed_routes-filter test f g agree qs, e, agree q p one)
]

-- The same of rules
pub listed_rules-filter :
    (test : NlRule → Bool) (f g : Rule → Bool)
    → ((q : NlRule) → test q ≡ f (from_nl_rule q))
    → (qs : List NlRule)
    → any g (listed_rules (keep test qs)) ≡ any (λ r. f r && g r) (listed_rules qs)
unfolding listed_rules
listed_rules-filter test f g agree [] = refl
listed_rules-filter test f g agree (q ∷ qs) =
    ground (arith, listed_rules-filter test f g agree qs, agree q)
