-- ===== src/Planner/Build.antt =====
-- What Build of internal/planner/planner.go adds and removes, by the keys of routes and rules.
use route_sync.Base.{
  ◌≡◌, refl, String, Bool, true, not, ◌&&◌, Option, none, some, List, [], ◌∷◌, ◌++◌, arith, map,
  any, any-append, count, once, str_eq,
}
use route_sync.Base.Int.{ℤ}
use route_sync.Base.Maps.{IsOrder}
use route_sync.Netip.{Prefix}
use route_sync.Netip.Text.{NetipText}
use route_sync.Source.Sorting.{filter_family}
use route_sync.Config.{NextHopConfig}
use route_sync.Health.{ResolvedHop}
use route_sync.Rtnl.{Route, Rule}
use route_sync.Planner.{
  InputGroup, Ranges, build_group, desired_routes, desired_rules, route_key, rule_key,
  target_prefixes, plan_family, matching_hops, prefix_routes, append_each, target_route,
  default_route, default_routes, hop_route, throw_route, default_prefixes,
}
use route_sync.Planner.Diff.{has_key, count-diff_by-add, count-diff_by-remove, any-diff_by}

-- The routes that Build wants for a group.
abbrev pub wanted_routes : NetipText → ℤ → InputGroup → List Route
wanted_routes text protocol g =
    desired_routes text protocol g (target_prefixes g (plan_family g.config.target.family))

module _ (text : NetipText) (ranges : Ranges) (routes_ordered : IsOrder ranges.routes)
    (rules_ordered : IsOrder ranges.rules) where
  -- The plan of a group, whatever orders Go takes to range over the maps of routes and of rules, for
  -- every key of a route: it adds one route with the key if a wanted route has it and no current
  -- one, and else none; it removes one if a current route has the key and no wanted one, and else
  -- none.
  pub build_group-routes :
      (protocol : ℤ) (g : InputGroup) (k : String)
      → (count (λ r. str_eq (route_key text r) k) (build_group text ranges protocol g).routes_to_add
          ≡ once (
              has_key (route_key text) k (wanted_routes text protocol g)
              && not (has_key (route_key text) k g.current_routes)))
        × (count
              (λ r. str_eq (route_key text r) k)
              (build_group text ranges protocol g).routes_to_remove
            ≡ once (
                has_key (route_key text) k g.current_routes
                && not (has_key (route_key text) k (wanted_routes text protocol g))))
  unfolding build_group
  build_group-routes protocol g k = (
    count-diff_by-add (route_key text) ranges.routes routes_ordered (wanted_routes text protocol g)
        g.current_routes k,
    count-diff_by-remove (route_key text) ranges.routes routes_ordered
        (wanted_routes text protocol g) g.current_routes k,
  )

  -- The plan of a group, whatever the orders of the maps, for every key of a rule: it adds one rule
  -- with the key if the wanted rules have it and no current one, and else none; it removes one if a
  -- current rule has the key and no wanted one, and else none.
  pub build_group-rules :
      (protocol : ℤ) (g : InputGroup) (k : String)
      → (count (λ r. str_eq (rule_key text r) k) (build_group text ranges protocol g).rules_to_add
          ≡ once (
              has_key (rule_key text) k (desired_rules text g.config)
              && not (has_key (rule_key text) k g.current_rules)))
        × (count
              (λ r. str_eq (rule_key text r) k)
              (build_group text ranges protocol g).rules_to_remove
            ≡ once (
                has_key (rule_key text) k g.current_rules
                && not (has_key (rule_key text) k (desired_rules text g.config))))
  unfolding build_group
  build_group-rules protocol g k = (
    count-diff_by-add (rule_key text) ranges.rules rules_ordered (desired_rules text g.config)
        g.current_rules k,
    count-diff_by-remove (rule_key text) ranges.rules rules_ordered (desired_rules text g.config)
        g.current_rules k,
  )

  -- The plan of a group, whatever the orders of the maps, removes only routes and rules that are
  -- among the current ones of its group, and adds only wanted ones: a test that some element of the
  -- plan's list passes, some element of the group's list passes.
  pub build_group-sources :
      (protocol : ℤ) (g : InputGroup) (f : Route → Bool) (h : Rule → Bool)
      → (any f (build_group text ranges protocol g).routes_to_remove ≡ true
          → any f g.current_routes ≡ true)
        × (any h (build_group text ranges protocol g).rules_to_remove ≡ true
            → any h g.current_rules ≡ true)
        × (any f (build_group text ranges protocol g).routes_to_add ≡ true
            → any f (wanted_routes text protocol g) ≡ true)
        × (any h (build_group text ranges protocol g).rules_to_add ≡ true
            → any h (desired_rules text g.config) ≡ true)
  unfolding build_group
  build_group-sources protocol g f h =
      let routes =
        any-diff_by (route_key text) ranges.routes routes_ordered f (wanted_routes text protocol g)
          g.current_routes in
      let rules =
        any-diff_by (rule_key text) ranges.rules rules_ordered h (desired_rules text g.config)
          g.current_rules in
      (routes.1, rules.1, routes.0, rules.0)

-- A test on routes that looks at the fields which every route of a group shares.
abbrev pub shared : (ℤ → ℤ → String → Bool) → Route → Bool
shared f r = f r.table r.protocol r.group

any-append_each :
    (q : Route → Bool) (b : Bool) (f : Prefix → List Route)
    → ((p : Prefix) → any q (f p) ≡ true → b ≡ true)
    → (ps : List Prefix) → any q (append_each f ps) ≡ true
    → b ≡ true
any-append_each q b f h [] e = cc
any-append_each q b f h (p ∷ ps) e =
    ground (arith, any-append q (f p) (append_each f ps), h p, any-append_each q b f h ps)

module _ (f : ℤ → ℤ → String → Bool) (protocol : ℤ) (g : InputGroup) where
  abbrev expected : Bool
  expected = f g.config.target.table protocol g.config.name

  hop_routes-shared :
      (p : Prefix) (hs : List ResolvedHop)
      → any (shared f) (map (hop_route g.config protocol p) hs) ≡ true
      → expected ≡ true
  hop_routes-shared p [] e = cc
  hop_routes-shared p (h ∷ hs) e = ground (arith, hop_routes-shared p hs)

  throw_routes-shared :
      (ps : List Prefix)
      → any (shared f) (map (throw_route g.config protocol) ps) ≡ true
      → expected ≡ true
  throw_routes-shared [] e = cc
  throw_routes-shared (p ∷ ps) e = ground (arith, throw_routes-shared ps)

  prefix_routes-shared :
      (plain : Prefix → Route) (hops : List ResolvedHop)
      → ((p : Prefix) → shared f (plain p) ≡ expected)
      → (p : Prefix) → any (shared f) (prefix_routes plain g.config protocol hops p) ≡ true
      → expected ≡ true
  unfolding prefix_routes
  prefix_routes-shared plain hops same p e = split (matching_hops hops p) e
    where
      split :
          (hs : List ResolvedHop)
          → any
              (shared f)
              (elim hs [ [] ↦ plain p ∷ [] | h ∷ t ↦ map (hop_route g.config protocol p) (h ∷ t) ])
            ≡ true
          → expected ≡ true
      split [] e = ground (arith, same p)
      split (h ∷ hs) e = hop_routes-shared p (h ∷ hs) e

  default_routes-shared :
      (text : NetipText) (d : Option NextHopConfig)
      → any (shared f) (default_routes text protocol g d) ≡ true
      → expected ≡ true
  unfolding default_routes
  default_routes-shared text none e = cc
  default_routes-shared text (some d) e =
      any-append_each (shared f) expected _
        (prefix_routes-shared (default_route text protocol g d) g.default_hops (λ p. refl))
        (default_prefixes g.config.target.family) e

  -- Every wanted route is in the table of its group's target, has the program's protocol and the
  -- group's name: a test on these passes for a wanted route only if it passes for those values.
  pub desired_routes-shared :
      (text : NetipText) (prefixes : List Prefix)
      → any (shared f) (desired_routes text protocol g prefixes) ≡ true
      → f g.config.target.table protocol g.config.name ≡ true
  unfolding desired_routes
  desired_routes-shared text prefixes e = ground (
    arith,
    any-append (shared f)
        (append_each (prefix_routes (target_route text protocol g) g.config protocol g.target_hops)
          prefixes)
        (map (throw_route g.config protocol) (filter_family g.throw_prefixes g.config.target.family)
          ++ default_routes text protocol g g.config.target.default),
    any-append (shared f)
        (map (throw_route g.config protocol)
          (filter_family g.throw_prefixes g.config.target.family))
        (default_routes text protocol g g.config.target.default),
    any-append_each (shared f) expected _
        (prefix_routes-shared (target_route text protocol g) g.target_hops (λ p. refl)) prefixes,
    throw_routes-shared (filter_family g.throw_prefixes g.config.target.family),
    default_routes-shared text g.config.target.default,
  )
