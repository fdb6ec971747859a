-- ===== src/Tests/Netlinked.antt =====
-- A netlink library that is two lists of entries.
use route_sync.Base.{
  ◌^◌, ◌≡◌, refl, sym, ◌∙◌, ap, fun_ext, String, Bool, true, false, not, ◌&&◌, List, [], ◌∷◌, any,
  keep, arith, ltb, str_eq, if◌then◌else◌, inl,
}
use route_sync.Base.Int.{ℤ, pos, eqb_ℤ, eq_of_eqb_ℤ}
use route_sync.Base.Result.{Result, ok, err, err≢ok, state_of_eq}
use route_sync.Netip.{Addr, Prefix, zero_addr, ip4, ip6, is4, is6, is_valid, masked, eqb_prefix}
use route_sync.Netip.Laws.{eqb_prefix_iff}
use route_sync.Rtnl.{Route, Rule}
use route_sync.Rtnl.Netlink.{
  Netlink, NlRoute, NlRule, to_nl_route, to_nl_rule, listed_routes, listed_rules, netlink_kernel,
}
use route_sync.Rtnl.Netlink.RoundTrip.{
  IsWire, IsDst, IsPlanned, anonymous, listed_routes-anonymous, IsPlannedRule,
  listed_rules-anonymous_rule,
}
use route_sync.Planner.{route_key, rule_key}
use route_sync.Reconcile.Kernel.{
  seen, same_rule, RoutesLaw, RulesLaw, netlink_kernel-IsTable, netlink_kernel-IsRuleTable,
}
use route_sync.Reconcile.Routes.Table.{same_slot, same_key, IsTable}
use route_sync.Reconcile.Rules.Table.{IsRuleTable}
use route_sync.Tests.Machine.{net_text}

record Entries : Type 0 where
  routes : List NlRoute
  rules : List NlRule

-- What the test says of the one route that is listed
abbrev on_one : {A : Type 0} → (A → Bool) → List A → Bool
on_one f [] = false
on_one f (x ∷ xs) = f x

abbrev taken_slot : NlRoute → Entries → Bool
taken_slot r s =
    on_one (λ x. any (λ q. same_slot net_text q x) (listed_routes s.routes))
      (listed_routes (r ∷ []))

abbrev like_route : NlRoute → List NlRoute → Bool
like_route r qs =
    on_one (λ x. any (same_key net_text x) (listed_routes qs)) (listed_routes (r ∷ []))

abbrev like_rule : NlRule → List NlRule → Bool
like_rule r qs =
    on_one (λ x. any (λ q. str_eq (rule_key net_text q) (rule_key net_text x)) (listed_rules qs))
      (listed_rules (r ∷ []))

-- The family of what is listed
abbrev of_nl_family : ℤ → Route → Bool
of_nl_family nl r = if eqb_ℤ nl (pos 10) then is6 r.dst.ip else is4 r.dst.ip

abbrev entries : Netlink
entries = record {
  State = Entries;
  link_by_name = λ name s. (ok (pos 2), s);
  route_list_filtered = λ nl table protocol s. (
    ok (
        keep
          (λ q.
            eqb_ℤ q.table table
            && eqb_ℤ q.protocol protocol
            && on_one (of_nl_family nl) (listed_routes (q ∷ [])))
          s.routes),
    s,
  );
  route_add = λ r s.
      if taken_slot r s then (err "exists", s) else (ok tt, record s { routes = r ∷ s.routes });
  route_del = λ r s.
      if like_route r s.routes
      then (ok tt, record s { routes = keep (λ q. not (like_route r (q ∷ []))) s.routes })
      else (err "missing", s);
  rule_list = λ family s. (ok s.rules, s);
  rule_add = λ r s.
      if like_rule r s.rules then (err "exists", s) else (ok tt, record s { rules = r ∷ s.rules });
  rule_del = λ r s.
      if like_rule r s.rules
      then (ok tt, record s { rules = keep (λ q. not (like_rule r (q ∷ []))) s.rules })
      else (err "missing", s);
  is_error = λ errno e. true;
}

abbrev Outcome : Type 0
Outcome = Result (Unit {0}) × Entries

refused :
    (b : Bool) (why : String) (s u t : Entries)
    → ◌≡◌ {A = Outcome} (if b then (err why, s) else (ok tt, u)) (ok tt, t)
    → (b ≡ false) × (u ≡ t)
refused true why s u t h = absurd (err≢ok why tt (ap (λ p. p.0) h))
refused false why s u t h = (refl, state_of_eq h)

granted :
    (b : Bool) (why e : String) (s u t : Entries)
    → ◌≡◌ {A = Outcome} (if b then (err why, s) else (ok tt, u)) (err e, t)
    → (b ≡ true) × (s ≡ t)
granted true why e s u t h = (refl, state_of_eq h)
granted false why e s u t h = absurd (err≢ok e tt (ap (λ p. p.0) (sym h)))

found :
    (b : Bool) (why : String) (s u t : Entries)
    → ◌≡◌ {A = Outcome} (if b then (ok tt, u) else (err why, s)) (ok tt, t)
    → u ≡ t
found true why s u t h = state_of_eq h
found false why s u t h = absurd (err≢ok why tt (ap (λ p. p.0) h))

lost :
    (b : Bool) (why e : String) (s u t : Entries)
    → ◌≡◌ {A = Outcome} (if b then (ok tt, u) else (err why, s)) (err e, t)
    → (b ≡ false) × (s ≡ t)
lost true why e s u t h = absurd (err≢ok e tt (ap (λ p. p.0) (sym h)))
lost false why e s u t h = (refl, state_of_eq h)

abbrev exact_addr : Addr → Bool
exact_addr zero_addr = true
exact_addr (ip4 n) = ltb n (2 ^ 32)
exact_addr (ip6 n z) = false

exact_addr-IsWire : (a : Addr) → exact_addr a ≡ true → IsWire a
exact_addr-IsWire zero_addr h = tt
exact_addr-IsWire (ip4 n) h = ground (arith, h)
exact_addr-IsWire (ip6 n z) h = cc

abbrev exact_prefix : Prefix → Bool
exact_prefix p = exact_addr p.ip && is_valid p && eqb_prefix (masked p) p

exact_prefix-IsDst : (p : Prefix) → exact_prefix p ≡ true → IsDst p
exact_prefix-IsDst p h = record {
  wire = exact_addr-IsWire p.ip (ground (arith, h));
  valid = ground (arith, h);
  whole = (eqb_prefix_iff (masked p) p).0 (ground (arith, h));
}

-- Unicast routes of IPv4
abbrev exact : Route → Bool
exact r = eqb_ℤ r.route_type (pos 0) && exact_addr r.via && exact_prefix r.dst

exact-IsPlanned : (r : Route) → exact r ≡ true → IsPlanned r
exact-IsPlanned r h = record {
  has_dst = exact_prefix-IsDst r.dst (ground (arith, h));
  has_via = exact_addr-IsWire r.via (ground (arith, h));
  has_type = inl (eq_of_eqb_ℤ r.route_type (pos 0) (ground (arith, h)));
}

listed : (r : Route) → exact r ≡ true → listed_routes (to_nl_route r ∷ []) ≡ anonymous r ∷ []
unfolding listed_routes
listed r x = listed_routes-anonymous r [] (exact-IsPlanned r x)

slot_of :
    (r : Route) (s : Entries)
    → exact r ≡ true
    → taken_slot (to_nl_route r) s ≡ any (λ q. same_slot net_text q r) (listed_routes s.routes)
slot_of r s x =
    ap (on_one (λ y. any (λ q. same_slot net_text q y) (listed_routes s.routes))) (listed r x)

like_of :
    (r : Route) (qs : List NlRoute)
    → exact r ≡ true
    → like_route (to_nl_route r) qs ≡ any (same_key net_text r) (listed_routes qs)
unfolding route_key
like_of r qs x = ap (on_one (λ y. any (same_key net_text y) (listed_routes qs))) (listed r x)

entries-RoutesLaw : RoutesLaw net_text entries (λ s. s.routes) exact
entries-RoutesLaw = record {
  planned = exact-IsPlanned;
  added = λ r s t x e.
      let (free, end) = refused _ "exists" s (record s { routes = to_nl_route r ∷ s.routes }) t e in
      (ap (λ u. u.routes) (sym end), sym (slot_of r s x) ∙ free);
  taken = λ r s t why x e y.
      let (occupied, end) =
        granted _ "exists" why s (record s { routes = to_nl_route r ∷ s.routes }) t e in
      (ap (λ u. u.routes) (sym end), sym (slot_of r s x) ∙ occupied);
  deleted = λ r s t x e.
      ap (λ u. u.routes) (sym (found _ "missing" s _ t e))
      ∙ ap (λ f. keep f s.routes) (fun_ext (λ q. ap not (like_of r (q ∷ []) x)));
  missing = λ r s t why x e y.
      let (absent, end) = lost _ "missing" why s _ t e in
      (ap (λ u. u.routes) (sym end), sym (like_of r s.routes x) ∙ absent);
}

netlink_kernel-IsTable_example :
    IsTable net_text (netlink_kernel entries) (seen entries (λ s. listed_routes s.routes))
netlink_kernel-IsTable_example =
    netlink_kernel-IsTable net_text entries (λ s. s.routes) exact entries-RoutesLaw

-- Rules with a mark and a source in IPv4
abbrev exact_rule : Rule → Bool
exact_rule r = r.has_fw_mark && exact_prefix r.from

exact_rule-IsPlannedRule : (r : Rule) → exact_rule r ≡ true → IsPlannedRule r
exact_rule-IsPlannedRule r h = record {
  has_source = inl (exact_prefix-IsDst r.from (ground (arith, h)));
  has_mark = λ e. ground (arith, h, e);
}

like_of_rule :
    (r : Rule) (qs : List NlRule)
    → exact_rule r ≡ true
    → like_rule (to_nl_rule r) qs ≡ any (same_rule net_text entries r) (listed_rules qs)
unfolding rule_key listed_rules
like_of_rule r qs x =
    ap
      (on_one
        (λ y. any (λ q. str_eq (rule_key net_text q) (rule_key net_text y)) (listed_rules qs)))
      (listed_rules-anonymous_rule r [] (exact_rule-IsPlannedRule r x))

entries-RulesLaw : RulesLaw net_text entries (λ s. s.rules) exact_rule
entries-RulesLaw = record {
  planned = exact_rule-IsPlannedRule;
  added = λ r s t x e.
      let (free, end) = refused _ "exists" s (record s { rules = to_nl_rule r ∷ s.rules }) t e in
      (ap (λ u. u.rules) (sym end), sym (like_of_rule r s.rules x) ∙ free);
  taken = λ r s t why x e y.
      let (occupied, end) =
        granted _ "exists" why s (record s { rules = to_nl_rule r ∷ s.rules }) t e in
      (ap (λ u. u.rules) (sym end), sym (like_of_rule r s.rules x) ∙ occupied);
  deleted = λ r s t x e.
      ap (λ u. u.rules) (sym (found _ "missing" s _ t e))
      ∙ ap (λ f. keep f s.rules) (fun_ext (λ q. ap not (like_of_rule r (q ∷ []) x)));
  missing = λ r s t why x e y.
      let (absent, end) = lost _ "missing" why s _ t e in
      (ap (λ u. u.rules) (sym end), sym (like_of_rule r s.rules x) ∙ absent);
}

netlink_kernel-IsRuleTable_example :
    IsRuleTable net_text (netlink_kernel entries) (seen entries (λ s. listed_rules s.rules))
netlink_kernel-IsRuleTable_example =
    netlink_kernel-IsRuleTable net_text entries (λ s. s.rules) exact_rule entries-RulesLaw
