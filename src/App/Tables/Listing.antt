-- ===== src/App/Tables/Listing.antt =====
-- ListRoutes and ListRules of internal/rtnl/netlink_linux.go as the listings of App.Tables.
use route_sync.Base.{◌≡◌, sym, ◌∙◌, ap, Bool, ◌&&◌, List, [], ◌∷◌, any, keep}
use route_sync.Base.Int.{ℤ, eqb_ℤ}
use route_sync.Base.Result.{ok, after_ok-eq-ok, value_of_eq, state_of_eq}
use route_sync.Rtnl.{Route, Rule}
use route_sync.Rtnl.Netlink.{
  Netlink, NlRoute, NlRule, nl_family, from_nl_rule, listed_routes, listed_rules, list_rules,
}
use route_sync.Rtnl.Netlink.Listed.{listed_rules-filter}
use route_sync.App.Tables.{Lists}

module _ (n : Netlink) where
  -- What netlink documents of its listings: the entries of the family, and of the table and the
  -- protocol that the filter names. `of_family` says which they are, and agrees with `shown` on what
  -- the program makes of them.
  pub record ListingLaw (view : n.State → List NlRoute) (of_family : ℤ → NlRoute → Bool)
      (shown : ℤ → Route → Bool) : Type 0 where
    pub listed :
        (table family protocol : ℤ) (s t : n.State) (rs : List NlRoute)
        → n.route_list_filtered (nl_family family) table protocol s ≡ (ok rs, t)
        → (view t ≡ view s)
          × (rs
              ≡ keep
                  (λ q. eqb_ℤ q.table table && eqb_ℤ q.protocol protocol && of_family family q)
                  (view s))
    pub agrees :
        (family : ℤ) (q : NlRoute) (r : Route)
        → listed_routes (q ∷ []) ≡ r ∷ []
        → of_family family q ≡ shown family r

  -- What netlink documents of its listing of rules: those of the family.
  pub record RuleListingLaw (view : n.State → List NlRule) (of_family : ℤ → NlRule → Bool)
      (shown : ℤ → Rule → Bool) : Type 0 where
    pub listed :
        (family : ℤ) (s t : n.State) (rs : List NlRule)
        → n.rule_list (nl_family family) s ≡ (ok rs, t)
        → (view t ≡ view s) × (rs ≡ keep (of_family family) (view s))
    pub agrees : (family : ℤ) (q : NlRule) → of_family family q ≡ shown family (from_nl_rule q)

  -- ListRules is the listing that IsMachine asks for: it lists the entries of the family, and changes
  -- nothing.
  pub list_rules-Lists :
      (view : n.State → List NlRule) (of_family : ℤ → NlRule → Bool) (shown : ℤ → Rule → Bool)
      → RuleListingLaw view of_family shown
      → (family : ℤ) → Lists (λ s. listed_rules (view s)) (list_rules n family) (shown family)
  unfolding list_rules
  list_rules-Lists view of_family shown law family s t xs e =
      let (rs, u, e₁, e₂) = after_ok-eq-ok (n.rule_list (nl_family family) s) _ e in
      let (same, filtered) = law.listed family s u rs e₁ in
      (
        λ f.
            ap (any f) (sym (value_of_eq e₂) ∙ ap listed_rules filtered)
            ∙ listed_rules-filter (of_family family) (shown family) f (law.agrees family) (view s),
        ap listed_rules (ap view (sym (state_of_eq e₂)) ∙ same),
      )
