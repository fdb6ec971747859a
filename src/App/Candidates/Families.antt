-- ===== src/App/Candidates/Families.antt =====
-- resolveCandidates of internal/app/app.go, by the family of the group.
use route_sync.Base.{
  ℕ, ◌+◌, ◌≡◌, refl, ◌∙◌, ap, ap₂, String, Bool, true, false, ◌&&◌, ◌||◌, List, str_eq, [], ◌∷◌,
  arith, count, count-append, if◌then◌else◌,
}
use route_sync.Base.Result.{ok, after_ok-eq-ok, value_of_eq}
use route_sync.Netip.{Addr, is4, is6, is_valid_addr}
use route_sync.Health.{Candidate, ResolvedHop, Probe}
use route_sync.Health.Order.{of_hop, of_candidate, count-select}
use route_sync.App.Candidates.{
  filter_candidates_by_family, resolves_v4, resolves_v6, select_if, resolve_candidates,
}

abbrev pub on4 : (String → Bool → Addr → Bool) → String → Bool → Addr → Bool
on4 f dev on_link via = is4 via && f dev on_link via

abbrev pub on6 : (String → Bool → Addr → Bool) → String → Bool → Addr → Bool
on6 f dev on_link via = is6 via && f dev on_link via

abbrev pub when : Bool → ℕ → ℕ
when b n = if b then n else 0

module _ (f : String → Bool → Addr → Bool) where
  count-filter4 :
      (cs : List Candidate)
      → count (of_candidate f) (filter_candidates_by_family cs 4) ≡ count (of_candidate (on4 f)) cs
  unfolding filter_candidates_by_family is4 is_valid_addr
  count-filter4 [] = refl
  count-filter4 (c ∷ cs) = ground (arith, count-filter4 cs)

  count-filter6 :
      (cs : List Candidate)
      → count (of_candidate f) (filter_candidates_by_family cs 6) ≡ count (of_candidate (on6 f)) cs
  unfolding filter_candidates_by_family is6 is_valid_addr
  count-filter6 [] = refl
  count-filter6 (c ∷ cs) = ground (arith, count-filter6 cs)

  module _ {S : Type 0} (w : Probe S) where
    count-select_if :
        (wanted : Bool) (family scope : String) (cs : List Candidate) (s t : S)
        (out : List ResolvedHop)
        → select_if w wanted family scope cs s ≡ (ok out, t)
        → count (of_hop f) out ≡ when wanted (count (of_candidate f) cs)
    count-select_if true family scope cs s t out e = count-select w family scope f cs s t out e
    count-select_if false family scope cs s t out e = rw (← value_of_eq e)

    -- When resolveCandidates succeeds, its result has each IPv4 gateway if the family is "", "dual"
    -- or "ipv4", each IPv6 gateway if the family is "dual" or "ipv6", as often as they are among
    -- the candidates, and nothing else.
    pub count-resolve_candidates :
        (scope family : String) (cs : List Candidate) (s t : S) (out : List ResolvedHop)
        → resolve_candidates w scope family cs s ≡ (ok out, t)
        → count (of_hop f) out
          ≡ when
              (str_eq family "" || str_eq family "dual" || str_eq family "ipv4")
              (count (of_candidate (on4 f)) cs)
            + when (str_eq family "dual" || str_eq family "ipv6") (count (of_candidate (on6 f)) cs)
    unfolding resolve_candidates resolves_v4 resolves_v6
    count-resolve_candidates scope family [] s t out e = rw (← value_of_eq e) (ground arith)
    count-resolve_candidates scope family (c ∷ cs) s t out e =
        let (v4, u, e₄, e') =
          after_ok-eq-ok
            (select_if w (resolves_v4 family) "ipv4" scope (filter_candidates_by_family (c ∷ cs) 4)
              s)
            _ e in
        let (v6, v, e₆, e'') =
          after_ok-eq-ok
            (select_if w (resolves_v6 family) "ipv6" scope (filter_candidates_by_family (c ∷ cs) 6)
              u)
            _ e' in
        rw (← value_of_eq e'') (
          count-append (of_hop f) v4 v6
          ∙ ap₂ ◌+◌
              (count-select_if (resolves_v4 family) "ipv4" scope _ s u v4 e₄
                ∙ ap (when (resolves_v4 family)) (count-filter4 (c ∷ cs)))
              (count-select_if (resolves_v6 family) "ipv6" scope _ u v v6 e₆
                ∙ ap (when (resolves_v6 family)) (count-filter6 (c ∷ cs))))
