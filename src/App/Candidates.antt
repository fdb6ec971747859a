-- ===== src/App/Candidates.antt =====
-- The gateways of internal/app/app.go: from the configuration to the candidates of health.Select,
-- and their resolution for the families of a group.
pub mod Families
pub mod Keeps
use route_sync.Base.{
  ℕ, zero, suc, ◌+◌, String, ◌<>◌, Bool, not, ◌&&◌, ◌||◌, Option, none, some, List, [], ◌∷◌, ◌++◌,
  keep, ◌==◌, str_eq, if◌then◌else◌,
}
use route_sync.Base.Int.{show_ℕ}
use route_sync.Base.Result.{ok, err, Action, after_ok}
use route_sync.Netip.{Addr, is4, is6, is_valid_addr}
use route_sync.Netip.Text.{NetipText}
use route_sync.Config.{
  HealthCheck, GatewayConfig, NextHopConfig, TargetConfig, coalesce, merge_health_checks,
}
use route_sync.Health.{Candidate, ResolvedHop, Probe, select}

-- filterCandidatesByFamily
unfoldable pub filter_candidates_by_family : List Candidate → ℕ → List Candidate
filter_candidates_by_family candidates family =
    keep (λ c. is_valid_addr c.via && ((family == 4 && is4 c.via) || (family == 6 && is6 c.via)))
      candidates

-- One `if s != "" { if addr, err := ParseAddr(s); err == nil { append } }` of candidatesFromHop
abbrev candidate_of : String → String → Bool → HealthCheck → Option Addr → List Candidate
candidate_of name dev on_link hc none = []
candidate_of name dev on_link hc (some addr) =
    record { name = name; dev = dev; on_link = on_link; via = addr; health_check = hc } ∷ []

-- firstNonEmpty
abbrev pub first_non_empty : List String → String
first_non_empty = coalesce

module _ (text : NetipText) where
  abbrev candidate_if : String → String → Bool → HealthCheck → String → List Candidate
  candidate_if name dev on_link hc via =
      if str_eq via "" then [] else candidate_of name dev on_link hc (text.parse_addr via)

  -- candidatesFromHop
  unfoldable pub candidates_from_hop :
      String → String → Bool → HealthCheck → String → String → String → List Candidate
  candidates_from_hop name dev on_link hc via v4 v6 =
      elim (candidate_if (name <> "-ipv4") dev on_link hc v4
        ++ candidate_if (name <> "-ipv6") dev on_link hc v6) [
          | [] ↦ candidate_if name dev on_link hc via
          | c ∷ cs ↦ c ∷ cs
        ]

  -- candidatesFromGateway
  unfoldable pub candidates_from_gateway :
      GatewayConfig → String → Bool → HealthCheck → ℕ → List Candidate
  unfolding candidates_from_hop coalesce merge_health_checks
  candidates_from_gateway gw fallback_dev fallback_on_link parent_hc index =
      candidates_from_hop (if str_eq gw.name "" then "gw" <> show_ℕ (index + 1) else gw.name)
        (first_non_empty (gw.dev ∷ fallback_dev ∷ [])) (gw.on_link || fallback_on_link)
        (merge_health_checks parent_hc gw.health_check) gw.via gw.via4 gw.via6

  -- The loops of gatewaysFromTarget and gatewaysFromNextHop, from index i on.
  unfoldable pub gateway_candidates :
      String → Bool → HealthCheck → ℕ → List GatewayConfig → List Candidate
  unfolding candidates_from_gateway
  gateway_candidates dev on_link hc i [] = []
  gateway_candidates dev on_link hc i (gw ∷ gws) =
      candidates_from_gateway gw dev on_link hc i ++ gateway_candidates dev on_link hc (suc i) gws

  -- gatewaysFromNextHop
  unfoldable pub gateways_from_next_hop : NextHopConfig → List Candidate
  unfolding gateway_candidates
  gateways_from_next_hop next = elim next.gateways [
    | [] ↦
        candidates_from_hop "primary" next.dev next.on_link next.health_check next.via next.via4
          next.via6
    | gw ∷ gws ↦ gateway_candidates next.dev next.on_link next.health_check 0 (gw ∷ gws)
  ]

  -- gatewaysFromTarget
  unfoldable pub gateways_from_target : TargetConfig → List Candidate
  unfolding gateways_from_next_hop
  gateways_from_target target = elim target.gateways [
    | [] ↦ gateways_from_next_hop (record {
      dev = target.dev;
      via = target.via;
      via4 = target.via4;
      via6 = target.via6;
      on_link = target.on_link;
      health_check = target.health_check;
      gateways = [];
    })
    | gw ∷ gws ↦ gateway_candidates target.dev target.on_link target.health_check 0 (gw ∷ gws)
  ]

-- The two tests of resolveCandidates on the family.
unfoldable pub resolves_v4 : String → Bool
resolves_v4 family = str_eq family "" || str_eq family "dual" || str_eq family "ipv4"

unfoldable pub resolves_v6 : String → Bool
resolves_v6 family = str_eq family "dual" || str_eq family "ipv6"

module _ {S : Type 0} (w : Probe S) where
  abbrev pub select_if : Bool → String → String → List Candidate → Action S (List ResolvedHop)
  select_if wanted family scope candidates s =
      if wanted then select w family scope candidates s else (ok [], s)

  -- resolveCandidates, with the scope already joined to the group's name
  unfoldable pub resolve_candidates : String → String → List Candidate → Action S (List ResolvedHop)
  unfolding resolves_v4 resolves_v6 filter_candidates_by_family
  resolve_candidates scope family [] s = (ok [], s)
  resolve_candidates scope family (c ∷ cs) s =
      after_ok
        (select_if (resolves_v4 family) "ipv4" scope (filter_candidates_by_family (c ∷ cs) 4) s)
        (λ v4 t.
          after_ok
            (select_if (resolves_v6 family) "ipv6" scope (filter_candidates_by_family (c ∷ cs) 6) t)
            (λ v6 u. (ok (v4 ++ v6), u)) (λ e u. (err e, u)))
        (λ e t. (err e, t))

  -- resolveTargetHops
  unfoldable pub resolve_target_hops :
      NetipText → String → String → TargetConfig → Action S (List ResolvedHop)
  unfolding resolve_candidates gateways_from_target
  resolve_target_hops text group family target =
      resolve_candidates (group <> ".target") family (gateways_from_target text target)

  -- resolveDefaultHops
  unfoldable pub resolve_default_hops :
      NetipText → String → String → Option NextHopConfig → Action S (List ResolvedHop)
  unfolding resolve_candidates gateways_from_next_hop
  resolve_default_hops text group family none s = (ok [], s)
  resolve_default_hops text group family (some next) s =
      resolve_candidates (group <> ".default") family (gateways_from_next_hop text next) s
