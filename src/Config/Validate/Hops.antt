-- ===== src/Config/Validate/Hops.antt =====
-- What validateHealthCheck and validateNextHop of internal/config/config.go leave.
use route_sync.Base.{
  ℕ, suc, ◌≡◌, ◌≢◌, refl, String, ◌<>◌, Bool, true, false, not, ◌&&◌, some, List, [], ◌∷◌, ◌++◌,
  arith, All, All-map, str_eq, str_eq_iff, Option-cases, inl, inr,
}
use route_sync.Base.Int.{pos, ltb_ℤ, show_ℕ}
use route_sync.Base.Text.{trim_space}
use route_sync.Netip.{Addr, is4, is6, is_valid_addr}
use route_sync.Netip.Text.{NetipText}
use route_sync.Config.{HealthCheck, GatewayConfig, NextHopConfig}
use route_sync.Config.Validate.{
  error_if, errors_each, merged_hop, validate_health_target, validate_health_check, validate_via,
  validate_via4, validate_via6, validate_single_hop, validate_gateways, validate_next_hop,
}

module _ {ℓ} {A : Type ℓ} where
  pub append-eq-nil : (xs ys : List A) → xs ++ ys ≡ [] → (xs ≡ []) × (ys ≡ [])
  append-eq-nil [] ys h = (refl, h)
  append-eq-nil (x ∷ xs) ys h = cc

module _ {ℓ} {A : Type ℓ} where
  pub errors_each-eq-nil :
      (f : A → List String) (xs : List A) → errors_each f xs ≡ [] → All (λ x. f x ≡ []) xs
  errors_each-eq-nil f [] h = tt
  errors_each-eq-nil f (x ∷ xs) h =
      let (e, es) = append-eq-nil (f x) (errors_each f xs) h in (e, errors_each-eq-nil f xs es)

pub error_if-eq-nil : (b : Bool) (m : String) → error_if b m ≡ [] → b ≡ false
error_if-eq-nil b m h = ground arith

-- A text is empty, or parses to an address that passes the test.
abbrev pub ParsesTo : NetipText → (Addr → Bool) → String → Type 0
ParsesTo text test s = (s ≢ "") → (a : Addr) × (text.parse_addr s ≡ some a) × (test a ≡ true)

module _ (text : NetipText) where
  abbrev pub IsProbed : String → Type 0
  IsProbed raw = (a : Addr) × (text.parse_addr raw ≡ some a) × (is_valid_addr a ≡ true)

  -- Every target is an address, and the timeout is not negative.
  pub record IsValidCheck (hc : HealthCheck) : Type 0 where
    pub targets : All IsProbed hc.targets
    pub timeout : ltb_ℤ hc.timeout (pos 0) ≡ false

  -- A hop with no gateways, which has a device if it must, and addresses of their families; `via` is
  -- no address of a dual group without `via4` and `via6`.
  pub record IsValidSingle (family : String) (h : NextHopConfig) (require_dev : Bool) : Type 0 where
    pub check : IsValidCheck h.health_check
    pub has_dev : (require_dev && str_eq h.dev "") ≡ false
    pub via_family :
        ParsesTo text
          (λ a. not (str_eq family "dual" && str_eq h.via4 "" && str_eq h.via6 ""))
          h.via
    pub via4_family : ParsesTo text is4 h.via4
    pub via6_family : ParsesTo text is6 h.via6

  -- A gateway of a hop, with what it takes over from the hop
  pub record IsValidGateway (family : String) (h : NextHopConfig) (gw : GatewayConfig)
      : Type 0 where
    pub has_via : (str_eq gw.via "" && str_eq gw.via4 "" && str_eq gw.via6 "") ≡ false
    pub not_blank : (not (str_eq gw.name "") && str_eq (trim_space gw.name) "") ≡ false
    pub alone : IsValidSingle family (merged_hop h gw) true

  pub record IsValidHop (family : String) (h : NextHopConfig) (require_dev : Bool) : Type 0 where
    pub check : IsValidCheck h.health_check
    pub alone : h.gateways ≡ [] → IsValidSingle family h require_dev
    pub each_gateway : All (IsValidGateway family h) h.gateways

  validate_health_target-IsProbed :
      (path raw : String) → validate_health_target text path raw ≡ [] → IsProbed raw
  unfolding validate_health_target
  validate_health_target-IsProbed path raw h = elim (Option-cases (text.parse_addr raw)) [
    | inl e ↦ ground (arith, e)
    | inr (a, e) ↦ (a, e, ground (arith, e))
  ]

  check-IsValidCheck :
      (path : String) (hc : HealthCheck) → validate_health_check text path hc ≡ [] → IsValidCheck hc
  unfolding validate_health_check
  check-IsValidCheck path hc e =
      let (e₁, e₂) =
        append-eq-nil (errors_each (validate_health_target text path) hc.targets) _ e in
      record {
        targets =
            All-map (λ raw. validate_health_target-IsProbed path raw) hc.targets
              (errors_each-eq-nil (validate_health_target text path) hc.targets e₁);
        timeout = error_if-eq-nil _ (path <> ".timeout must be positive") e₂;
      }

  via-ParsesTo :
      (path family : String) (h : NextHopConfig)
      → validate_via text path family h ≡ []
      → ParsesTo text
          (λ a. not (str_eq family "dual" && str_eq h.via4 "" && str_eq h.via6 ""))
          h.via
  unfolding validate_via
  via-ParsesTo path family h e filled = elim (Option-cases (text.parse_addr h.via)) [
    | inl n ↦ ground (arith, str_eq_iff h.via "")
    | inr (a, n) ↦ (a, n, ground (arith, str_eq_iff h.via "", n))
  ]

  via4-ParsesTo : (path via4 : String) → validate_via4 text path via4 ≡ [] → ParsesTo text is4 via4
  unfolding validate_via4
  via4-ParsesTo path via4 h filled = elim (Option-cases (text.parse_addr via4)) [
    | inl e ↦ ground (arith, str_eq_iff via4 "")
    | inr (a, e) ↦ (a, e, ground (arith, str_eq_iff via4 "", e))
  ]

  via6-ParsesTo : (path via6 : String) → validate_via6 text path via6 ≡ [] → ParsesTo text is6 via6
  unfolding validate_via6
  via6-ParsesTo path via6 h filled = elim (Option-cases (text.parse_addr via6)) [
    | inl e ↦ ground (arith, str_eq_iff via6 "")
    | inr (a, e) ↦ (a, e, ground (arith, str_eq_iff via6 "", e))
  ]

  single_hop-IsValidSingle :
      (path family : String) (h : NextHopConfig) (require_dev : Bool)
      → validate_single_hop text path family h require_dev ≡ []
      → IsValidSingle family h require_dev
  unfolding validate_single_hop
  single_hop-IsValidSingle path family h require_dev e =
      let (e₁, r₁) =
        append-eq-nil (validate_health_check text (path <> ".health_check") h.health_check) _ e in
      let (e₂, r₂) =
        append-eq-nil (error_if (require_dev && str_eq h.dev "") (path <> ".dev is required")) _
          r₁ in
      let (e₃, r₃) = append-eq-nil (validate_via text path family h) _ r₂ in
      let (e₄, e₅) = append-eq-nil (validate_via4 text path h.via4) _ r₃ in
      record {
        check = check-IsValidCheck (path <> ".health_check") h.health_check e₁;
        has_dev = error_if-eq-nil _ (path <> ".dev is required") e₂;
        via_family = via-ParsesTo path family h e₃;
        via4_family = via4-ParsesTo path h.via4 e₄;
        via6_family = via6-ParsesTo path h.via6 e₅;
      }

  gateways-IsValidGateway :
      (path family : String) (h : NextHopConfig) (i : ℕ) (gws : List GatewayConfig)
      → validate_gateways text path family h i gws ≡ []
      → All (IsValidGateway family h) gws
  unfolding validate_gateways merged_hop
  gateways-IsValidGateway path family h i [] e = tt
  gateways-IsValidGateway path family h i (gw ∷ gws) e =
      let gw_path = path <> (".gateways[" <> (show_ℕ i <> "]")) in
      let merged = merged_hop h gw in
      let (e₁, r₁) =
        append-eq-nil
          (error_if (str_eq merged.via "" && str_eq merged.via4 "" && str_eq merged.via6 "")
            (gw_path <> " must define via, via4, or via6"))
          _ e in
      let (e₂, r₂) =
        append-eq-nil
          (error_if (not (str_eq gw.name "") && str_eq (trim_space gw.name) "")
            (gw_path <> ".name must not be blank"))
          _ r₁ in
      let (_, r₃) =
        append-eq-nil (validate_health_check text (gw_path <> ".health_check") merged.health_check)
          _ r₂ in
      let (e₄, r₄) = append-eq-nil (validate_single_hop text gw_path family merged true) _ r₃ in
      (
        record {
          has_via = error_if-eq-nil _ (gw_path <> " must define via, via4, or via6") e₁;
          not_blank = error_if-eq-nil _ (gw_path <> ".name must not be blank") e₂;
          alone = single_hop-IsValidSingle gw_path family merged true e₄;
        },
        gateways-IsValidGateway path family h (suc i) gws r₄,
      )

  pub next_hop-IsValidHop :
      (path family : String) (h : NextHopConfig) (require_dev : Bool)
      → validate_next_hop text path family h require_dev ≡ []
      → IsValidHop family h require_dev
  unfolding validate_next_hop
  next_hop-IsValidHop path family h require_dev = by_gateways h.gateways
    where
      by_gateways :
          (gws : List GatewayConfig)
          → validate_next_hop text path family (record h { gateways = gws }) require_dev ≡ []
          → IsValidHop family (record h { gateways = gws }) require_dev
      by_gateways [] e =
          let alone =
            single_hop-IsValidSingle path family (record h { gateways = [] }) require_dev e in
          record { check = alone.check; alone = λ none_given. alone; each_gateway = tt }
      by_gateways (gw ∷ gws) e =
          let hop : NextHopConfig = record h { gateways = gw ∷ gws } in
          let (e₁, e₂) =
            append-eq-nil (validate_health_check text (path <> ".health_check") h.health_check) _
              e in
          record {
            check = check-IsValidCheck (path <> ".health_check") h.health_check e₁;
            alone = λ none_given. cc;
            each_gateway = gateways-IsValidGateway path family hop 0 (gw ∷ gws) e₂;
          }
