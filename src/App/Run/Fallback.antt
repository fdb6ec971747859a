-- ===== src/App/Run/Fallback.antt =====
-- The last known good prefixes of a group in BuildPlan of internal/app/app.go.
use route_sync.Base.{◌≡◌, refl, ◌∙◌, ap, String, true, some, List, [], ◌∷◌, All}
use route_sync.Base.Result.{Result, ok, err, after_ok}
use route_sync.Netip.{Prefix}
use route_sync.Netip.Text.{NetipText}
use route_sync.Config.{RouteGroup, Config}
use route_sync.Metrics
use route_sync.Source.Parsers.Masked.{IsMasked}
use route_sync.Source.Normalize.{normalize}
use route_sync.Source.Normalize.Twice.{HasMasked, normalize-IsMasked, normalize_twice}
use route_sync.State.{Files, GroupState, parse_prefixes, path, save_group, load_group}
use route_sync.State.RoundTrip.{IsFileSystem, IsStorable, load_group-save_group}
use route_sync.App.World.{World, AppState, record_metric}
use route_sync.App.Plan.{
  fetch_source, has_provider, fetch_or_load, input_of, save_fetched, group_input, build_input,
}

module _ {S : Type 0} (files : Files S) (text : NetipText) (dir group : String) where
  -- LoadGroup looks at the machine only through the file.
  load_group-from :
      (s t : S)
      → files.read_file (path files text dir group) t
        ≡ ((files.read_file (path files text dir group) s).0, t)
      → load_group files text dir group t ≡ ((load_group files text dir group s).0, t)
  unfolding load_group
  load_group-from s t h = ap decode h ∙ same (files.read_file (path files text dir group) s)
    where
      decode : Result String × S → Result (List Prefix × GroupState) × S
      decode m =
          after_ok m
            (λ bytes u.
              after_ok (files.unmarshal bytes, u)
                (λ st v. (ok (parse_prefixes text st.prefixes, st), v)) (λ e v. (err e, v)))
            (λ e u. (err e, u))

      parsed : (r : Result GroupState) (u : S) → Result (List Prefix × GroupState) × S
      parsed r u =
          after_ok (r, u) (λ st v. (ok (parse_prefixes text st.prefixes, st), v))
            (λ e v. (err e, v))

      same_parsed : (r : Result GroupState) (u v : S) → parsed r v ≡ ((parsed r u).0, v)
      same_parsed (ok st) u v = refl
      same_parsed (err e) u v = refl

      same : (m : Result String × S) → decode (m.0, t) ≡ ((decode m).0, t)
      same (ok bytes, u) = same_parsed (files.unmarshal bytes) u t
      same (err e, u) = refl

module _ (w : World) (files_ok : IsFileSystem w.files) where
  IsStorable-of :
      (ps : List Prefix)
      → All IsMasked ps
      → All (λ p. w.text.parse_prefix (w.text.prefix_string p) ≡ some p) ps
      → All (IsStorable w.text) ps
  IsStorable-of [] m h = tt
  IsStorable-of (p ∷ ps) (mp, m) (hp, h) = ((mp, hp), IsStorable-of ps m h)

  -- A group whose source fails is planned with the prefixes that were last saved, and these are
  -- exactly those it was planned with then: normalised a second time they are the same, though they
  -- went through the file. It is assumed that SaveGroup succeeded and that the file is still as it
  -- was left, that the texts of the saved prefixes parse to them, and that valid prefixes of the
  -- source have valid masked forms.
  pub build_input-fallback :
      (cfg : Config) (g : RouteGroup) (raw : List Prefix) (e : String) (s t : w.kernel.State)
      (a b : AppState w.kernel.State)
      → has_provider w g ≡ true
      → All HasMasked raw
      → All
          (λ p. w.text.parse_prefix (w.text.prefix_string p) ≡ some p)
          (normalize raw cfg.global.enable_prefix_aggregation)
      → save_group w.files w.text cfg.global.state_dir g.name g.source.source_type
          (normalize raw cfg.global.enable_prefix_aggregation)
          s
        ≡ (ok tt, t)
      → fetch_source w g cfg a ≡ (err e, b)
      → w.files.read_file (path w.files w.text cfg.global.state_dir g.name) b.outside
        ≡ ((w.files.read_file (path w.files w.text cfg.global.state_dir g.name) t).0, b.outside)
      → build_input w cfg g a
        ≡ group_input w g cfg true
            (normalize raw cfg.global.enable_prefix_aggregation)
            (record_metric (Metrics.inc "source_fetch_failure_total") b)
  unfolding build_input fetch_or_load input_of save_fetched
  build_input-fallback cfg g raw e s t a b provider valid readable saved failed kept =
      let agg = cfg.global.enable_prefix_aggregation in
      let ps = normalize raw agg in
      let (st, loaded, _, _) =
        load_group-save_group w.files files_ok w.text cfg.global.state_dir g.name
          g.source.source_type ps s t (IsStorable-of ps (normalize-IsMasked raw agg) readable)
          saved in
      let again : load_group w.files w.text cfg.global.state_dir g.name b.outside
          ≡ (ok (ps, st), b.outside) =
        load_group-from w.files w.text cfg.global.state_dir g.name t b.outside kept
        ∙ ap (λ m. (m.0, b.outside)) loaded in
      rw (provider, failed, again)
        (ap
          (λ qs.
            group_input w g cfg true qs
              (record_metric (Metrics.inc "source_fetch_failure_total") b))
          (normalize_twice raw agg valid))
