-- ===== src/State/RoundTrip.antt =====
-- SaveGroup and then LoadGroup of internal/state/state.go.
use route_sync.Base.{◌≡◌, refl, ap, ap₂, String, false, some, List, [], ◌∷◌, All, map}
use route_sync.Base.Result.{ok, after_ok-eq-ok}
use route_sync.Netip.{Prefix, masked}
use route_sync.Netip.Text.{NetipText}
use route_sync.State.{GroupState, Files, parse_prefixes, path, save_group, load_group}

-- What the store relies on: a file that was written reads as it was written, and JSON that was
-- encoded decodes to what was encoded.
pub record IsFileSystem {S : Type 0} (files : Files S) : Type 0 where
  pub read_written :
      (name bytes : String) (s t : S)
      → files.write_file name bytes s ≡ (ok tt, t)
      → files.read_file name t ≡ (ok bytes, t)
  pub unmarshal_marshalled :
      (st : GroupState) (bytes : String)
      → files.marshal st ≡ ok bytes
      → files.unmarshal bytes ≡ ok st

-- A prefix in masked form whose text parses to it, as netip documents it for valid prefixes.
abbrev pub IsStorable : NetipText → Prefix → Type 0
IsStorable text p = (masked p ≡ p) × (text.parse_prefix (text.prefix_string p) ≡ some p)

parse_prefixes-map :
    (text : NetipText) (ps : List Prefix)
    → All (IsStorable text) ps
    → parse_prefixes text (map text.prefix_string ps) ≡ ps
unfolding parse_prefixes
parse_prefixes-map text [] h = refl
parse_prefixes-map text (p ∷ ps) ((e, f), h) =
    rw (f, parse_prefixes) (ap₂ ◌∷◌ e (parse_prefixes-map text ps h))

module _ {S : Type 0} (files : Files S) (lawful : IsFileSystem files) (text : NetipText) where
  -- After a SaveGroup that succeeds, LoadGroup of the same group returns the saved prefixes, if
  -- these are in masked form and their texts parse to them.
  pub load_group-save_group :
      (dir group source_type : String) (ps : List Prefix) (s t : S)
      → All (IsStorable text) ps
      → save_group files text dir group source_type ps s ≡ (ok tt, t)
      → (st : GroupState) × (load_group files text dir group t ≡ (ok (ps, st), t))
        × (st.group ≡ group)
        × (st.source_type ≡ source_type)
  unfolding save_group load_group
  load_group-save_group dir group source_type ps s t h e =
      let (_, u, _, e₁) = after_ok-eq-ok (files.mkdir_all dir s) _ e in
      let (bytes, v, e₂, e₃) = after_ok-eq-ok (files.marshal (stored u), u) _ e₁ in
      let read = lawful.read_written (path files text dir group) bytes v t e₃ in
      let decoded = lawful.unmarshal_marshalled (stored u) bytes (ap (λ p. p.0) e₂) in
      (
        stored u,
        rw (read, decoded) (ap (λ qs. (ok (qs, stored u), t)) (parse_prefixes-map text ps h)),
        refl,
        refl,
      )
    where
      stored : S → GroupState
      stored u = record {
        group = group;
        source_type = source_type;
        prefixes = map text.prefix_string ps;
        fetched_at = files.now u;
        from_fallback = false;
      }
