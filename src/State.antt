-- ===== src/State.antt =====
-- internal/state/state.go: the last known good prefixes of each group, in a file of the group.
-- The file system and encoding/json enter as a record of their operations.
pub mod RoundTrip
use route_sync.Base.{String, ◌<>◌, Bool, false, Option, none, some, List, [], ◌∷◌, map}
use route_sync.Base.Int.{ℤ}
use route_sync.Base.Result.{Result, ok, err, ◌>>=◌, Action, after_ok}
use route_sync.Netip.{Prefix, masked}
use route_sync.Netip.Text.{NetipText}

pub record GroupState : Type 0 where
  pub group : String
  pub source_type : String
  pub prefixes : List String
  pub fetched_at : ℤ
  pub from_fallback : Bool

-- What the store calls: os.MkdirAll, os.ReadFile, os.WriteFile, time.Now, filepath.Join and the
-- JSON of a GroupState, for which a file's bytes are a text.
pub record Files (S : Type 0) : Type 0 where
  pub mkdir_all : String → Action S (Unit {0})
  pub read_file : String → Action S String
  pub write_file : String → String → Action S (Unit {0})
  pub now : S → ℤ
  pub join : String → String → String
  pub marshal : GroupState → Result String
  pub unmarshal : String → Result GroupState

-- The loop of LoadGroup.
unfoldable pub parse_prefixes : NetipText → List String → List Prefix
parse_prefixes text [] = []
parse_prefixes text (raw ∷ rest) = elim (text.parse_prefix raw) [
  | none ↦ parse_prefixes text rest
  | some p ↦ masked p ∷ parse_prefixes text rest
]

module _ {S : Type 0} (files : Files S) (text : NetipText) where
  -- path, of a store in the directory
  unfoldable pub path : String → String → String
  path dir group = files.join dir (group <> ".json")

  -- SaveGroup
  unfoldable pub save_group : String → String → String → List Prefix → Action S (Unit {0})
  unfolding path
  save_group dir group source_type prefixes s =
      after_ok (files.mkdir_all dir s)
        (λ _ t.
          after_ok
            (
              files.marshal (record {
                group = group;
                source_type = source_type;
                prefixes = map text.prefix_string prefixes;
                fetched_at = files.now t;
                from_fallback = false;
              }),
              t,
            )
            (λ bytes u. files.write_file (path dir group) bytes u) (λ e u. (err e, u)))
        (λ e t. (err e, t))

  -- LoadGroup
  unfoldable pub load_group : String → String → Action S (List Prefix × GroupState)
  unfolding path parse_prefixes
  load_group dir group s =
      after_ok (files.read_file (path dir group) s)
        (λ bytes t.
          after_ok (files.unmarshal bytes, t)
            (λ st u. (ok (parse_prefixes text st.prefixes, st), u)) (λ e u. (err e, u)))
        (λ e t. (err e, t))
