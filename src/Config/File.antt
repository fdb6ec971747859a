-- ===== src/Config/File.antt =====
-- The file of Load of internal/config/config.go, over os.ReadFile and the YAML package.
use route_sync.Base.{String}
use route_sync.Base.Result.{Result, err, Action, after_ok}
use route_sync.Config.{Config}

pub record ConfigFiles (S : Type 0) : Type 0 where
  pub read_file : String → Action S String
  pub unmarshal : String → Result Config

module _ {S : Type 0} (files : ConfigFiles S) where
  -- Load, up to ApplyDefaults
  unfoldable pub decode_file : String → Action S Config
  decode_file path s =
      after_ok (files.read_file path s) (λ bytes t. (files.unmarshal bytes, t)) (λ e t. (err e, t))
