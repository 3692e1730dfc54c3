-- ===== src/Logging.antt =====
-- internal/util/logger.go: the logger of a node. Package zap is a parameter: how it reads the name of
-- a level, and whether it builds a logger of a format and a level.
use mini_ipfs.Prelude.{Bool, Option, none, some, ◌∷◌, [], eq_bytes, if◌then◌else◌, Bytes, ℤ}
use mini_ipfs.Config.{LoggingConfig}

-- What the model uses of package zap.
pub record Zap : Type 0 where
  pub parse_level : Bytes → Option ℤ
  pub build : (console : Bool) → (level : ℤ) → Bool

-- The global `Logger`.
pub record Logger : Type 0 where
  pub console : Bool
  pub level : ℤ
  pub node_id : Bytes

abbrev console_format : Bytes
console_format = b'c' ∷ b'o' ∷ b'n' ∷ b's' ∷ b'o' ∷ b'l' ∷ b'e' ∷ []

-- `InitLogger`, none where it returns an error.
unfoldable pub init_logger : Zap → LoggingConfig → (node_id : Bytes) → Option Logger
init_logger zap config node_id =
    let console = eq_bytes config.format console_format in
    elim (zap.parse_level config.level) [
      | none ↦ none
      | some level ↦
          if zap.build console level
          then some (record { console = console; level = level; node_id = node_id })
          else none
    ]
