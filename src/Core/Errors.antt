-- ===== src/Core/Errors.antt =====
-- `enum Error` of crates/core/src/lib.rs, with its `Display` text.
use seadog.Prelude.{◌++◌, Text, lit, Result}

pub data Error : Type 0 where
  config config_validation store not_found exhausted validation kento notify quorum_lost sqlite :
      Text → Error

-- The `#[error("…")]` attributes.
unfoldable pub error_text : Error → Text
error_text (config m) = lit "config error: " ++ m
error_text (config_validation m) = lit "config validation error: " ++ m
error_text (store m) = lit "store error: " ++ m
error_text (not_found m) = lit "not found: " ++ m
error_text (exhausted m) = lit "resource exhausted: " ++ m
error_text (validation m) = lit "validation error: " ++ m
error_text (kento m) = lit "kento error: " ++ m
error_text (notify m) = lit "notify error: " ++ m
error_text (quorum_lost m) = lit "quorum lost: " ++ m
error_text (sqlite m) = lit "sqlite error: " ++ m

-- `type Result<T>`
abbrev pub Fallible : Type 0 → Type 0
Fallible A = Result Error A
