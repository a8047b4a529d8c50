-- ===== src/RuntimeConfig.antt =====
-- controller/runtime_config/runtime_config.c: the option that switches sessions off.
use mathlib.Core.Bool.{Bool, not}
use Prim.Native.String.{String}

-- `load_runtime_config`, with what `access` says of a file: the value that `use_sessions` returns
-- from then on.
pub load_runtime_config : (String → Bool) → Bool
load_runtime_config file_exists = not (file_exists "controller_disable_sessions")
