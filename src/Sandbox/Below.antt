-- ===== src/Sandbox/Below.antt =====
-- internal/sandbox/sandbox.go: which team directories WrapCommand makes the only writable ones.
use agentary.Prelude.{String, ◌++◌}
use Prim.Native.String.{◌++◌ as str_append}
