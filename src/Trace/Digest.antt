-- ===== src/Trace/Digest.antt =====
-- The test of a checksum in `read_projection` of src/industrial_agent_runtime/trace.py.
use Prim.Native.Char.{Char, code}
use Prim.Native.String.{String, [], ◌∷◌, count}
use industrial_agent_runtime.Prelude.{Bool, true, ◌&&◌, ◌||◌, leb, eqb}

-- `char in "0123456789abcdef"`, by the numbers of the characters.
unfoldable pub is_hex : Char → Bool
is_hex c = leb 48 (code c) && leb (code c) 57 || leb 97 (code c) && leb (code c) 102

unfoldable pub all_hex : String → Bool
all_hex [] = true
all_hex (c ∷ s) = is_hex c && all_hex s

unfoldable pub is_digest : String → Bool
is_digest s = eqb (count s) 64 && all_hex s
