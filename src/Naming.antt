-- ===== src/Naming.antt =====
-- The names that a model sees for key expressions and agents (src/istos/discovery/naming.py).
use istos.Prelude.{Bool, ◌&&◌, ◌||◌, String, leb, if◌then◌else◌, number_key, ◌==◌}
use Prim.Native.Char.{Char, code}

-- `[A-Za-z0-9_-]`
unfoldable pub name_safe : Char → Bool
name_safe c =
    leb b'A' (code c) && leb (code c) b'Z'
    || leb b'a' (code c) && leb (code c) b'z'
    || leb b'0' (code c) && leb (code c) b'9'
    || code c == b'_'
    || code c == b'-'

-- `_UNSAFE_NAME.sub("-", prefix)`
unfoldable pub tool_name : String → String
unfolding name_safe
tool_name String.[] = String.[]
tool_name (String.◌∷◌ c s) =
    let rest = tool_name s in if name_safe c then String.◌∷◌ c rest else String.◌∷◌ "-" rest
