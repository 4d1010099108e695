-- ===== src/Logger/Text.antt =====
-- `ToLower` of src/logger.cpp, over the C library's `tolower` of one character.
use Prim.Native.Char.{Char}
use Prim.Native.String.{String, [], ◌∷◌}

unfoldable pub to_lower : (Char → Char) → String → String
to_lower tolower [] = []
to_lower tolower (c ∷ s) = tolower c ∷ to_lower tolower s
