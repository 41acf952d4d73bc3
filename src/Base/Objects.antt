-- ===== src/Base/Objects.antt =====
-- The texts of JSON objects.
use Prim.Native.String.{String, ◌++◌}
use mathlib.Core.List.{List, [], ◌∷◌}

-- The value of a member: a string, or the text of a number.
pub data Member : Type 0 where
  quoted plain : String → Member

abbrev quote : Member → String
quote (quoted s) = "\""
quote (plain s) = ""

abbrev content : Member → String
content (quoted s) = s
content (plain s) = s

-- The members, behind what stands right before them.
abbrev write_members : String → List (String × Member) → String
write_members before [] = before ++ "}"
write_members before ((name, value) ∷ fields) =
    (before ++ ",\"" ++ name ++ "\":" ++ quote value)
    ++ (content value ++ write_members (quote value) fields)

-- An object without spaces, whose first member is its type.
abbrev pub typed_text : String → List (String × Member) → String
typed_text type fields = write_members ("{\"type\":\"" ++ type ++ "\"") fields
