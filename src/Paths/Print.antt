-- ===== src/Paths/Print.antt =====
-- The text of a cleaned path.
use Prim.Native.String.{◌++◌}
use nimbuscore.Prelude.{String, List, [], ◌∷◌, if◌then◌else◌}
use nimbuscore.Paths.{FilePath}

-- The text of segments with a separator between them.
unfoldable pub spell : List String → String
spell [] = ""
spell (s ∷ []) = s
spell (s ∷ t ∷ r) = s ++ "/" ++ spell (t ∷ r)

unfoldable pub print : FilePath → String
unfolding spell
print p =
    if p.rooted
    then "/" ++ spell p.segments
    else elim p.segments [ [] ↦ "." | _ ↦ spell p.segments ]
