-- ===== src/Paths.antt =====
-- What internal/agent/files.go, internal/agent/process.go and internal/csi/hostpath/hostpath.go use
-- of Go's path/filepath, on Unix. A path stands here as what filepath.Clean makes of it.
pub mod Print
pub mod Laws
use Prim.Native.Char.{Char, code}
use nimbuscore.Prelude.{
  ℕ, String, Bool, true, false, not, ◌&&◌, ◌||◌, List, [], ◌∷◌, ◌++◌, map, Option, none, some, ◌==◌,
  eqb, if◌then◌else◌,
}

-- A cleaned path: from the root or not, and its segments from the outermost on. The path with no
-- segment is "/" or ".".
pub record FilePath : Type 0 where
  pub rooted : Bool
  pub segments : List String

-- A character before the first of the pieces.
extend_first : Char → List String → List String
extend_first c [] = String.◌∷◌ c "" ∷ []
extend_first c (s ∷ r) = String.◌∷◌ c s ∷ r

-- strings.Split(s, "/")
unfoldable pub split : String → List String
unfolding extend_first
split String.[] = "" ∷ []
split (String.◌∷◌ c s) = let r = split s in if eqb (code c) b'/' then "" ∷ r else extend_first c r

abbrev pub is_rooted : String → Bool
is_rooted String.[] = false
is_rooted (String.◌∷◌ c s) = eqb (code c) b'/'

-- One segment of filepath.Clean, on the segments written so far, the last one first.
unfoldable pub climb : Bool → List String → List String
climb rooted [] = if rooted then [] else ".." ∷ []
climb rooted (s ∷ out) = if s == ".." then ".." ∷ s ∷ out else out

unfoldable pub enter : Bool → List String → String → List String
unfolding climb
enter rooted out s =
    if s == "" || s == "." then out else if s == ".." then climb rooted out else s ∷ out

unfoldable pub walk : Bool → List String → List String → List String
unfolding enter
walk rooted out [] = out
walk rooted out (s ∷ r) = walk rooted (enter rooted out s) r

unfoldable pub turn : List String → List String → List String
turn [] acc = acc
turn (s ∷ out) acc = turn out (s ∷ acc)

-- filepath.Clean of segments
unfoldable pub clean : Bool → List String → FilePath
unfolding walk turn
clean rooted r = record { rooted = rooted; segments = turn (walk rooted [] r) [] }

-- filepath.Clean(s)
unfoldable pub file_path : String → FilePath
unfolding clean split
file_path s = clean (is_rooted s) (split s)

-- filepath.Join(p, s), for a cleaned path that is not empty as a text
unfoldable pub join : FilePath → String → FilePath
unfolding clean split
join p s = clean p.rooted (p.segments ++ split s)

unfoldable pub join_each : FilePath → List String → FilePath
unfolding join
join_each p [] = p
join_each p (t ∷ ts) = join_each (join p t) ts

-- filepath.Join of several texts, where the first ones may be empty
unfoldable pub join_all : List String → FilePath
unfolding file_path join_each
join_all [] = file_path ""
join_all (s ∷ r) = let rest = join_all r in if s == "" then rest else join_each (file_path s) r

abbrev pub ups : List String → List String
ups = map (λ _. "..")

-- The walk of filepath.Rel along both paths.
unfoldable pub relate : List String → List String → Option (List String)
relate [] target = some target
relate (b ∷ base) [] = if b == ".." then none else some (".." ∷ ups base)
relate (b ∷ base) (t ∷ target) =
    let deeper = relate base target in
    if b == t then deeper else if b == ".." then none else some (".." ∷ ups base ++ t ∷ target)

-- filepath.Rel(base, target)
unfoldable pub rel : FilePath → FilePath → Option (List String)
unfolding relate
rel base target =
    if (base.rooted && not target.rooted) || (not base.rooted && target.rooted)
    then none
    else relate base.segments target.segments

abbrev pub but_last : List String → List String
but_last [] = []
but_last (s ∷ []) = []
but_last (s ∷ t ∷ r) = s ∷ but_last (t ∷ r)

-- filepath.Dir(p), for a cleaned path
unfoldable pub parent : FilePath → FilePath
parent p = record p { segments = but_last p.segments }

-- filepath.Dir(s)
unfoldable pub directory_of : String → FilePath
unfolding clean split
directory_of s = clean (is_rooted s) (but_last (split s))

-- The test of both callers of filepath.Rel: the relative path is "..", or it begins with "../".
abbrev pub leaves : List String → Bool
leaves [] = false
leaves (s ∷ r) = s == ".."

-- The target lies at the base or below it, as both callers test it.
unfoldable pub is_within : FilePath → FilePath → Bool
unfolding rel
is_within base target = elim (rel base target) [ none ↦ false | some r ↦ not (leaves r) ]
