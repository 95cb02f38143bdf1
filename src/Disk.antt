-- ===== src/Disk.antt =====
-- What internal/agent and internal/csi/hostpath/hostpath.go use of Go's package os: a tree of
-- directories, files and symbolic links, each under its path without links on the way. Opening, writing
-- and making directories follow links; removing an entry, making a link and Lstat follow those on the
-- way to it, and RemoveAll is given a path without links (on ".", which it refuses, it counts as a call
-- that fails). A relative path is another one than any
-- absolute path. A call may fail for a reason of the machine's, and changes nothing then.
pub mod Laws
pub mod Links
pub mod Writes
use nimbuscore.Prelude.{
  ℕ, zero, suc, String, Bool, true, false, not, ◌&&◌, List, [], ◌∷◌, ◌++◌, Option, none, some, ◌==◌,
  if◌then◌else◌, keep, is_empty,
}
use nimbuscore.Paths.{FilePath, clean, is_within, parent, rel}

pub data Entry : Type 0 where
  directory : Entry
  file : List ℕ → Entry
  link : FilePath → Entry

abbrev pub Entries : Type 0
Entries = List (FilePath × Entry)

-- `fails n` says that the n-th call fails.
pub record Disk : Type 0 where
  pub entries : Entries
  pub calls : ℕ
  pub fails : ℕ → Bool

pub data Fault : Type 0 where
  missing other : Fault

pub data Outcome {ℓ} (A : Type ℓ) : Type ℓ where
  fine : A → Outcome A
  fault : Fault → Outcome A

unfoldable pub same_segments : List String → List String → Bool
same_segments [] [] = true
same_segments [] (t ∷ r) = false
same_segments (s ∷ l) [] = false
same_segments (s ∷ l) (t ∷ r) = s == t && same_segments l r

unfoldable pub same_bool : Bool → Bool → Bool
same_bool true b = b
same_bool false b = not b

unfoldable pub same : FilePath → FilePath → Bool
unfolding same_segments same_bool
same p q = same_bool p.rooted q.rooted && same_segments p.segments q.segments

unfoldable pub find : FilePath → Entries → Option Entry
find p [] = none
find p ((q, e) ∷ l) = if same q p then some e else find p l

unfoldable pub place : FilePath → Entry → Entries → Entries
place p e [] = (p, e) ∷ []
place p e ((q, d) ∷ l) = if same q p then (p, e) ∷ l else (q, d) ∷ place p e l

-- The root and the working directory are there.
abbrev pub is_directory : List String → Option Entry → Bool
is_directory [] e = true
is_directory (s ∷ r) (some directory) = true
is_directory (s ∷ r) _ = false

abbrev pub extend : FilePath → String → FilePath
extend p s = record p { segments = p.segments ++ s ∷ [] }

abbrev pub top : FilePath → FilePath
top p = record p { segments = [] }

-- Where a link in the directory `p` leads to.
abbrev pub target_from : FilePath → FilePath → FilePath
target_from p t = if t.rooted then t else clean p.rooted (p.segments ++ t.segments)

-- What `walk` does after finding an entry: `jump` goes on at a link's target.
abbrev pub at_entry :
    (FilePath → List String → Option FilePath)
    → FilePath
    → List String
    → Option FilePath
    → Option Entry
    → Option FilePath
at_entry jump p r onwards (some (link t)) = jump (target_from p t) r
at_entry jump p r onwards _ = onwards

-- The path without links that the segments lead to from the path `p`, which has none.
unfoldable pub walk :
    (FilePath → List String → Option FilePath) → Entries → FilePath → List String → Option FilePath
unfolding find clean
walk jump l p [] = some p
walk jump l p (s ∷ r) = at_entry jump p r (walk jump l (extend p s) r) (find (extend p s) l)

-- With this many links at most; behind them the system gives up.
unfoldable pub chase : ℕ → Entries → FilePath → List String → Option FilePath
unfolding walk
chase zero l q r = walk (λ t rest. none) l (top q) (q.segments ++ r)
chase (suc n) l q r = walk (chase n l) l (top q) (q.segments ++ r)

abbrev pub max_links : ℕ
max_links = 40

unfoldable pub follow : Entries → FilePath → Option FilePath
unfolding chase
follow l p = chase max_links l p []

-- The path with the links on the way to its last segment followed.
abbrev pub below : String → Option FilePath → Option FilePath
below s none = none
below s (some p) = some (extend p s)

abbrev pub last_of : List String → String
last_of [] = ""
last_of (s ∷ []) = s
last_of (s ∷ t ∷ r) = last_of (t ∷ r)

unfoldable pub follow_parent : Entries → FilePath → Option FilePath
follow_parent l p =
    if is_empty p.segments then some p else below (last_of p.segments) (follow l (parent p))

abbrev pub into : Entries → Option FilePath → Option (FilePath × Entries)
into l none = none
into l (some q) = if is_directory q.segments (find q l) then some (q, l) else none

-- One directory of os.MkdirAll, and where the next one is made.
abbrev pub entered : FilePath → Option Entry → Entries → Option (FilePath × Entries)
entered p none l = some (p, place p directory l)
entered p (some directory) l = some (p, l)
entered p (some (file b)) l = none
entered p (some (link q)) l = into l (follow l p)

-- The directories below `p` along the segments.
unfoldable pub ensure_each : FilePath → List String → Entries → Option Entries
unfolding find follow
ensure_each p [] l = some l
ensure_each p (s ∷ r) l = elim (entered (extend p s) (find (extend p s) l) l) [
  | none ↦ none
  | some (q, m) ↦ ensure_each q r m
]

abbrev pub Io : Type 0 → Type 0
Io A = Disk → Outcome A × Disk

abbrev pub give : {A : Type 0} → A → Io A
give a d = (fine a, d)

abbrev pub throw : {A : Type 0} → Fault → Io A
throw f d = (fault f, d)

-- The next call, done unless it fails.
unfoldable pub call : {A : Type 0} → Io A → Io A
call m d =
    let t = record d { calls = suc d.calls } in if d.fails d.calls then (fault other, t) else m t

abbrev pub kept : Option Entries → Io (Unit {0})
kept none d = (fault other, d)
kept (some l) d = (fine tt, record d { entries = l })

-- os.MkdirAll
unfoldable pub mkdir_all : FilePath → Io (Unit {0})
unfolding call ensure_each
mkdir_all p = call (λ d. kept (ensure_each (top p) p.segments d.entries) d)

abbrev pub looked : Option Entry → Outcome Entry
looked none = fault missing
looked (some e) = fine e

-- A call at the path that the links lead to.
abbrev pub at_real : {A : Type 0} → Option FilePath → (FilePath → Io A) → Io A
at_real none f d = (fault other, d)
at_real (some p) f d = f p d

abbrev pub entry_at : FilePath → Io Entry
entry_at p d = (if is_empty p.segments then fine directory else looked (find p d.entries), d)

-- os.Stat
unfoldable pub stat : FilePath → Io Entry
unfolding call find follow
stat p = call (λ d. at_real (follow d.entries p) entry_at d)

-- os.Lstat
unfoldable pub lstat : FilePath → Io Entry
unfolding call find follow follow_parent
lstat p = call (λ d. at_real (follow_parent d.entries p) entry_at d)

abbrev pub contents : Option Entry → Outcome (List ℕ)
contents none = fault missing
contents (some (file b)) = fine b
contents (some directory) = fault other
contents (some (link q)) = fault other

-- os.ReadFile
unfoldable pub read_file : FilePath → Io (List ℕ)
unfolding call find follow
read_file p = call (λ d. at_real (follow d.entries p) (λ q t. (contents (find q t.entries), t)) d)

abbrev pub is_writable : Option Entry → Bool
is_writable none = true
is_writable (some (file b)) = true
is_writable (some directory) = false
is_writable (some (link q)) = false

abbrev pub written : List ℕ → FilePath → Io (Unit {0})
written b p d =
    if is_empty p.segments
    then (fault other, d)
    else if is_directory (parent p).segments (find (parent p) d.entries)
        && is_writable (find p d.entries)
    then (fine tt, record d { entries = place p (file b) d.entries })
    else (fault other, d)

-- os.WriteFile, which creates or replaces a file in a directory that is there.
unfoldable pub write_file : FilePath → List ℕ → Io (Unit {0})
unfolding call find place follow
write_file p b = call (λ d. at_real (follow d.entries p) (written b) d)

abbrev pub is_outside : FilePath → FilePath × Entry → Bool
is_outside p (q, e) = not (is_within p q)

-- os.RemoveAll
unfoldable pub remove_all : FilePath → Io (Unit {0})
unfolding call
remove_all p = call (λ d. (fine tt, record d { entries = keep (is_outside p) d.entries }))

abbrev pub is_other : FilePath → FilePath × Entry → Bool
is_other p (q, e) = not (same p q)

abbrev pub is_inner : FilePath → FilePath × Entry → Bool
is_inner p (q, e) = is_within p q && not (same p q)

abbrev pub unlinked : FilePath → Option Entry → Io (Unit {0})
unlinked p none d = (fault missing, d)
unlinked p (some e) d =
    if is_empty (keep (is_inner p) d.entries)
    then (fine tt, record d { entries = keep (is_other p) d.entries })
    else (fault other, d)

-- os.Remove, of a file, a link or a directory with nothing in it
unfoldable pub remove : FilePath → Io (Unit {0})
unfolding call find follow follow_parent
remove p =
    call (λ d. at_real (follow_parent d.entries p) (λ q t. unlinked q (find q t.entries) t) d)

abbrev pub linked : FilePath → FilePath → Option Entry → Io (Unit {0})
linked source p none d =
    if is_directory (parent p).segments (find (parent p) d.entries)
    then (fine tt, record d { entries = place p (link source) d.entries })
    else (fault missing, d)
linked source p (some e) d = (fault other, d)

-- os.Symlink
unfoldable pub symlink : FilePath → FilePath → Io (Unit {0})
unfolding call find place follow follow_parent
symlink source p =
    call (λ d. at_real (follow_parent d.entries p) (λ q t. linked source q (find q t.entries) t) d)

abbrev pub child_name : Option (List String) → Option String
child_name (some (s ∷ [])) = some s
child_name _ = none

-- The entries that stand in a directory themselves.
unfoldable pub children : FilePath → Entries → List (String × Entry)
children p [] = []
children p ((q, e) ∷ l) =
    let rest = children p l in elim (child_name (rel p q)) [ none ↦ rest | some s ↦ (s, e) ∷ rest ]

abbrev pub listed_dir : FilePath → Io (List (String × Entry))
listed_dir p d =
    if is_directory p.segments (find p d.entries)
    then (fine (children p d.entries), d)
    else (fault missing, d)

-- os.ReadDir, in the order in which the entries were made
unfoldable pub read_dir : FilePath → Io (List (String × Entry))
unfolding call find children follow
read_dir p = call (λ d. at_real (follow d.entries p) listed_dir d)
