-- ===== src/Agent/Logs.antt =====
-- internal/agent/logserver.go and the log paths of process.go and build.go: the last lines of a pod's
-- log over HTTP. Opening a log and reading its end count as one call here, which fails as a whole.
mod Tests
use Prim.Native.String
use nimbuscore.Prelude.{
  ℕ, zero, suc, ◌-◌, ltb, eqb, String, ℤ, pos, pos_part, ltb_ℤ, Bool, true, false, ◌||◌, ◌&&◌, List,
  [], ◌∷◌, ◌++◌, Option, none, some, Assoc, lookup_or, ◌==◌, if◌then◌else◌, length, drop, is_empty,
  atoi,
}
use nimbuscore.Paths.{FilePath, join_all}
use nimbuscore.Disk.{Io, read_file, Disk, Outcome, fine, fault}
use nimbuscore.Agent.Runtime.{container_name_raw}
use nimbuscore.Agent.Files.{Body, bytes, Response, answer, Handler, respond, after_found}

abbrev pub max_log_read_bytes : ℕ
max_log_read_bytes = 0x100000

abbrev pub newline : ℕ
newline = 10

-- strings.TrimRight(s, "\n")
unfoldable pub trim_right : List ℕ → List ℕ
trim_right [] = []
trim_right (b ∷ s) =
    let rest = trim_right s in if eqb b newline && is_empty rest then [] else b ∷ rest

abbrev pub extend_first : ℕ → List (List ℕ) → List (List ℕ)
extend_first b [] = (b ∷ []) ∷ []
extend_first b (l ∷ ls) = (b ∷ l) ∷ ls

-- strings.Split(s, "\n")
unfoldable pub split_lines : List ℕ → List (List ℕ)
split_lines [] = [] ∷ []
split_lines (b ∷ s) =
    let rest = split_lines s in if eqb b newline then [] ∷ rest else extend_first b rest

-- strings.Join(lines, "\n")
unfoldable pub join_lines : List (List ℕ) → List ℕ
join_lines [] = []
join_lines (l ∷ []) = l
join_lines (l ∷ m ∷ ls) = l ++ (newline ∷ join_lines (m ∷ ls))

-- The last elements of a list, this many of them.
abbrev pub last_of {ℓ} : {A : Type ℓ} → ℕ → List A → List A
last_of n xs = if ltb n (length xs) then drop (length xs - n) xs else xs

-- What tailFile makes of the content of the file.
unfoldable pub tail_of : ℕ → List ℕ → List ℕ
unfolding trim_right split_lines join_lines
tail_of max_lines content =
    join_lines (last_of max_lines (split_lines (trim_right (last_of max_log_read_bytes content))))
    ++ (newline ∷ [])

abbrev pub tailed : ℕ → Outcome (List ℕ) → Outcome (List ℕ)
tailed max_lines (fine content) = fine (tail_of max_lines content)
tailed max_lines (fault x) = fault x

-- tailFile
unfoldable pub tail_file : FilePath → ℕ → Io (List ℕ)
unfolding tail_of
tail_file path max_lines d = let (r, t) = read_file path d in (tailed max_lines r, t)

-- logFilePath
abbrev pub log_file_path : String → String → FilePath
log_file_path log_dir container_id = join_all (log_dir ∷ String.◌++◌ container_id ".log" ∷ [])

-- buildLogFilePath
abbrev pub build_log_file_path : String → String → FilePath
build_log_file_path log_dir container_id =
    join_all (log_dir ∷ String.◌++◌ container_id ".build.log" ∷ [])

abbrev pub positive_or : ℕ → Option ℤ → ℕ
positive_or default none = default
positive_or default (some n) = if ltb_ℤ (pos 0) n then pos_part n else default

-- The number of lines that a request asks for.
unfoldable pub tail_lines : String → ℕ
tail_lines tail = if tail == "" then 200 else positive_or 200 (atoi tail)

-- The handler of NewLogHandler, for the parameters of the query.
unfoldable pub logs : String → Assoc String → Handler
unfolding tail_file tail_lines
logs log_dir query =
    let namespace = lookup_or "" "namespace" query in
    let name = lookup_or "" "name" query in
    if namespace == "" || name == ""
    then respond (answer 400)
    else (let id = container_name_raw namespace name in
        let path =
          if lookup_or "" "stream" query == "build"
          then build_log_file_path log_dir id
          else log_file_path log_dir id in
        after_found (tail_file path (tail_lines (lookup_or "" "tail" query)))
          λ lines. respond (record { status = 200; body = bytes lines }))
