-- ===== src/Agent/Files.antt =====
-- internal/agent/files.go: the files of a volume over HTTP. A response is its status code and its body.
-- Of a listing the names and kinds are kept; sizes and times are left out.
pub mod Laws
mod Tests
use nimbuscore.Prelude.{
  ℕ, zero, suc, ltb, String, Bool, true, false, not, ◌||◌, ◌&&◌, List, [], ◌∷◌, map, Option, none,
  some, ◌==◌, if◌then◌else◌, length,
}
use nimbuscore.Paths.{FilePath, join, join_all, parent, is_within}
use nimbuscore.Disk.{
  Disk, Entry, directory, file, link, Fault, missing, other, Outcome, fine, fault, Io, mkdir_all,
  stat, read_file, write_file, remove, read_dir,
}

abbrev pub max_file_write_bytes : ℕ
max_file_write_bytes = 0x800000

-- resolveVolumePath
unfoldable pub resolve_volume_path : String → String → String → String → Option FilePath
unfolding join_all join is_within
resolve_volume_path volumes_dir namespace name rel_path =
    if namespace == "" || name == ""
    then none
    else (let vol_dir = join_all (volumes_dir ∷ namespace ∷ name ∷ []) in
        let full = join vol_dir rel_path in if is_within vol_dir full then some full else none)

pub data Body : Type 0 where
  empty : Body
  bytes : List ℕ → Body
  listing : List (String × Bool) → Body

pub record Response : Type 0 where
  pub status : ℕ
  pub body : Body

abbrev pub answer : ℕ → Response
answer code = record { status = code; body = empty }

abbrev pub Handler : Type 0
Handler = Disk → Response × Disk

abbrev pub respond : Response → Handler
respond r d = (r, d)

abbrev pub fault_code : Fault → ℕ
fault_code missing = 404
fault_code other = 500

-- A missing file is 404, any other error 500.
abbrev pub or_not_found : {A : Type 0} → Outcome A → (A → Handler) → Handler
or_not_found (fine a) f d = f a d
or_not_found (fault x) f d = (answer (fault_code x), d)

abbrev pub or_internal : {A : Type 0} → Outcome A → (A → Handler) → Handler
or_internal (fine a) f d = f a d
or_internal (fault x) f d = (answer 500, d)

abbrev pub after_found : {A : Type 0} → Io A → (A → Handler) → Handler
after_found m f d = let (r, t) = m d in or_not_found r f t

abbrev pub after : {A : Type 0} → Io A → (A → Handler) → Handler
after m f d = let (r, t) = m d in or_internal r f t

abbrev pub is_dir : Entry → Bool
is_dir directory = true
is_dir (file b) = false
is_dir (link p) = false

abbrev pub listed_entry : String × Entry → String × Bool
listed_entry (name, e) = (name, is_dir e)

-- The handler behind a path that is resolved.
abbrev pub resolved : Option FilePath → (FilePath → Handler) → Handler
resolved none f d = (answer 400, d)
resolved (some p) f d = f p d

-- The same, where the request must name a path.
abbrev pub resolved_at : String → Option FilePath → (FilePath → Handler) → Handler
resolved_at path o f = if path == "" then respond (answer 400) else resolved o f

-- /files/list
unfoldable pub list_files : String → String → String → Handler
unfolding resolve_volume_path
list_files volumes_dir namespace name =
    resolved (resolve_volume_path volumes_dir namespace name ".") λ vol_dir.
      after (mkdir_all vol_dir) λ _.
        after (read_dir vol_dir)
          λ entries. respond (record { status = 200; body = listing (map listed_entry entries) })

-- /files/read
unfoldable pub read_files : String → String → String → String → Handler
unfolding resolve_volume_path
read_files volumes_dir namespace name path =
    resolved_at path (resolve_volume_path volumes_dir namespace name path)
      λ full. after_found (read_file full) λ b. respond (record { status = 200; body = bytes b })

-- io.LimitReader
unfoldable pub limited : ℕ → List ℕ → List ℕ
limited zero b = []
limited (suc n) [] = []
limited (suc n) (x ∷ b) = x ∷ limited n b

-- The file is written, in directories made for it.
unfoldable pub stored : FilePath → List ℕ → Handler
stored full content =
    after (mkdir_all (parent full)) λ _. after (write_file full content) λ _. respond (answer 204)

abbrev pub too_large : List ℕ → Bool
too_large content = ltb max_file_write_bytes (length content)

abbrev pub stored_limited : FilePath → List ℕ → Handler
stored_limited full content =
    if too_large content then respond (answer 413) else stored full content

-- /files/write, with the body of the request
unfoldable pub write_files : String → String → String → String → String → List ℕ → Handler
unfolding resolve_volume_path limited stored
write_files volumes_dir method namespace name path body =
    if not (method == "PUT") && not (method == "POST")
    then respond (answer 405)
    else (resolved_at path (resolve_volume_path volumes_dir namespace name path)
        λ full. stored_limited full (limited (suc max_file_write_bytes) body))

abbrev pub removed_file : FilePath → Entry → Handler
removed_file full directory = respond (answer 400)
removed_file full (file b) = after (remove full) λ _. respond (answer 204)
removed_file full (link p) = after (remove full) λ _. respond (answer 204)

-- /files/delete
unfoldable pub delete_files : String → String → String → String → String → Handler
unfolding resolve_volume_path
delete_files volumes_dir method namespace name path =
    if not (method == "DELETE")
    then respond (answer 405)
    else (resolved_at path (resolve_volume_path volumes_dir namespace name path)
        λ full. after_found (stat full) λ e. removed_file full e)
