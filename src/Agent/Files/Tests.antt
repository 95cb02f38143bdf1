-- ===== src/Agent/Files/Tests.antt =====
-- Requests to a volume in which a link was made.
use nimbuscore.Prelude.{String, List, [], ◌∷◌, some, false, true, ◌≡◌, refl}
use nimbuscore.Paths.{FilePath, parent}
use nimbuscore.Disk.{Disk, directory, file, link, find, same, write_file, read_file, mkdir_all}
use nimbuscore.Agent.Files.{write_files, read_files, bytes}

abbrev at_path : List String → FilePath
at_path s = record { rooted = true; segments = s }

abbrev outside : FilePath
outside = at_path ("srv" ∷ "notes" ∷ [])

abbrev linked : Disk
linked = record {
  entries =
      (at_path ("srv" ∷ []), directory)
      ∷ (outside, file (1 ∷ []))
      ∷ (at_path ("v" ∷ []), directory)
      ∷ (at_path ("v" ∷ "a" ∷ []), directory)
      ∷ (at_path ("v" ∷ "a" ∷ "vol" ∷ []), directory)
      ∷ (at_path ("v" ∷ "a" ∷ "vol" ∷ "notes" ∷ []), link outside)
      ∷ [];
  calls = 0;
  fails = λ n. false;
}

-- The link that stands in the volume is followed: the file outside is read and overwritten.
reads_outside : (read_files "/v" "a" "vol" "notes" linked).0.body ≡ bytes (1 ∷ [])
unfolding read_files read_file same
reads_outside = refl

writes_outside :
    find outside (write_files "/v" "PUT" "a" "vol" "notes" (2 ∷ []) linked).1.entries
    ≡ some (file (2 ∷ []))
unfolding write_files mkdir_all write_file same parent
writes_outside = refl
