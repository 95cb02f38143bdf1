-- ===== src/Agent/Logs/Tests.antt =====
-- Requests for logs on a small disk.
use nimbuscore.Prelude.{[], ◌∷◌, ◌≡◌, refl, true, false, lookup_or}
use nimbuscore.Paths.{FilePath, join_all}
use nimbuscore.Disk.{Disk, file, same, read_file}
use nimbuscore.Agent.Files.{bytes}
use nimbuscore.Agent.Logs.{tail_of, logs}

two_last : tail_of 2 (1 ∷ 10 ∷ 2 ∷ 10 ∷ 3 ∷ 10 ∷ []) ≡ 2 ∷ 10 ∷ 3 ∷ 10 ∷ []
unfolding tail_of
two_last = refl

abbrev elsewhere : FilePath
elsewhere = record { rooted = true; segments = "srv" ∷ "app.log" ∷ [] }

abbrev disk : Disk
disk = record { entries = (elsewhere, file (7 ∷ [])) ∷ []; calls = 0; fails = λ n. false }

-- A name with dots reads a log outside of the directory of the logs.
reads_elsewhere :
    (logs "/logs" (("namespace", "a") ∷ ("name", "/../../srv/app") ∷ []) disk).0.body
    ≡ bytes (7 ∷ 10 ∷ [])
unfolding logs lookup_or read_file same join_all
reads_elsewhere = refl
