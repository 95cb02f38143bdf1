-- ===== src/Csi/Tests.antt =====
-- The volume driver on concrete directories.
use nimbuscore.Prelude.{
  ℕ, pos, String, true, false, List, [], ◌∷◌, Option, some, ◌≡◌, ◌≢◌, refl, arith, eq_iff,
}
use nimbuscore.Paths.{FilePath, parent}
use nimbuscore.Disk.{Disk, directory, file, same, mkdir_all, write_file}
use nimbuscore.Cluster.{ok, err}
use nimbuscore.Apiserver.Codes.{invalid_argument}
use nimbuscore.Csi.{VolumeMeta, Driver, valid_volume_id, create_volume, delete_volume}

abbrev driver : Driver
driver = record { node_id = "n1"; base_dir = "/data/volumes" }

abbrev at_path : List String → FilePath
at_path s = record { rooted = true; segments = s }

abbrev alpha : FilePath
alpha = at_path ("data" ∷ "volumes" ∷ "alpha" ∷ [])

abbrev secret : FilePath
secret = at_path ("data" ∷ "secret" ∷ [])

abbrev disk : Disk
disk = record {
  entries =
      (at_path ("data" ∷ []), directory)
      ∷ (at_path ("data" ∷ "volumes" ∷ []), directory)
      ∷ (secret, file (7 ∷ []))
      ∷ (alpha, directory)
      ∷ [];
  calls = 0;
  fails = λ _. false;
}

rejects_parent : valid_volume_id driver "../secret" ≡ false
unfolding valid_volume_id
rejects_parent = refl

accepts_dot : valid_volume_id driver "." ≡ true
unfolding valid_volume_id
accepts_dot = refl

deletes_parent : delete_volume driver "../secret" disk ≡ (err invalid_argument, disk)
unfolding delete_volume
deletes_parent = refl

abbrev dot : String
dot = "."

dot_named : dot ≢ ""
dot_named h = ground (arith, (eq_iff "." "").1 h)

abbrev five : VolumeMeta
five = record { name = "beta"; capacity_bytes = pos 5 }

abbrev marshal : VolumeMeta → Option (List ℕ)
marshal m = some (1 ∷ 2 ∷ [])

abbrev unmarshal : List ℕ → Option VolumeMeta
unmarshal b = some five

abbrev created : Disk
created = (create_volume marshal unmarshal driver "beta" (pos 5) disk).1

creates : create_volume marshal unmarshal driver "beta" (pos 5) disk ≡ (ok five, created)
unfolding create_volume mkdir_all write_file same parent
creates = refl

still_up : created.fails created.calls ≡ false
unfolding create_volume mkdir_all write_file same parent
still_up = refl
