-- ===== src/Apiserver/Volumes/Laws.antt =====
-- Requests to the volume service, down to the directories.
use nimbuscore.Prelude.{String, true, false, none, ◌≡◌, ◌≢◌, arith, eq_iff}
use nimbuscore.Paths.{FilePath, file_path, is_within}
use nimbuscore.Disk.{Disk, find}
use nimbuscore.Cluster.{Cluster}
use nimbuscore.Csi
use nimbuscore.Csi.{Driver, volume_dir}
use nimbuscore.Csi.Laws
use nimbuscore.Apiserver.Volumes.{volume_id, delete_volume}

-- A request to delete a volume whose namespace and name, with a slash between them, lead back to the
-- base directory, as "shop" and ".." do, removes every entry below the base directory, unless the
-- disk fails.
pub delete_volume-base :
    (driver : Driver) (namespace name : String) (s : Cluster) (d : Disk) (q : FilePath)
    → namespace ≢ ""
    → name ≢ ""
    → volume_id namespace name ≢ ""
    → volume_dir driver (volume_id namespace name) ≡ file_path driver.base_dir
    → d.fails d.calls ≡ false
    → is_within (file_path driver.base_dir) q ≡ true
    → find q (delete_volume driver namespace name (s, d)).1.1.entries ≡ none
unfolding delete_volume
delete_volume-base driver namespace name s d q p n i back up h = ground (
  arith,
  eq_iff namespace "",
  eq_iff name "",
  Csi.Laws.delete_volume-base driver (volume_id namespace name) d q i back up h,
)

-- Whatever namespace and name a request names, nothing outside the base directory changes.
pub delete_volume-confined :
    (driver : Driver) (namespace name : String) (s : Cluster) (d : Disk) (q : FilePath)
    → is_within (file_path driver.base_dir) q ≡ false
    → find q (delete_volume driver namespace name (s, d)).1.1.entries ≡ find q d.entries
unfolding delete_volume
delete_volume-confined driver namespace name s d q h =
    ground (arith, Csi.Laws.delete_volume-confined driver (volume_id namespace name) d q h)
