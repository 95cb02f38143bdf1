-- ===== src/Apiserver/Volumes.antt =====
-- internal/apiserver/volume_service.go, over the volume driver of internal/csi/hostpath: the objects
-- of the store on one side, the directories on the other.
pub mod Laws
use Prim.Native.String.{◌++◌}
use nimbuscore.Prelude.{ℕ, String, ◌||◌, List, Option, ◌==◌, if◌then◌else◌}
use nimbuscore.Api.{Volume, volume_bound}
use nimbuscore.Cluster.{Cluster, M, Error, Result, ok, err, volumes, get, put, delete, list}
use nimbuscore.Apiserver.Codes.{answering, recoded, invalid_argument, internal, not_there}
use nimbuscore.Disk.{Disk}
use nimbuscore.Csi
use nimbuscore.Csi.{VolumeMeta, Driver}

abbrev pub volume_id : String → String → String
volume_id namespace name = namespace ++ "/" ++ name

abbrev pub bound : Volume → VolumeMeta → Volume
bound vol meta = record vol {
  status = record {
    phase = volume_bound;
    capacity_bytes = meta.capacity_bytes;
    message = "";
    node_name = "";
  };
}

abbrev pub World : Type 0
World = Cluster × Disk

abbrev pub on_cluster : {A : Type 0} → M A → World → Result A × World
on_cluster m (s, d) = let (r, t) = m s in (r, (t, d))

abbrev pub answer : {A B : Type 0} → Result A → B → Result B
answer (ok a) b = ok b
answer (err e) b = err e

-- The put of a volume that the driver has made.
abbrev pub recorded : Volume → Result VolumeMeta → World → Result Volume × World
recorded vol (err e) w = (err internal, w)
recorded vol (ok meta) (s, d) =
    let (r, t) =
      answering internal (put volumes vol.metadata.namespace vol.metadata.name (bound vol meta))
        s in
    (answer r (bound vol meta), (t, d))

-- CreateVolume
unfoldable pub create_volume :
    (VolumeMeta → Option (List ℕ))
    → (List ℕ → Option VolumeMeta)
    → Driver
    → Volume
    → World
    → Result Volume × World
create_volume marshal unmarshal driver vol (s, d) =
    if vol.metadata.name == ""
    then (err invalid_argument, (s, d))
    else (let (made, t) =
          Csi.create_volume marshal unmarshal driver
            (volume_id vol.metadata.namespace vol.metadata.name) vol.requested_bytes d in
        recorded vol made (s, t))

-- GetVolume
unfoldable pub get_volume : String → String → M Volume
get_volume namespace name = answering not_there (get volumes namespace name)

-- ListVolumes
unfoldable pub list_volumes : String → M (List Volume)
list_volumes namespace = answering internal (list volumes namespace)

abbrev pub forgotten : String → String → Result (Unit {0}) → World → Result (Unit {0}) × World
forgotten namespace name (err e) w = (err internal, w)
forgotten namespace name (ok u) w =
    on_cluster (answering internal (delete volumes namespace name)) w

-- DeleteVolume
unfoldable pub delete_volume : Driver → String → String → World → Result (Unit {0}) × World
delete_volume driver namespace name (s, d) =
    if namespace == "" || name == ""
    then (err invalid_argument, (s, d))
    else (let (gone, t) = Csi.delete_volume driver (volume_id namespace name) d in
        forgotten namespace name gone (s, t))
