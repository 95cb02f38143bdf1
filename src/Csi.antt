-- ===== src/Csi.antt =====
-- internal/csi/hostpath/hostpath.go: the driver that keeps each volume in a directory of its own below
-- one base directory. A handler holds the driver's lock, so it runs to its end before the next one.
pub mod Laws
mod Tests
use nimbuscore.Prelude.{
  ℕ, ℤ, String, Bool, true, false, not, ◌&&◌, ◌||◌, List, [], ◌∷◌, Option, none, some, ◌==◌,
  if◌then◌else◌,
}
use nimbuscore.Paths.{FilePath, file_path, join, join_all, directory_of, is_within}
use nimbuscore.Disk.{
  Disk, Entry, directory, file, link, Fault, missing, other, Outcome, fine, fault, Io, mkdir_all,
  stat, lstat, read_file, write_file, remove_all, remove, symlink, read_dir,
}
use nimbuscore.Cluster.{Error, Result, ok, err}
use nimbuscore.Apiserver.Codes.{invalid_argument, internal, not_there}

pub record VolumeMeta : Type 0 where
  pub name : String
  pub capacity_bytes : ℤ

pub record Driver : Type 0 where
  pub node_id : String
  pub base_dir : String

abbrev pub Handler : Type 0 → Type 0
Handler A = Disk → Result A × Disk

abbrev pub answered : {A B : Type 0} → Error → Outcome A → (A → Handler B) → Handler B
answered code (fine a) f d = f a d
answered code (fault x) f d = (err code, d)

-- The action, and what follows it. A fault is answered with the code.
abbrev pub after : {A B : Type 0} → Error → Io A → (A → Handler B) → Handler B
after code m f d = let (r, t) = m d in answered code r f t

abbrev pub reply : {A : Type 0} → A → Handler A
reply a d = (ok a, d)

abbrev pub refuse : {A : Type 0} → Error → Handler A
refuse e d = (err e, d)

-- New
unfoldable pub new_driver : String → String → Io Driver
new_driver node_id base_dir d =
    let (r, t) = mkdir_all (file_path base_dir) d in
    elim r [
      | fine u ↦ (fine (record { node_id = node_id; base_dir = base_dir }), t)
      | fault x ↦ (fault x, t)
    ]

-- volumeDir
unfoldable pub volume_dir : Driver → String → FilePath
unfolding join_all
volume_dir driver id = join_all (driver.base_dir ∷ id ∷ [])

-- metaPath
unfoldable pub meta_path : Driver → String → FilePath
unfolding volume_dir join
meta_path driver id = join (volume_dir driver id) ".volume.json"

-- validVolumeID
unfoldable pub valid_volume_id : Driver → String → Bool
unfolding volume_dir is_within
valid_volume_id driver id =
    if id == "" then false else is_within (file_path driver.base_dir) (volume_dir driver id)

-- `marshal` and `unmarshal` are encoding/json on a volume's metadata.
module _ (marshal : VolumeMeta → Option (List ℕ)) (unmarshal : List ℕ → Option VolumeMeta) where
  abbrev pub encoded : Option (List ℕ) → (List ℕ → Handler VolumeMeta) → Handler VolumeMeta
  encoded none f d = (err internal, d)
  encoded (some b) f d = f b d

  -- CreateVolume: the volume that it answers with.
  unfoldable pub create_volume : Driver → String → ℤ → Handler VolumeMeta
  unfolding valid_volume_id volume_dir meta_path
  create_volume driver name capacity =
      let meta : VolumeMeta = record { name = name; capacity_bytes = capacity } in
      if name == ""
      then refuse invalid_argument
      else if not (valid_volume_id driver name)
      then refuse invalid_argument
      else (after internal (mkdir_all (volume_dir driver name)) λ _.
          encoded (marshal meta)
            λ b. after internal (write_file (meta_path driver name) b) λ _. reply meta)

  abbrev pub decoded : Option VolumeMeta → Outcome VolumeMeta
  decoded none = fault other
  decoded (some m) = fine m

  abbrev pub decoded_file : Outcome (List ℕ) → Outcome VolumeMeta
  decoded_file (fine b) = decoded (unmarshal b)
  decoded_file (fault x) = fault x

  -- readMeta
  unfoldable pub read_meta : Driver → String → Io VolumeMeta
  unfolding meta_path
  read_meta driver id d = let (r, t) = read_file (meta_path driver id) d in (decoded_file r, t)

  abbrev pub with_meta : Outcome VolumeMeta → List VolumeMeta → List VolumeMeta
  with_meta (fine m) out = m ∷ out
  with_meta (fault x) out = out

  -- The loop of ListVolumes, which passes over what is no volume.
  unfoldable pub list_each : Driver → List (String × Entry) → Disk → List VolumeMeta × Disk
  unfolding read_meta
  list_each driver [] d = ([], d)
  list_each driver ((name, directory) ∷ l) d =
      let (m, t) = read_meta driver name d in
      let (out, u) = list_each driver l t in (with_meta m out, u)
  list_each driver ((name, file b) ∷ l) d = list_each driver l d
  list_each driver ((name, link p) ∷ l) d = list_each driver l d

  -- ListVolumes
  unfoldable pub list_volumes : Driver → Handler (List VolumeMeta)
  unfolding list_each
  list_volumes driver =
      after internal (read_dir (file_path driver.base_dir))
        λ l d. let (out, t) = list_each driver l d in (ok out, t)

-- DeleteVolume
unfoldable pub delete_volume : Driver → String → Handler (Unit {0})
unfolding valid_volume_id volume_dir
delete_volume driver id =
    if id == ""
    then refuse invalid_argument
    else if not (valid_volume_id driver id)
    then refuse invalid_argument
    else (after internal (remove_all (volume_dir driver id)) λ _. reply tt)

abbrev pub published : Outcome Entry → FilePath → FilePath → Handler (Unit {0})
published (fine e) source target = reply tt
published (fault x) source target = after internal (symlink source target) λ _. reply tt

-- NodePublishVolume
unfoldable pub publish_volume : Driver → String → String → Handler (Unit {0})
unfolding valid_volume_id volume_dir
publish_volume driver id target =
    if id == "" || target == ""
    then refuse invalid_argument
    else if not (valid_volume_id driver id)
    then refuse invalid_argument
    else (after not_there (stat (volume_dir driver id)) λ _.
        after internal (mkdir_all (directory_of target)) λ _ d.
          let (e, t) = lstat (file_path target) d in
          published e (volume_dir driver id) (file_path target) t)

abbrev pub unpublished : Outcome (Unit {0}) → Result (Unit {0})
unpublished (fine u) = ok tt
unpublished (fault missing) = ok tt
unpublished (fault other) = err internal

-- NodeUnpublishVolume
unfoldable pub unpublish_volume : String → Handler (Unit {0})
unpublish_volume target = if target == "" then refuse invalid_argument else λ d.
    let (r, t) = remove (file_path target) d in (unpublished r, t)
