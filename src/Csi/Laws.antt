-- ===== src/Csi/Laws.antt =====
-- What the volume handlers do to the directories.
use mathlib.Core.List.{append-nil}
use nimbuscore.Prelude.{
  ℕ, ℤ, String, Bool, true, false, List, [], Option, none, some, ◌≡◌, ◌≢◌, inl, inr, ◌∙◌, refl, ap,
  arith, ◌==◌, eq_iff, Bool-cases, if◌then◌else◌,
}
use nimbuscore.Paths.{FilePath, file_path, is_within}
use nimbuscore.Paths.Laws.{is_within_trans, is_within-append}
use nimbuscore.Disk.{Disk, fine, call, mkdir_all, write_file, remove_all, find}
use nimbuscore.Disk.Laws.{find-removed}
use nimbuscore.Disk.Writes.{write_file-read_file}
use nimbuscore.Cluster.{ok}
use nimbuscore.Csi.{
  VolumeMeta, Driver, volume_dir, meta_path, valid_volume_id, create_volume, read_meta,
  delete_volume,
}

-- A volume id that is accepted deletes exactly what lies at its directory or below it.
pub delete_volume-find :
    (driver : Driver) (id : String) (d : Disk) (q : FilePath)
    → valid_volume_id driver id ≡ true
    → d.fails d.calls ≡ false
    → ((delete_volume driver id d).0 ≡ ok tt)
      × (find q (delete_volume driver id d).1.entries
          ≡ (if is_within (volume_dir driver id) q then none else find q d.entries))
unfolding delete_volume remove_all call valid_volume_id
delete_volume-find driver id d q h up =
    ground (arith, find-removed (volume_dir driver id) q d.entries)

-- Whatever id a caller sends, nothing outside the base directory is deleted or changed.
pub delete_volume-confined :
    (driver : Driver) (id : String) (d : Disk) (q : FilePath)
    → is_within (file_path driver.base_dir) q ≡ false
    → find q (delete_volume driver id d).1.entries ≡ find q d.entries
unfolding delete_volume remove_all call valid_volume_id
delete_volume-confined driver id d q h = ground (
  arith,
  find-removed (volume_dir driver id) q d.entries,
  is_within_trans (file_path driver.base_dir) (volume_dir driver id) q,
)

valid-base :
    (driver : Driver) (id : String)
    → id ≢ ""
    → volume_dir driver id ≡ file_path driver.base_dir
    → valid_volume_id driver id ≡ true
unfolding valid_volume_id
valid-base driver id named back = elim (Bool-cases (id == "")) [
  | inl e ↦ absurd (named ((eq_iff id "").0 e))
  | inr e ↦ ground (
    arith,
    is_within-append (file_path driver.base_dir) (volume_dir driver id) [] (rw back)
        (rw (back, append-nil)) refl,
  )
]

-- An id other than "" that comes back to the base directory, as "." and "a/.." do, is accepted and
-- deletes every volume.
pub delete_volume-base :
    (driver : Driver) (id : String) (d : Disk) (q : FilePath)
    → id ≢ ""
    → volume_dir driver id ≡ file_path driver.base_dir
    → d.fails d.calls ≡ false
    → is_within (file_path driver.base_dir) q ≡ true
    → ((delete_volume driver id d).0 ≡ ok tt)
      × (find q (delete_volume driver id d).1.entries ≡ none)
delete_volume-base driver id d q named back up h =
    let r = delete_volume-find driver id d q (valid-base driver id named back) up in
    (
      r.0,
      r.1
          ∙ ap (λ (b : Bool). if b then none else find q d.entries)
              (ap (λ (p : FilePath). is_within p q) back ∙ h),
    )

-- `marshal` and `unmarshal` are encoding/json on a volume's metadata.
module _ (marshal : VolumeMeta → Option (List ℕ)) (unmarshal : List ℕ → Option VolumeMeta) where
  create_volume_inv :
      (driver : Driver) (name : String) (capacity : ℤ) (d : Disk) (b : List ℕ) {v : VolumeMeta}
      {t : Disk}
      → marshal (record { name = name; capacity_bytes = capacity }) ≡ some b
      → create_volume marshal unmarshal driver name capacity d ≡ (ok v, t)
      → (write_file (meta_path driver name) b (mkdir_all (volume_dir driver name) d).1
          ≡ (fine tt, t))
        × (v ≡ record { name = name; capacity_bytes = capacity })
  unfolding create_volume
  create_volume_inv driver name capacity d b e h = ground arith

  -- Where the metadata can be encoded and decoded again, a volume that was created reads back as it was
  -- asked for, if the disk does not fail at the reading.
  pub create_volume-read_meta :
      (driver : Driver) (name : String) (capacity : ℤ) (d : Disk) (b : List ℕ) {v : VolumeMeta}
      {t : Disk}
      → marshal (record { name = name; capacity_bytes = capacity }) ≡ some b
      → unmarshal b ≡ some (record { name = name; capacity_bytes = capacity })
      → create_volume marshal unmarshal driver name capacity d ≡ (ok v, t)
      → t.fails t.calls ≡ false
      → ((read_meta marshal unmarshal driver name t).0 ≡ fine v)
        × (v.name ≡ name)
        × (v.capacity_bytes ≡ capacity)
  unfolding read_meta
  create_volume-read_meta driver name capacity d b {t = t} e f h up =
      let (wrote, is_meta) = create_volume_inv driver name capacity d b e h in
      ground (
        arith,
        write_file-read_file (meta_path driver name) b (mkdir_all (volume_dir driver name) d).1
            wrote up,
      )
