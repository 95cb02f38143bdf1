-- ===== src/Admission/Volumes.antt =====
-- internal/admission/volume.go: node-local volumes have one pod, and one owner.
pub mod Laws
use nimbuscore.Prelude.{
  String, ℤ, pos, ltb_ℤ, Bool, true, false, not, ◌&&◌, List, [], ◌∷◌, is_empty, lookup_or, ◌==◌,
  if◌then◌else◌,
}
use nimbuscore.Api.{Volume, VolumeMount}
use nimbuscore.Cluster.{Result, ok, err, M, pure, raise, attempt, ◌>>=◌, denied, volumes, get}
use nimbuscore.Controller.Schedule.{owner_deployment_label}
use nimbuscore.Admission.{Request, Validator}

-- VolumeReplicasPolicy.Admit
unfoldable pub admit_volume_replicas : Validator
admit_volume_replicas req =
    if is_empty req.spec.volumes
    then pure req
    else (if ltb_ℤ (pos 1) req.replicas
        then raise (denied "volume-backed deployments must have replicas <= 1")
        else pure req)

abbrev pub owner_of : Volume → String
owner_of v = lookup_or "" owner_deployment_label v.metadata.labels

-- The volume is someone else's. An error of the lookup counts as a volume that is not there.
abbrev pub is_foreign : String → Result Volume → Bool
is_foreign name (err e) = false
is_foreign name (ok v) = not (owner_of v == "") && not (name == "") && not (owner_of v == name)

unfoldable pub check_owners : Request → List VolumeMount → M Request
check_owners req [] = pure req
check_owners req (m ∷ mounts) =
    let rest = check_owners req mounts in
    attempt (get volumes req.namespace m.volume_name) >>= λ vol.
    if is_foreign req.name vol
    then raise (denied "volume is already owned by another deployment")
    else rest

-- VolumeOwnershipPolicy.Admit
unfoldable pub admit_volume_ownership : Validator
unfolding check_owners
admit_volume_ownership req = check_owners req req.spec.volumes
