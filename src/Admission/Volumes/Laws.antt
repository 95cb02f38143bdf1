-- ===== src/Admission/Volumes/Laws.antt =====
-- Which deployments may mount which volumes.
use nimbuscore.Prelude.{
  String, ◌≡◌, refl, true, false, List, [], ◌∷◌, Option, none, some, lookup, lookup_or, ◌==◌,
  eq_iff, ◌⊎◌, inl, inr, ◌↔◌, All, arith, Bool-cases,
}
use nimbuscore.Api.{Volume, VolumeMount}
use nimbuscore.Cluster.{Cluster, found, key, volumes}
use nimbuscore.Cluster.Reads.{IsHealthy, counted, counted-IsHealthy, get-up}
use nimbuscore.Admission.{Request}
use nimbuscore.Admission.Security.Laws.{is_ok}
use nimbuscore.Admission.Volumes.{is_foreign, check_owners, admit_volume_ownership}

abbrev pub owner_label : Volume → String
owner_label v = lookup_or "" "nimbuscore.io/owner-deployment" v.metadata.labels

-- No volume is stored, or the one that is has no owner or is owned by `name`; without a name everything
-- is allowed.
abbrev pub IsAvailable : String → Option Volume → Type 0
IsAvailable name none = Unit
IsAvailable name (some v) = (owner_label v ≡ "") ⊎ (name ≡ "") ⊎ (owner_label v ≡ name)

abbrev pub MayMount : Request → Cluster → VolumeMount → Type 0
MayMount req s m =
    IsAvailable req.name (lookup (key "volumes" req.namespace m.volume_name) s.volumes)

is_foreign_iff :
    (name : String) (o : Option Volume) → (is_foreign name (found o) ≡ false) ↔ IsAvailable name o
is_foreign_iff name none = (λ h. tt, λ h. refl)
is_foreign_iff name (some v) = (
  λ h. by_tests h,
  λ h. ground (arith, h, eq_iff (owner_label v) "", eq_iff name "", eq_iff (owner_label v) name),
)
  where
    by_tests : is_foreign name (found (some v)) ≡ false → IsAvailable name (some v)
    by_tests h = elim (Bool-cases (owner_label v == "")) [
      | inl e ↦ inl ((eq_iff (owner_label v) "").0 e)
      | inr e ↦ elim (Bool-cases (name == "")) [
        | inl f ↦ inr (inl ((eq_iff name "").0 f))
        | inr f ↦ inr (inr ((eq_iff (owner_label v) name).0 (ground arith)))
      ]
    ]

check_owners_iff :
    (req : Request) (mounts : List VolumeMount) (s : Cluster)
    → IsHealthy s
    → (is_ok (check_owners req mounts s).0 ≡ true) ↔ All (MayMount req s) mounts
unfolding check_owners
check_owners_iff req [] s h = (λ e. tt, λ e. refl)
check_owners_iff req (m ∷ mounts) s h =
    let o = lookup (key "volumes" req.namespace m.volume_name) s.volumes in
    let rest = check_owners_iff req mounts (counted s) (counted-IsHealthy s h) in
    elim (Bool-cases (is_foreign req.name (found o))) [
      | inl e ↦
          rw (get-up volumes req.namespace s h m.volume_name, e)
            (
              λ k. absurd (ground arith),
              λ k. absurd (ground (arith, (is_foreign_iff req.name o).1 k.0)),
            )
      | inr e ↦
          rw (get-up volumes req.namespace s h m.volume_name, e)
            (λ k. ((is_foreign_iff req.name o).0 e, rest.0 k), λ k. rest.1 k.1)
    ]

-- On a store that works, a request passes exactly when each volume that it mounts is not stored, has
-- no owner, or has the deployment of the request as its owner, or the request has no name.
pub admit_volume_ownership_iff :
    (req : Request) (s : Cluster)
    → IsHealthy s
    → (is_ok (admit_volume_ownership req s).0 ≡ true) ↔ All (MayMount req s) req.spec.volumes
unfolding admit_volume_ownership
admit_volume_ownership_iff req s h = check_owners_iff req req.spec.volumes s h
