-- ===== src/Admission.antt =====
-- internal/admission: what is checked, and filled in, before a pod or a deployment is stored.
pub mod Security
pub mod Quota
pub mod Volumes
pub mod Images
pub mod Policies
mod Tests
use nimbuscore.Prelude.{String, ℤ, pos, leb_ℤ, List, [], ◌∷◌, Assoc, if◌then◌else◌}
use nimbuscore.Api.{PodSpec}
use nimbuscore.Cluster.{M, pure, ◌>>=◌}

-- The validators share one request, and may write to its pod template.
pub record Request : Type 0 where
  pub namespace : String
  pub name : String
  pub labels : Assoc String
  pub spec : PodSpec
  pub replicas : ℤ

-- `Validator.Admit`, which returns the request as it left it. After an error the request is dropped.
abbrev pub Validator : Type 0
Validator = Request → M Request

unfoldable pub run_validators : List Validator → Validator
run_validators [] req = pure req
run_validators (v ∷ vs) req = v req >>= run_validators vs

abbrev pub at_least_one : Request → Request
at_least_one req = record req {
  replicas = if leb_ℤ req.replicas (pos 0) then pos 1 else req.replicas;
}

-- Chain.Admit
unfoldable pub admit : List Validator → Validator
unfolding run_validators
admit validators req = run_validators validators (at_least_one req)
