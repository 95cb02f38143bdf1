-- ===== src/Admission/Quota.antt =====
-- internal/admission/quota.go: what the pods of a namespace request, against its quota.
pub mod Laws
use nimbuscore.Prelude.{
  String, ℤ, pos, ◌*ℤ◌, leb_ℤ, ltb_ℤ, add64, mul64, Bool, true, false, ◌&&◌, List, [], ◌∷◌,
  if◌then◌else◌,
}
use nimbuscore.Api.{ResourceList, Container, Pod}
use nimbuscore.Cluster.{M, pure, raise, ◌>>=◌, denied, pods, list}
use nimbuscore.Admission.{Request, Validator}

abbrev pub cpu_of : Container → ℤ
cpu_of c = c.resources.requests.cpu_millis

abbrev pub mem_of : Container → ℤ
mem_of c = c.resources.requests.memory_bytes

module _ (amount : Container → ℤ) where
  unfoldable pub add_requests : ℤ → List Container → ℤ
  add_requests used [] = used
  add_requests used (c ∷ cs) = add_requests (add64 used (amount c)) cs

  unfoldable pub add_pods : ℤ → List Pod → ℤ
  unfolding add_requests
  add_pods used [] = used
  add_pods used (p ∷ ps) = add_pods (add_requests used p.spec.containers) ps

-- A limit that is not positive is none.
abbrev pub exceeds : ℤ → ℤ → ℤ → Bool
exceeds limit used requested = ltb_ℤ (pos 0) limit && ltb_ℤ limit (add64 used requested)

-- What the request asks for, over all replicas.
unfoldable pub requested : (Container → ℤ) → Request → ℤ
unfolding add_requests
requested amount req = mul64 (add_requests amount (pos 0) req.spec.containers) req.replicas

unfoldable pub within_quota : ResourceList → Request → List Pod → M Request
unfolding requested add_pods
within_quota quota req existing =
    if exceeds quota.cpu_millis (add_pods cpu_of (pos 0) existing) (requested cpu_of req)
    then raise (denied "namespace would exceed its CPU quota")
    else (if exceeds quota.memory_bytes (add_pods mem_of (pos 0) existing) (requested mem_of req)
        then raise (denied "namespace would exceed its memory quota")
        else pure req)

-- QuotaPolicy.Admit
unfoldable pub admit_quota : ResourceList → Validator
unfolding within_quota
admit_quota quota req =
    if leb_ℤ quota.cpu_millis (pos 0) && leb_ℤ quota.memory_bytes (pos 0)
    then pure req
    else (list pods req.namespace >>= within_quota quota req)
