-- ===== src/Admission/Tests.antt =====
-- The validators on one request.
use nimbuscore.Prelude.{
  All, true, ◌↔◌, if◌then◌else◌, some, none, String, ◌≡◌, ◌↔◌, refl, pos, true, false, ◌&&◌, List,
  [], ◌∷◌, all, map, Bool, lookup, has_prefix, strip, arith,
}
use nimbuscore.Api.{
  Policy, ResourceList, zero_container, zero_security, zero_pod_spec, zero_resources,
}
use nimbuscore.Cluster.{listed, list_prefix}
use nimbuscore.Admission.{Request}
use nimbuscore.Admission.Security.{admit_security, with_containers}
use nimbuscore.Admission.Security.Laws.{
  is_ok, is_safe, to_option, with_default_profile, admit_security_lem,
}
use nimbuscore.Admission.Quota.{cpu_of, mem_of, admit_quota}
use nimbuscore.Admission.Quota.Laws.{Sums, within, admit_quota_iff}
use nimbuscore.Admission.Volumes.{admit_volume_ownership}
use nimbuscore.Admission.Volumes.Laws.{MayMount, admit_volume_ownership_iff}
use nimbuscore.Admission.Policies.{PodView, Outcome, value, admit_policies, pod_view}
use nimbuscore.Admission.Policies.Cache.{IsFaithful, denied_by, admit_policies-cached}
use nimbuscore.Fixtures.{named, one_pod, one_pod-IsHealthy}

abbrev request : Request
request = record {
  namespace = "a";
  name = "web";
  labels = [];
  spec = record zero_pod_spec {
    containers = zero_container ∷ [];
    volumes = record { volume_name = "v"; mount_path = "/v"; read_only = false } ∷ [];
  };
  replicas = pos 1;
}

-- The request with a container that asks for a capability.
abbrev capable : Request
capable = with_containers request (
    record zero_container {
      security_context = record zero_security { add_capabilities = "NET_ADMIN" ∷ [] };
    }
    ∷ [])

admit_security_lem_example :
    (to_option (admit_security [] capable one_pod).0 ≡ (
      if all (is_safe []) capable.spec.containers
      then some (with_containers capable (map with_default_profile capable.spec.containers))
      else none))
    × ((admit_security [] capable one_pod).1 ≡ one_pod)
admit_security_lem_example = admit_security_lem [] capable one_pod

cpu-Sums : Sums cpu_of (λ c. 0) (listed (list_prefix "pods" "a") one_pod.pods) request 1
unfolding listed list_prefix has_prefix strip
cpu-Sums = (((refl, tt), tt), (refl, tt), ground arith, ground arith)

mem-Sums : Sums mem_of (λ c. 0) (listed (list_prefix "pods" "a") one_pod.pods) request 1
unfolding listed list_prefix has_prefix strip
mem-Sums = (((refl, tt), tt), (refl, tt), ground arith, ground arith)

abbrev quota : ResourceList
quota = record zero_resources { cpu_millis = pos 10 }

admit_quota_iff_example : is_ok (admit_quota quota request one_pod).0 ≡ (
    within cpu_of (λ c. 0) (pos 10) (listed (list_prefix "pods" "a") one_pod.pods) request 1
    && within mem_of (λ c. 0) (pos 0) (listed (list_prefix "pods" "a") one_pod.pods) request 1)
admit_quota_iff_example =
    admit_quota_iff quota request 1 (λ c. 0) (λ c. 0) one_pod one_pod-IsHealthy refl cpu-Sums
      mem-Sums

admit_volume_ownership_iff_example :
    (is_ok (admit_volume_ownership request one_pod).0 ≡ true)
    ↔ All (MayMount request one_pod) request.spec.volumes
admit_volume_ownership_iff_example = admit_volume_ownership_iff request one_pod one_pod-IsHealthy

abbrev compile : String → Outcome Bool
compile e = value true

abbrev evaluate : Bool → PodView → Outcome Bool
evaluate p view = value p

abbrev policies : List Policy
policies = record { metadata = named "" "p"; expression = "true"; message = "" } ∷ []

empty-IsFaithful : IsFaithful compile []
unfolding lookup
empty-IsFaithful e prg l = absurd cc

admit_policies-cached_example :
    ((admit_policies compile evaluate policies request []).0
      ≡ denied_by compile evaluate policies (pod_view "a" [] request.spec))
    × IsFaithful compile (admit_policies compile evaluate policies request []).1
admit_policies-cached_example =
    admit_policies-cached compile evaluate policies request [] empty-IsFaithful
