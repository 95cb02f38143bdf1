-- ===== src/Apiserver/Pods.antt =====
-- internal/apiserver/pod_service.go. The identity of the caller is what `PeerSPIFFEID` finds.
pub mod Isolation
use nimbuscore.Prelude.{
  String, ℤ, pos, Bool, true, false, not, ◌&&◌, List, Option, none, some, has_prefix, trim_prefix,
  ◌==◌, if◌then◌else◌,
}
use nimbuscore.Api.{Pod, PodStatus, PodSpec}
use nimbuscore.Cluster.{M, pure, raise, ◌>>=◌, ◌>>◌, pods, get, put, delete, list}
use nimbuscore.Admission.{Request, Validator, admit}
use nimbuscore.Apiserver.Auth.{SpiffeId}
use nimbuscore.Apiserver.Codes.{
  answering, invalid_argument, internal, not_there, failed_precondition, permission_refused,
}

abbrev pub pod_request : Pod → Request
pod_request p = record {
  namespace = p.metadata.namespace;
  name = "";
  labels = p.metadata.labels;
  spec = p.spec;
  replicas = pos 1;
}

abbrev pub stored_pod : Pod → Request → M Pod
stored_pod p req =
    let admitted = record p { spec = req.spec } in
    answering internal (put pods p.metadata.namespace p.metadata.name admitted) >> pure admitted

-- CreatePod: the validators write to the pod's own template.
unfoldable pub create_pod : List Validator → Pod → M Pod
create_pod chain p =
    if p.metadata.name == ""
    then raise invalid_argument
    else (answering failed_precondition (admit chain (pod_request p)) >>= stored_pod p)

-- GetPod
unfoldable pub get_pod : String → String → M Pod
get_pod namespace name = answering not_there (get pods namespace name)

-- ListPods
unfoldable pub list_pods : String → M (List Pod)
list_pods namespace = answering internal (list pods namespace)

-- DeletePod
unfoldable pub delete_pod : String → String → M (Unit {0})
delete_pod namespace name = answering internal (delete pods namespace name)

-- A node asks, and the pod stands on another one.
abbrev pub is_foreign : Option SpiffeId → Pod → Bool
is_foreign none p = false
is_foreign (some id) p =
    has_prefix id.path "/node/"
    && not (p.spec.node_name == "")
    && not (p.spec.node_name == trim_prefix id.path "/node/")

abbrev pub with_status : Pod → PodStatus → Pod
with_status p status = record p { status = status }

abbrev pub updated : Option SpiffeId → String → String → PodStatus → Pod → M Pod
updated caller namespace name status p =
    if is_foreign caller p
    then raise permission_refused
    else (answering internal (put pods namespace name (with_status p status))
        >> pure (with_status p status))

-- UpdatePodStatus
unfoldable pub update_pod_status : Option SpiffeId → String → String → PodStatus → M Pod
update_pod_status caller namespace name status =
    answering not_there (get pods namespace name) >>= updated caller namespace name status
