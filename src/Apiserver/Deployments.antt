-- ===== src/Apiserver/Deployments.antt =====
-- internal/apiserver/deployment_service.go.
use nimbuscore.Prelude.{String, List, [], ◌∷◌, lookup_or, ◌==◌, if◌then◌else◌}
use nimbuscore.Api.{Pod, Deployment}
use nimbuscore.Cluster.{M, pure, raise, ◌>>=◌, ◌>>◌, pods, deployments, get, put, delete, list}
use nimbuscore.Controller.Schedule.{owner_deployment_label}
use nimbuscore.Admission.{Request, Validator, admit}
use nimbuscore.Apiserver.Codes.{
  answering, invalid_argument, internal, not_there, failed_precondition,
}

abbrev pub deployment_request : Deployment → Request
deployment_request d = record {
  namespace = d.metadata.namespace;
  name = d.metadata.name;
  labels = d.metadata.labels;
  spec = d.spec.template;
  replicas = d.spec.replicas;
}

-- The deployment keeps its own replica count: the chain changes the one of the request only.
abbrev pub stored_deployment : Deployment → Request → M Deployment
stored_deployment d req =
    let admitted = record d { spec = record d.spec { template = req.spec } } in
    answering internal (put deployments d.metadata.namespace d.metadata.name admitted)
    >> pure admitted

-- CreateDeployment
unfoldable pub create_deployment : List Validator → Deployment → M Deployment
create_deployment chain d =
    if d.metadata.name == ""
    then raise invalid_argument
    else (answering failed_precondition (admit chain (deployment_request d))
        >>= stored_deployment d)

-- GetDeployment
unfoldable pub get_deployment : String → String → M Deployment
get_deployment namespace name = answering not_there (get deployments namespace name)

-- ListDeployments
unfoldable pub list_deployments : String → M (List Deployment)
list_deployments namespace = answering internal (list deployments namespace)

-- The loop of DeleteDeployment over the pods of the namespace.
unfoldable pub delete_owned : String → List Pod → M (Unit {0})
delete_owned name [] = pure tt
delete_owned name (p ∷ ps) =
    let rest = delete_owned name ps in
    if lookup_or "" owner_deployment_label p.metadata.labels == name
    then (answering internal (delete pods p.metadata.namespace p.metadata.name) >> rest)
    else rest

-- DeleteDeployment
unfoldable pub delete_deployment : String → String → M (Unit {0})
unfolding delete_owned
delete_deployment namespace name =
    answering internal (delete deployments namespace name)
    >> (answering internal (list pods namespace) >>= delete_owned name)
