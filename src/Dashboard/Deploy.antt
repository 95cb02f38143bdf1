-- ===== src/Dashboard/Deploy.antt =====
-- Creating, editing and scaling a deployment from the dashboard: `handleCreateDeployment`,
-- `handleScaleDeployment` and `handleDeployments` of internal/dashboard/dashboard.go.
pub mod Laws
use Prim.Native.String
use nimbuscore.Prelude.{
  ℕ, ℤ, pos, ltb_ℤ, leb_ℤ, String, Bool, true, false, not, ◌&&◌, ◌||◌, List, [], ◌∷◌, Option, none,
  some, Assoc, lookup_or, ◌==◌, if◌then◌else◌, is_empty,
}
use nimbuscore.Api.{
  Pod, Container, BuildSource, Deployment, Service, Volume, VolumeMount, ResourceRequirements,
  zero_meta, zero_container, zero_pod_spec, zero_resources, volume_unspecified,
}
use nimbuscore.Cluster.{Cluster, M, Result, ok, err, pure, attempt, ◌>>=◌, ◌>>◌, pods, list, delete}
use nimbuscore.Controller.Schedule.{owner_deployment_label}
use nimbuscore.Admission.{Validator}
use nimbuscore.Apiserver.Deployments.{create_deployment, get_deployment, list_deployments}
use nimbuscore.Apiserver.Services.{create_service}
use nimbuscore.Apiserver.Volumes.{get_volume}
use nimbuscore.Dashboard.Handlers.{
  Http, sent, code, Handler, send, refuse, went, after, Request, or_default, Sent, deployment_list,
  one_deployment, handle_delete_deployment,
}
use nimbuscore.Dashboard.Request.{
  CreateDeploymentRequest, links_to_label, comma_joined, with_defaults, build_of, resources_of,
  container_of, labels_of, deployment_of, volume_of, service_of, is_refused,
}

-- What is answered: the deployment, and the service or its error if one was asked for.
pub record Envelope : Type 0 where
  pub deployment : Deployment
  pub service : Option (Result Service)

-- The loop of restartOwnedPods, which goes on after an error.
unfoldable pub delete_each : String → List Pod → M (Unit {0})
delete_each name [] = pure tt
delete_each name (p ∷ ps) =
    let rest = delete_each name ps in
    if lookup_or "" owner_deployment_label p.metadata.labels == name
    then (attempt (delete pods p.metadata.namespace p.metadata.name) >> rest)
    else rest

abbrev pub delete_listed : String → Result (List Pod) → M (Unit {0})
delete_listed name (ok ps) = delete_each name ps
delete_listed name (err e) = pure tt

-- restartOwnedPods
unfoldable pub restart_owned_pods : String → String → M (Unit {0})
unfolding delete_each
restart_owned_pods namespace name = attempt (list pods namespace) >>= delete_listed name

abbrev pub volumes_of : Deployment → List VolumeMount
volumes_of d = d.spec.template.volumes

abbrev pub carried : Result Deployment → List VolumeMount
carried (ok d) = volumes_of d
carried (err e) = []

abbrev pub is_edit : Result Deployment → Bool
is_edit (ok d) = true
is_edit (err e) = false

abbrev pub serve : CreateDeploymentRequest → M (Option (Result Service))
serve req =
    if ltb_ℤ (pos 0) req.port
    then (attempt (create_service (service_of req)) >>= λ r. pure (some r))
    else pure none

-- scaleDeploymentRequest
pub record ScaleDeploymentRequest : Type 0 where
  pub namespace : String
  pub name : String
  pub replicas : ℤ

-- `create_volume` is the volume service's CreateVolume.
module _ (chain : List Validator) (create_volume : Volume → M Volume) where
  abbrev pub made_volume : CreateDeploymentRequest → Result Volume → M (Unit {0})
  made_volume req (ok v) = pure tt
  made_volume req (err e) = create_volume (volume_of req) >> pure tt

  -- The volumes of the template: the new one, or those of the deployment that is edited.
  unfoldable pub template_volumes :
      CreateDeploymentRequest
      → Result Deployment
      → (List VolumeMount → Handler Envelope)
      → Handler Envelope
  template_volumes req existing f =
      if req.add_persistent_storage
      then (after 500 (attempt (get_volume req.namespace req.name) >>= made_volume req) λ u.
          f (
            record { volume_name = req.name; mount_path = req.mount_path; read_only = false } ∷ []))
      else f (carried existing)

  abbrev pub restarted : CreateDeploymentRequest → Bool → M (Unit {0})
  restarted req edit = if edit then restart_owned_pods req.namespace req.name else pure tt

  -- What handleCreateDeployment does once it knows the volumes.
  unfoldable pub deploy : CreateDeploymentRequest → Bool → List VolumeMount → Handler Envelope
  deploy req edit volumes =
      after 400 (create_deployment chain (deployment_of req volumes)) λ created.
        after 500 (restarted req edit)
          λ u. after 500 (serve req) λ r. send (record { deployment = created; service = r })

  abbrev pub looked_up : CreateDeploymentRequest → Result Deployment → Handler Envelope
  looked_up req existing = template_volumes req existing (deploy req (is_edit existing))

  -- handleCreateDeployment behind the defaults
  unfoldable pub create_checked : CreateDeploymentRequest → Handler Envelope
  unfolding is_refused template_volumes deploy
  create_checked req =
      if is_refused req
      then refuse 400
      else after 500 (attempt (get_deployment req.namespace req.name)) (looked_up req)

  -- handleCreateDeployment
  unfoldable pub handle_create_deployment : Option CreateDeploymentRequest → Handler Envelope
  unfolding create_checked
  handle_create_deployment none = refuse 400
  handle_create_deployment (some body) = create_checked (with_defaults body)

  abbrev pub rescaled : ℤ → Deployment → Handler Sent
  rescaled replicas d =
      if not (is_empty (volumes_of d)) && ltb_ℤ (pos 1) replicas
      then refuse 400
      else (after 400
          (create_deployment chain (record d { spec = record d.spec { replicas = replicas } }))
          λ updated. send (one_deployment updated))

  -- handleScaleDeployment
  unfoldable pub handle_scale_deployment : Option ScaleDeploymentRequest → Handler Sent
  handle_scale_deployment none = refuse 400
  handle_scale_deployment (some req) =
      if req.name == ""
      then refuse 400
      else if ltb_ℤ req.replicas (pos 0)
      then refuse 400
      else (after 404 (get_deployment (or_default req.namespace) req.name) (rescaled req.replicas))

-- The part of handleDeployments that lists and deletes.
unfoldable pub handle_deployments : Request → Handler Sent
handle_deployments r =
    if r.method == "GET"
    then (after 500 (list_deployments "") λ items. send (deployment_list items))
    else if r.method == "DELETE"
    then handle_delete_deployment r
    else refuse 405
