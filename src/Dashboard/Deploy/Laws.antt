-- ===== src/Dashboard/Deploy/Laws.antt =====
-- What an edit in the dashboard stores.
use nimbuscore.Prelude.{
  ℤ, Bool, not, ◌&&◌, is_empty, insert, lookup-insert, eq_refl, Bool-cases, inl, inr, subst, sym,
  if◌then◌else◌, pos, ltb_ℤ, String, true, false, List, [], ◌∷◌, none, some, lookup, ◌==◌, ◌≡◌,
  refl, ap, ◌∙◌, arith,
}
use nimbuscore.Api.{Pod, Deployment, Volume, VolumeMount}
use nimbuscore.Cluster.{Cluster, M, Result, ok, err, key, deployments, pods, delete, list}
use nimbuscore.Cluster.Reads.{list-state, IsHealthy, counted, counted-IsHealthy, get-up, put-up}
use nimbuscore.Admission.{Validator, admit, run_validators}
use nimbuscore.Admission.Volumes.{admit_volume_replicas}
use nimbuscore.Apiserver.Codes.{failed_precondition}
use nimbuscore.Apiserver.Deployments.{create_deployment, get_deployment}
use nimbuscore.Dashboard.Handlers.{Http, sent, code}
use nimbuscore.Dashboard.Request.{CreateDeploymentRequest, with_defaults, is_refused, deployment_of}
use nimbuscore.Dashboard.Deploy.{
  Envelope, volumes_of, delete_each, delete_listed, restart_owned_pods, template_volumes, deploy,
  handle_create_deployment, create_checked,
}

delete_each-ok : (name : String) (ps : List Pod) (s : Cluster) → (delete_each name ps s).0 ≡ ok tt
unfolding delete_each
delete_each-ok name [] s = refl
delete_each-ok name (p ∷ ps) s = ground (
  arith,
  delete_each-ok name ps s,
  delete_each-ok name ps (delete pods p.metadata.namespace p.metadata.name s).1,
)

delete_listed-ok :
    (name : String) (r : Result (List Pod)) (s : Cluster) → (delete_listed name r s).0 ≡ ok tt
delete_listed-ok name (ok ps) s = delete_each-ok name ps s
delete_listed-ok name (err e) s = refl

restart-ok :
    (namespace name : String) (s : Cluster) → (restart_owned_pods namespace name s).0 ≡ ok tt
unfolding restart_owned_pods
restart-ok namespace name s =
    delete_listed-ok name (list pods namespace s).0 (list pods namespace s).1

delete_each-deployments :
    (name : String) (ps : List Pod) (s : Cluster)
    → (delete_each name ps s).1.deployments ≡ s.deployments
unfolding delete_each delete
delete_each-deployments name [] s = refl
delete_each-deployments name (p ∷ ps) s = ground (
  arith,
  delete_each-deployments name ps s,
  delete_each-deployments name ps (delete pods p.metadata.namespace p.metadata.name s).1,
)

delete_listed-deployments :
    (name : String) (r : Result (List Pod)) (s : Cluster)
    → (delete_listed name r s).1.deployments ≡ s.deployments
delete_listed-deployments name (ok ps) s = delete_each-deployments name ps s
delete_listed-deployments name (err e) s = refl

restart-deployments :
    (namespace name : String) (s : Cluster)
    → (restart_owned_pods namespace name s).1.deployments ≡ s.deployments
unfolding restart_owned_pods
restart-deployments namespace name s =
    delete_listed-deployments name (list pods namespace s).0 (list pods namespace s).1
    ∙ ap (λ t. t.deployments) (list-state pods namespace s)

-- The validator on the replicas of deployments with volumes, which is one of those that the control
-- plane runs.
abbrev pub one_replica : List Validator
one_replica = admit_volume_replicas ∷ []

abbrev pub is_limited : List VolumeMount → ℤ → Bool
is_limited volumes replicas = not (is_empty volumes) && ltb_ℤ (pos 1) replicas

create_deployment-limited :
    (d : Deployment) (s : Cluster)
    → (d.metadata.name == "") ≡ false
    → is_limited d.spec.template.volumes d.spec.replicas ≡ true
    → create_deployment one_replica d s ≡ (err failed_precondition, s)
unfolding create_deployment admit run_validators admit_volume_replicas
create_deployment-limited d s n l = ground arith

create_deployment-stored :
    (d : Deployment) (s : Cluster)
    → IsHealthy s
    → (d.metadata.name == "") ≡ false
    → is_limited d.spec.template.volumes d.spec.replicas ≡ false
    → ((create_deployment one_replica d s).0 ≡ ok d)
      × ((create_deployment one_replica d s).1.deployments
          ≡ insert (key "deployments" d.metadata.namespace d.metadata.name) d s.deployments)
unfolding create_deployment admit run_validators admit_volume_replicas
create_deployment-stored d s h n l =
    let p = put-up deployments d.metadata.namespace s h d.metadata.name d in
    (ground (arith, p), ground (arith, p))

module _ (create_volume : Volume → M Volume) (req : CreateDeploymentRequest) (s : Cluster)
    (h : IsHealthy s) (named : (req.name == "") ≡ false)
    (no_service : ltb_ℤ (pos 0) req.port ≡ false) where
  deploy-limited :
      (volumes : List VolumeMount)
      → is_limited volumes req.replicas ≡ true
      → deploy one_replica create_volume req true volumes s ≡ (code 400, s)
  unfolding deploy
  deploy-limited volumes l =
      ground (arith, create_deployment-limited (deployment_of req volumes) s named l)

  deploy-edit :
      (volumes : List VolumeMount)
      → is_limited volumes req.replicas ≡ false
      → ((deploy one_replica create_volume req true volumes s).0
          ≡ sent (record { deployment = deployment_of req volumes; service = none }))
        × ((deploy one_replica create_volume req true volumes s).1.deployments
            ≡ insert
                (key "deployments" req.namespace req.name)
                (deployment_of req volumes)
                s.deployments)
  unfolding deploy
  deploy-edit volumes l =
      let c = create_deployment-stored (deployment_of req volumes) s h named l in
      let t = (create_deployment one_replica (deployment_of req volumes) s).1 in
      (
        ground (arith, c.0, restart-ok req.namespace req.name t),
        ground (
          arith,
          c.0,
          restart-ok req.namespace req.name t,
          restart-deployments req.namespace req.name t,
        )
            ∙ c.1,
      )

is_refused-named :
    (req : CreateDeploymentRequest) → is_refused req ≡ false → (req.name == "") ≡ false
unfolding is_refused
is_refused-named req h = ground arith

found_deployment :
    (namespace name : String) (d : Deployment) (s : Cluster)
    → IsHealthy s
    → lookup (key "deployments" namespace name) s.deployments ≡ some d
    → get_deployment namespace name s ≡ (ok d, counted s)
unfolding get_deployment
found_deployment namespace name d s h at = ground (arith, get-up deployments namespace s h name)

-- What an edit answers and stores: `refused` says whether it is refused.
abbrev pub IsEdited : Bool → String → Deployment → Deployment → Http Envelope × Cluster → Type 0
IsEdited refused k old new (r, t) =
    (r ≡ (if refused then code 400 else sent (record { deployment = new; service = none })))
    × (lookup k t.deployments ≡ some (if refused then old else new))

deploy-IsEdited :
    (create_volume : Volume → M Volume) (req : CreateDeploymentRequest) (d : Deployment)
    (s : Cluster)
    → IsHealthy s
    → lookup (key "deployments" req.namespace req.name) s.deployments ≡ some d
    → (req.name == "") ≡ false
    → ltb_ℤ (pos 0) req.port ≡ false
    → IsEdited
        (is_limited (volumes_of d) req.replicas)
        (key "deployments" req.namespace req.name)
        d
        (deployment_of req (volumes_of d))
        (deploy one_replica create_volume req true (volumes_of d) s)
deploy-IsEdited create_volume req d s h at named no_service =
    let k = key "deployments" req.namespace req.name in
    elim (Bool-cases (is_limited (volumes_of d) req.replicas)) [
      | inl l ↦
          rw (l, deploy-limited create_volume req s h named no_service (volumes_of d) l) (refl, at)
      | inr l ↦
          let e = deploy-edit create_volume req s h named no_service (volumes_of d) l in
          rw l (
            e.0,
            ap (lookup k) e.1
                ∙ ground (
                  arith,
                  lookup-insert k k (deployment_of req (volumes_of d)) s.deployments,
                  eq_refl k,
                ),
          )
    ]

checked_edit :
    (create_volume : Volume → M Volume) (req : CreateDeploymentRequest) (d : Deployment)
    (s : Cluster)
    → IsHealthy s
    → lookup (key "deployments" req.namespace req.name) s.deployments ≡ some d
    → is_refused req ≡ false
    → req.add_persistent_storage ≡ false
    → ltb_ℤ (pos 0) req.port ≡ false
    → IsEdited
        (is_limited (volumes_of d) req.replicas)
        (key "deployments" req.namespace req.name)
        d
        (deployment_of req (volumes_of d))
        (create_checked one_replica create_volume req s)
unfolding create_checked template_volumes
checked_edit create_volume req d s h at accepted no_storage no_service = rw accepted (
    rw (found_deployment req.namespace req.name d s h at) (
      rw no_storage (
        deploy-IsEdited create_volume req d (counted s) (counted-IsHealthy s h) at
          (is_refused-named req accepted) no_service)))

-- An edit of a deployment that is there, on a store that does not fail and with the validator for the
-- replicas of deployments with volumes: take a request that passes the checks and asks for no storage
-- and no port. Where the deployment has volumes and the request wants more than one replica, it is
-- refused with 400 and the deployment stays as it is. Otherwise the store then has the deployment that
-- is answered, with the volumes it had and the replicas of the request, and with no limits for the
-- autoscaler, whatever limits it had.
pub handle_create_deployment-edit :
    (create_volume : Volume → M Volume) (req : CreateDeploymentRequest) (d : Deployment)
    (s : Cluster)
    → IsHealthy s
    → lookup (key "deployments" req.namespace req.name) s.deployments ≡ some d
    → with_defaults req ≡ req
    → is_refused req ≡ false
    → req.add_persistent_storage ≡ false
    → ltb_ℤ (pos 0) req.port ≡ false
    → (out : Deployment) × IsEdited
        (is_limited d.spec.template.volumes req.replicas)
        (key "deployments" req.namespace req.name)
        d
        out
        (handle_create_deployment one_replica create_volume (some req) s)
      × (out.spec.template.volumes ≡ d.spec.template.volumes)
      × (out.spec.replicas ≡ req.replicas)
      × (out.spec.min_replicas ≡ pos 0)
      × (out.spec.max_replicas ≡ pos 0)
unfolding handle_create_deployment
handle_create_deployment-edit create_volume req d s h at full accepted no_storage no_service = (
  deployment_of req (volumes_of d),
  subst
      (λ r.
        IsEdited (is_limited (volumes_of d) req.replicas) (key "deployments" req.namespace req.name)
          d (deployment_of req (volumes_of d)) (create_checked one_replica create_volume r s))
      (sym full) (checked_edit create_volume req d s h at accepted no_storage no_service),
  refl,
  refl,
  refl,
  refl,
)
