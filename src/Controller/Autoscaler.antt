-- ===== src/Controller/Autoscaler.antt =====
-- `reconcileAll` and `reconcileOne` of internal/controller/hpa.go: the replica count of a deployment
-- follows the memory that its pods use. The utilization is floating point: `ask` gives the count that
-- comes out of it, `int32(math.Ceil(...))`, from the memory of the running pods, the memory that a
-- replica asks for and the present count.
pub mod Capping
pub mod Laws
mod Tests
use nimbuscore.Prelude.{
  String, ℤ, pos, ltb_ℤ, leb_ℤ, eq_ℤ, wrap, half32, Bool, true, false, not, ◌&&◌, ◌||◌, keep, map,
  List, [], ◌∷◌, length, lookup_or, is_empty, if◌then◌else◌, ◌==◌,
}
use nimbuscore.Api.{Pod, Container, Deployment, is_running}
use nimbuscore.Cluster.{
  M, Result, ok, err, pure, attempt, ◌>>=◌, ◌>>◌, deployments, pods, get, put, list,
}
use nimbuscore.Controller.Schedule.{owner_deployment_label}
use nimbuscore.Controller.Capacity.{cap_to_cluster_capacity}

abbrev pub counts_for : Deployment → Pod → Bool
counts_for d p =
    lookup_or "" owner_deployment_label p.metadata.labels == d.metadata.name
    && is_running p.status.phase

-- The memory of the running pods of the deployment.
unfoldable pub used_memory : Deployment → List Pod → List ℤ
used_memory d ps = map (λ p. p.status.memory_usage_bytes) (keep (counts_for d) ps)

abbrev pub least_replicas : Deployment → ℤ
least_replicas d = if leb_ℤ d.spec.min_replicas (pos 0) then pos 1 else d.spec.min_replicas

abbrev pub target_memory : List Container → ℤ
target_memory [] = pos 0
target_memory (c ∷ cs) = c.resources.requests.memory_bytes

abbrev pub at_least : ℤ → ℤ → ℤ
at_least low n = if ltb_ℤ n low then low else n

abbrev pub at_most : ℤ → ℤ → ℤ
at_most high n = if ltb_ℤ high n then high else n

abbrev pub current_replicas : Deployment → List ℤ → ℤ
current_replicas d used =
    if leb_ℤ d.spec.replicas (pos 0) then wrap half32 (pos (length used)) else d.spec.replicas

abbrev pub with_replicas : ℤ → Deployment → Deployment
with_replicas n d = record d { spec = record d.spec { replicas = n } }

-- The end of reconcileOne: the deployment is read again and written with the new count.
unfoldable pub write_replicas : Deployment → ℤ → M (Unit {0})
write_replicas d n =
    if eq_ℤ n d.spec.replicas
    then pure tt
    else (get deployments d.metadata.namespace d.metadata.name >>= λ c.
        put deployments c.metadata.namespace c.metadata.name (with_replicas n c))

unfoldable pub within_capacity : Deployment → ℤ → ℤ → M ℤ
unfolding cap_to_cluster_capacity
within_capacity d current desired =
    if ltb_ℤ current desired
    then (cap_to_cluster_capacity d current desired >>= λ r. pure r.0)
    else pure desired

module _ (ask : List ℤ → ℤ → ℤ → ℤ) where
  abbrev pub desired_replicas : Deployment → List ℤ → ℤ
  desired_replicas d used = at_most d.spec.max_replicas (
      at_least (least_replicas d)
        (ask used (target_memory d.spec.template.containers) (current_replicas d used)))

  abbrev pub follow : Deployment → List ℤ → M (Unit {0})
  follow d used =
      if is_empty used
      then pure tt
      else (within_capacity d (current_replicas d used) (desired_replicas d used)
          >>= write_replicas d)

  -- HorizontalAutoscaler.reconcileOne
  unfoldable pub reconcile_one : Deployment → M (Unit {0})
  unfolding used_memory write_replicas within_capacity
  reconcile_one d =
      if leb_ℤ d.spec.max_replicas (pos 0)
        || leb_ℤ (target_memory d.spec.template.containers) (pos 0)
      then pure tt
      else (list pods d.metadata.namespace >>= λ ps. follow d (used_memory d ps))

  unfoldable pub reconcile_each : List Deployment → M (Unit {0})
  unfolding reconcile_one
  reconcile_each [] = pure tt
  reconcile_each (d ∷ ds) = attempt (reconcile_one d) >> reconcile_each ds

  -- HorizontalAutoscaler.reconcileAll, which logs its errors
  unfoldable pub reconcile_all : M (Unit {0})
  unfolding reconcile_each
  reconcile_all = list deployments "" >>= reconcile_each
