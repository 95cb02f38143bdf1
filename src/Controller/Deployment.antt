-- ===== src/Controller/Deployment.antt =====
-- internal/controller/deployment.go: the reconciliation of one deployment.
pub mod Indices
pub mod Names
pub mod Scaling
pub mod ScaleUp
pub mod Owned
mod Tests
use Prim.Native.String.{◌++◌}
use nimbuscore.Prelude.{
  ◌+ℤ◌, ◌-ℤ◌, negsuc, ℕ, zero, suc, ◌+◌, ◌-◌, String, ℤ, pos, pos_part, ltb_ℤ, eq_ℤ, wrap, half32,
  Bool, true, false, ◌&&◌, ◌||◌, not, List, [], ◌∷◌, Option, none, some, Assoc, lookup_or, insert,
  length, any, is_empty, drop, atoi, itoa, trim_prefix, ltb, ◌==◌, if◌then◌else◌,
}
use nimbuscore.Api.{
  Pod, PodSpec, Node, Deployment, Volume, VolumeMount, phase_pending, is_running, is_terminal,
  zero_meta, zero_pod_status,
}
use nimbuscore.Cluster.{
  M, Error, not_found, panicked, Result, ok, err, pure, raise, attempt, ◌>>=◌, ◌>>◌, pods, nodes,
  deployments, volumes, get, put, delete, list,
}
use nimbuscore.Controller.Schedule.{owner_deployment_label, put_pod, schedule_unassigned}

abbrev pub ready_of : Result Node → M Bool
ready_of (ok node) = pure node.status.ready
ready_of (err not_found) = pure false
ready_of (err e) = raise e

-- DeploymentReconciler.nodeReady
unfoldable pub node_ready : String → M Bool
node_ready name = do r ← attempt (get nodes "" name); ready_of r

abbrev pub delete_pod : Pod → M (Unit {0})
delete_pod p = delete pods p.metadata.namespace p.metadata.name

-- The label that `newPod` writes.
abbrev pub is_owned_by : Deployment → Pod → Bool
is_owned_by d p = lookup_or "" owner_deployment_label p.metadata.labels == d.metadata.name

-- The pod stands on a node that is not ready.
unfoldable pub is_stranded : Pod → M Bool
is_stranded p =
    if p.spec.node_name == ""
    then pure false
    else (do ready ← node_ready p.spec.node_name; pure (not ready))

-- One round of the loop of `ownedPods`; `rest` are the rounds behind it.
unfoldable pub owned_round : Deployment → Pod → M (List Pod) → M (List Pod)
unfolding is_stranded
owned_round d p rest = if not (is_owned_by d p) then rest else do
  stranded ← is_stranded p
  if stranded || is_terminal p.status.phase
      then delete_pod p >> rest
      else do ps ← rest; pure (p ∷ ps)

unfoldable pub owned_loop : Deployment → List Pod → M (List Pod)
owned_loop d [] = pure []
owned_loop d (p ∷ ps) = owned_round d p (owned_loop d ps)

-- DeploymentReconciler.ownedPods
unfoldable pub owned_pods : Deployment → M (List Pod)
owned_pods d = do all_pods ← list pods d.metadata.namespace; owned_loop d all_pods

-- `want`: the replicas asked for, at most one where a volume is mounted.
unfoldable pub wanted : Deployment → ℤ
wanted d =
    if not (is_empty d.spec.template.volumes) && ltb_ℤ (pos 1) d.spec.replicas
    then pos 1
    else d.spec.replicas

-- The keys of `occupied`.
unfoldable pub occupied : String → List Pod → List ℤ
occupied prefix [] = []
occupied prefix (p ∷ ps) =
    let rest = occupied prefix ps in
    elim (atoi (trim_prefix p.metadata.name prefix)) [ none ↦ rest | some i ↦ i ∷ rest ]

-- The indices at which `for i := 0; toCreate > 0; i++` creates a pod. Each round takes one of the
-- fuel: `Deployment.Indices` shows that the indices in use and the pods to create are enough.
unfoldable pub free_indices : ℕ → List ℤ → ℕ → ℕ → List ℕ
free_indices fuel used i zero = []
free_indices zero used i (suc to_create) = []
free_indices (suc fuel) used i (suc to_create) =
    let skipped = free_indices fuel used (suc i) (suc to_create) in
    let created = i ∷ free_indices fuel used (suc i) to_create in
    if any (eq_ℤ (pos i)) used then skipped else created

-- DeploymentReconciler.newPod
unfoldable pub new_pod : Deployment → ℕ → Pod
new_pod d index = record {
  metadata = record zero_meta {
    name = d.metadata.name ++ "-" ++ itoa index;
    namespace = d.metadata.namespace;
    labels = insert owner_deployment_label d.metadata.name d.spec.selector;
  };
  spec = d.spec.template;
  status = record zero_pod_status { phase = phase_pending };
}

abbrev pub pinned : String → Pod → Pod
pinned node_name p =
    if node_name == "" then p else record p { spec = record p.spec { node_name = node_name } }

unfoldable pub create_pods : Deployment → String → List ℕ → M (Unit {0})
create_pods d claimed [] = pure tt
create_pods d claimed (i ∷ is) = do put_pod (pinned claimed (new_pod d i)); create_pods d claimed is

abbrev pub claimed_by : Result Volume → M String → M String
claimed_by (ok vol) rest = if vol.status.node_name == "" then rest else pure vol.status.node_name
claimed_by (err not_found) rest = rest
claimed_by (err e) rest = raise e

-- DeploymentReconciler.resolveVolumeNode
unfoldable pub resolve_volume_node : String → List VolumeMount → M String
resolve_volume_node namespace [] = pure ""
resolve_volume_node namespace (m ∷ ms) =
    let rest = resolve_volume_node namespace ms in
    do r ← attempt (get volumes namespace m.volume_name); claimed_by r rest

-- The case `have < want`.
unfoldable pub scale_up : Deployment → List Pod → ℕ → M (Unit {0})
scale_up d owned to_create = do
  claimed ← resolve_volume_node d.metadata.namespace d.spec.template.volumes
  let used = occupied (d.metadata.name ++ "-") owned
  create_pods d claimed (free_indices (length used + to_create) used 0 to_create)

unfoldable pub get_elem? : List Pod → ℕ → Option Pod
get_elem? [] i = none
get_elem? (p ∷ ps) zero = some p
get_elem? (p ∷ ps) (suc i) = get_elem? ps i

-- `owned[i]`, if the index is in range
unfoldable pub pod_at : List Pod → ℤ → Option Pod
unfolding get_elem?
pod_at owned (pos i) = get_elem? owned i
pod_at owned (negsuc i) = none

-- An index out of range ends the process.
abbrev pub delete_at : Option Pod → M (Unit {0})
delete_at none = raise panicked
delete_at (some p) = delete_pod p

-- The loop `for i := want; i < have; i++`, for this many rounds.
unfoldable pub delete_from : ℕ → List Pod → ℤ → M (Unit {0})
unfolding pod_at
delete_from zero owned i = pure tt
delete_from (suc rounds) owned i =
    delete_at (pod_at owned i) >> delete_from rounds owned (i +ℤ pos 1)

-- The case `have > want`, with `have - want` rounds.
unfoldable pub scale_down : List Pod → ℤ → M (Unit {0})
unfolding delete_from
scale_down owned want = delete_from (pos_part (pos (length owned) -ℤ want)) owned want

unfoldable pub scale : Deployment → List Pod → M (Unit {0})
scale d owned =
    if ltb_ℤ (pos (length owned)) (wanted d)
    then scale_up d owned (pos_part (wanted d) - length owned)
    else if ltb_ℤ (wanted d) (pos (length owned))
    then scale_down owned (wanted d)
    else pure tt

-- The first node that a pod is assigned to.
unfoldable pub first_node : List Pod → String
first_node [] = ""
first_node (p ∷ ps) =
    let rest = first_node ps in if p.spec.node_name == "" then rest else p.spec.node_name

abbrev claim : Deployment → String → Result Volume → M (Unit {0})
claim d node_name (ok vol) =
    if vol.status.node_name == ""
    then put volumes d.metadata.namespace vol.metadata.name (record vol {
      status = record vol.status { node_name = node_name };
      metadata = record vol.metadata {
        labels = insert owner_deployment_label d.metadata.name vol.metadata.labels;
      };
    })
    else pure tt
claim d node_name (err not_found) = pure tt
claim d node_name (err e) = raise e

unfoldable pub claim_volumes : Deployment → String → List VolumeMount → M (Unit {0})
claim_volumes d node_name [] = pure tt
claim_volumes d node_name (m ∷ ms) = do
  r ← attempt (get volumes d.metadata.namespace m.volume_name)
  claim d node_name r
  claim_volumes d node_name ms

-- DeploymentReconciler.claimVolumeNodes
unfoldable pub claim_volume_nodes : Deployment → List Pod → M (Unit {0})
claim_volume_nodes d owned =
    if first_node owned == ""
    then pure tt
    else claim_volumes d (first_node owned) d.spec.template.volumes

unfoldable pub count_running : List Pod → ℕ
count_running [] = 0
count_running (p ∷ ps) =
    let rest = count_running ps in if is_running p.status.phase then suc rest else rest

-- DeploymentReconciler.reconcileOne. An error of the scheduling or of the claims is logged only.
unfoldable pub reconcile_one : Deployment → M (Unit {0})
reconcile_one d = do
  owned ← owned_pods d
  scale d owned
  owned ← owned_pods d
  (owned, _) ← schedule_unassigned owned
  attempt (claim_volume_nodes d owned)
  current ← get deployments d.metadata.namespace d.metadata.name
  put deployments current.metadata.namespace current.metadata.name (record current {
    status = record {
      replicas = wrap half32 (pos (length owned));
      ready_replicas = wrap half32 (pos (count_running owned));
    };
  })

abbrev after : M (Unit {0}) → Result (Unit {0}) → M (Unit {0})
after rest (err panicked) = raise panicked
after rest _ = rest

unfoldable pub reconcile_each : List Deployment → M (Unit {0})
reconcile_each [] = pure tt
reconcile_each (d ∷ ds) =
    let rest = reconcile_each ds in do r ← attempt (reconcile_one d); after rest r

-- DeploymentReconciler.reconcileAll
unfoldable pub reconcile_all : M (Unit {0})
reconcile_all = do ds ← list deployments ""; reconcile_each ds
