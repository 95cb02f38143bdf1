-- ===== src/Controller/Schedule.antt =====
-- `schedulePod` of internal/controller/scheduling.go and internal/controller/pod.go.
pub mod Passes
use Prim.Native.String.{◌++◌}
use nimbuscore.Prelude.{
  String, ℤ, pos, negsuc, Bool, true, false, ◌&&◌, List, [], ◌∷◌, Option, none, some, lookup_or,
  any, keep, is_empty, itoa, suc, ◌==◌, not, if◌then◌else◌,
}
use nimbuscore.Api.{Pod, is_terminal}
use nimbuscore.Cluster.{M, Result, ok, err, pure, attempt, ◌>>=◌, ◌>>◌, pods, put, list}
use nimbuscore.Scheduler.{NodeCandidate, PodRequest, schedule}
use nimbuscore.Controller.Usage.{
  NodeUsage, pod_resource_request, compute_node_usage, build_node_candidates,
}

abbrev pub owner_deployment_label : String
owner_deployment_label = "nimbuscore.io/owner-deployment"

unfoldable pub decimal : ℤ → String
decimal (pos n) = itoa n
decimal (negsuc n) = "-" ++ itoa (suc n)

port_words : List ℤ → String
port_words [] = ""
port_words (p ∷ []) = decimal p
port_words (p ∷ ps) = decimal p ++ " " ++ port_words ps

-- The verb %v at a slice of numbers.
unfoldable pub port_list : List ℤ → String
unfolding port_words
port_list ps = "[" ++ port_words ps ++ "]"

unfoldable pub pending_message : List ℤ → String
unfolding port_list
pending_message [] = "waiting for a node with enough free CPU/memory"
pending_message (p ∷ ps) =
    "waiting for a node with enough free CPU/memory and an available port for containerPort(s) "
    ++ port_list (p ∷ ps)

abbrev pub request_with : String → NodeUsage → PodRequest
request_with name u = record {
  name = name;
  cpu_request = u.cpu_millis;
  mem_request = u.memory_bytes;
  accelerators_requested = u.accelerators;
  container_ports = u.ports;
}

abbrev pub request_of : Pod → PodRequest
request_of p = request_with p.metadata.name (pod_resource_request p)

abbrev pub put_pod : Pod → M (Unit {0})
put_pod p = put pods p.metadata.namespace p.metadata.name p

-- The pod as `schedulePod` leaves it in memory. An empty message is cleared or stays empty.
unfoldable pub placed : Pod → Option String → Pod
placed p none = record p {
  status = record p.status { message = pending_message (pod_resource_request p).ports };
}
placed p (some node_name) = record p {
  spec = record p.spec { node_name = node_name };
  status = record p.status { message = "" };
}

-- A pod that waits for the reason that it already shows is not written again.
unfoldable pub is_unchanged : Pod → Option String → Bool
is_unchanged p none = p.status.message == pending_message (pod_resource_request p).ports
is_unchanged p (some node_name) = false

unfoldable pub schedule_pod : List NodeCandidate → Pod → M (Unit {0})
unfolding placed is_unchanged
schedule_pod candidates p =
    let choice = schedule (request_of p) candidates in
    if is_unchanged p choice then pure tt else put_pod (placed p choice)

abbrev pub is_unassigned : Pod → Bool
is_unassigned p = p.spec.node_name == ""

-- The loop of `scheduleUnassigned`, which stops at the first error. The pods are shared with the
-- caller, which goes on with them as the loop leaves them.
abbrev pub continue :
    Pod
    → List Pod
    → M (List Pod × Result (Unit {0}))
    → Result (Unit {0})
    → M (List Pod × Result (Unit {0}))
continue p ps rest (ok _) = do (qs, r) ← rest; pure (p ∷ qs, r)
continue p ps rest (err e) = pure (p ∷ ps, err e)

unfoldable pub schedule_each : List NodeCandidate → List Pod → M (List Pod × Result (Unit {0}))
schedule_each candidates [] = pure ([], ok tt)
schedule_each candidates (p ∷ ps) =
    let rest = schedule_each candidates ps in
    if is_unassigned p
    then (do
      r ← attempt (schedule_pod candidates p)
      continue (placed p (schedule (request_of p) candidates)) ps rest r)
    else (do (qs, r) ← rest; pure (p ∷ qs, r))

abbrev with_candidates : List Pod → Result (List NodeCandidate) → M (List Pod × Result (Unit {0}))
with_candidates ps (ok candidates) = schedule_each candidates ps
with_candidates ps (err e) = pure (ps, err e)

-- DeploymentReconciler.scheduleUnassigned
unfoldable pub schedule_unassigned : List Pod → M (List Pod × Result (Unit {0}))
unfolding schedule_each
schedule_unassigned ps =
    if any is_unassigned ps
    then (do
      r ← attempt (do usage ← compute_node_usage; build_node_candidates usage)
      with_candidates ps r)
    else pure (ps, ok tt)

-- The pods that PodReconciler.reconcileAll looks at.
unfoldable pub is_loose : Pod → Bool
is_loose p =
    lookup_or "" owner_deployment_label p.metadata.labels == ""
    && (p.spec.node_name == "" && not (is_terminal p.status.phase))

-- Its loop goes on after an error.
unfoldable pub schedule_loose : List NodeCandidate → List Pod → M (Unit {0})
schedule_loose candidates [] = pure tt
schedule_loose candidates (p ∷ ps) = do
  attempt (schedule_pod candidates p)
  schedule_loose candidates ps

-- PodReconciler.reconcileAll. What it logs as an error it returns.
unfoldable pub reconcile_pods : M (Unit {0})
reconcile_pods = do
  all_pods ← list pods ""
  let unassigned = keep is_loose all_pods
  if is_empty unassigned then pure tt else do
    usage ← compute_node_usage
    candidates ← build_node_candidates usage
    schedule_loose candidates unassigned
