-- ===== src/Controller/Usage.antt =====
-- What the pods of each node request: `computeNodeUsage` of internal/controller/deployment.go,
-- `podResourceRequest` and `buildNodeCandidates` of internal/controller/scheduling.go.
use nimbuscore.Prelude.{
  ℤ, pos, add64, Bool, not, ◌||◌, List, [], ◌∷◌, ◌++◌, Assoc, lookup_or, insert, ◌==◌,
  if◌then◌else◌,
}
use nimbuscore.Api.{Container, Pod, Node}
use nimbuscore.Cluster.{M, pure, ◌>>=◌, pods, nodes, list}
use nimbuscore.Scheduler.{NodeCandidate}

-- `ports` holds the keys of the map whose value is true.
pub record NodeUsage : Type 0 where
  pub cpu_millis : ℤ
  pub memory_bytes : ℤ
  pub accelerators : Assoc ℤ
  pub ports : List ℤ

abbrev pub no_usage : NodeUsage
no_usage = record { cpu_millis = pos 0; memory_bytes = pos 0; accelerators = []; ports = [] }

-- for name, count := range counts { m[name] += count }
unfoldable pub add_counts : Assoc ℤ → Assoc ℤ → Assoc ℤ
add_counts m [] = m
add_counts m ((name, count) ∷ counts) =
    add_counts (insert name (add64 (lookup_or (pos 0) name m) count) m) counts

unfoldable pub add_container : NodeUsage → Container → NodeUsage
add_container u c = record {
  cpu_millis = add64 u.cpu_millis c.resources.requests.cpu_millis;
  memory_bytes = add64 u.memory_bytes c.resources.requests.memory_bytes;
  accelerators = add_counts u.accelerators c.resources.requests.accelerators;
  ports = u.ports ++ c.container_ports;
}

unfoldable pub add_containers : NodeUsage → List Container → NodeUsage
add_containers u [] = u
add_containers u (c ∷ cs) = add_containers (add_container u c) cs

-- One round of the loop over the pods.
unfoldable pub add_pod : Assoc NodeUsage → Pod → Assoc NodeUsage
add_pod usage p =
    if p.spec.node_name == ""
    then usage
    else insert p.spec.node_name
        (add_containers (lookup_or no_usage p.spec.node_name usage) p.spec.containers) usage

unfoldable pub usage_of : Assoc NodeUsage → List Pod → Assoc NodeUsage
usage_of usage [] = usage
usage_of usage (p ∷ ps) = usage_of (add_pod usage p) ps

unfoldable pub compute_node_usage : M (Assoc NodeUsage)
compute_node_usage = do all_pods ← list pods ""; pure (usage_of [] all_pods)

unfoldable pub candidate : Assoc NodeUsage → Node → NodeCandidate
candidate usage n =
    let u = lookup_or no_usage n.metadata.name usage in
    record {
      name = n.metadata.name;
      cpu_capacity = n.status.allocatable.cpu_millis;
      mem_capacity = n.status.allocatable.memory_bytes;
      cpu_used = u.cpu_millis;
      mem_used = u.memory_bytes;
      accelerator_capacity = n.status.allocatable.accelerators;
      accelerator_used = u.accelerators;
      used_ports = u.ports;
    }

-- A node that takes pods.
abbrev pub is_available : Node → Bool
is_available n = not (not n.status.ready || n.unschedulable)

unfoldable pub candidates_of : Assoc NodeUsage → List Node → List NodeCandidate
candidates_of usage [] = []
candidates_of usage (n ∷ ns) =
    let rest = candidates_of usage ns in if is_available n then candidate usage n ∷ rest else rest

unfoldable pub build_node_candidates : Assoc NodeUsage → M (List NodeCandidate)
build_node_candidates usage = do all_nodes ← list nodes ""; pure (candidates_of usage all_nodes)

-- podResourceRequest sums over the containers of one pod, as the usage of a node does.
unfoldable pub pod_resource_request : Pod → NodeUsage
pod_resource_request p = add_containers no_usage p.spec.containers
