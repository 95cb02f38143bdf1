-- ===== src/Controller/Capacity.antt =====
-- internal/controller/capacity.go and `capToClusterCapacity` of hpa.go: how many more replicas of a
-- deployment the ready nodes have room for.
pub mod Fits
use nimbuscore.Prelude.{
  ℕ, ◌/◌, String, ℤ, pos, pos_part, ltb, ltb_ℤ, leb_ℤ, add64, sub64, add32, sub32, Bool, true,
  false, List, [], ◌∷◌, Assoc, lookup_or, if◌then◌else◌,
}
use nimbuscore.Api.{Node, Deployment}
use nimbuscore.Cluster.{M, pure, ◌>>=◌, nodes, list}
use nimbuscore.Controller.Usage.{
  NodeUsage, no_usage, add_counts, add_containers, is_available, compute_node_usage,
}

pub record ClusterCapacity : Type 0 where
  pub cpu_capacity : ℤ
  pub cpu_used : ℤ
  pub mem_capacity : ℤ
  pub mem_used : ℤ
  pub accelerator_capacity : Assoc ℤ
  pub accelerator_used : Assoc ℤ

abbrev pub no_capacity : ClusterCapacity
no_capacity = record {
  cpu_capacity = pos 0;
  cpu_used = pos 0;
  mem_capacity = pos 0;
  mem_used = pos 0;
  accelerator_capacity = [];
  accelerator_used = [];
}

abbrev pub with_node : NodeUsage → Node → ClusterCapacity → ClusterCapacity
with_node u n c = record {
  cpu_capacity = add64 c.cpu_capacity n.status.allocatable.cpu_millis;
  cpu_used = add64 c.cpu_used u.cpu_millis;
  mem_capacity = add64 c.mem_capacity n.status.allocatable.memory_bytes;
  mem_used = add64 c.mem_used u.memory_bytes;
  accelerator_capacity = add_counts c.accelerator_capacity n.status.allocatable.accelerators;
  accelerator_used = add_counts c.accelerator_used u.accelerators;
}

-- The loop over the nodes, which skips those that take no pods.
unfoldable pub add_nodes : Assoc NodeUsage → ClusterCapacity → List Node → ClusterCapacity
add_nodes usage c [] = c
add_nodes usage c (n ∷ ns) =
    add_nodes usage
      (if is_available n then with_node (lookup_or no_usage n.metadata.name usage) n c else c) ns

-- computeClusterCapacity
unfoldable pub compute_cluster_capacity : Assoc NodeUsage → M ClusterCapacity
unfolding add_nodes
compute_cluster_capacity usage = do
  all_nodes ← list nodes ""
  pure (add_nodes usage no_capacity all_nodes)

abbrev pub max_int32 : ℕ
max_int32 = 0x7fffffff

-- fitCount
unfoldable pub fit_count : ℤ → ℤ → ℤ
fit_count remaining per_unit =
    if leb_ℤ per_unit (pos 0)
    then pos max_int32
    else (if leb_ℤ remaining (pos 0)
        then pos 0
        else (if ltb max_int32 (pos_part remaining / pos_part per_unit)
            then pos max_int32
            else pos (pos_part remaining / pos_part per_unit)))

abbrev pub smaller : ℤ → ℤ → ℤ
smaller fit least = if ltb_ℤ fit least then fit else least

abbrev pub room_for : ClusterCapacity → String → ℤ → ℤ
room_for c name per =
    fit_count
      (sub64 (lookup_or (pos 0) name c.accelerator_capacity)
        (lookup_or (pos 0) name c.accelerator_used))
      per

unfoldable pub least_accelerator : ClusterCapacity → ℤ → Assoc ℤ → ℤ
least_accelerator c least [] = least
least_accelerator c least ((name, per) ∷ rest) =
    least_accelerator c (smaller (room_for c name per) least) rest

-- clusterCapacity.maxAdditionalReplicas
unfoldable pub max_additional_replicas : ClusterCapacity → ℤ → ℤ → Assoc ℤ → ℤ
unfolding fit_count least_accelerator
max_additional_replicas c cpu mem accelerators =
    least_accelerator c
      (smaller (fit_count (sub64 c.mem_capacity c.mem_used) mem)
        (smaller (fit_count (sub64 c.cpu_capacity c.cpu_used) cpu) (pos max_int32)))
      accelerators

-- The replicas that the capacity allows, and how many are missing.
unfoldable pub capped : ℤ → ℤ → ℤ → ℤ × ℤ
capped max_additional current desired =
    if leb_ℤ (sub32 desired current) max_additional
    then (desired, pos 0)
    else (let sum = add32 current max_additional in
        let kept = if ltb_ℤ sum current then current else sum in (kept, sub32 desired kept))

-- HorizontalAutoscaler.capToClusterCapacity. The template's requests are summed as a node's usage is.
unfoldable pub cap_to_cluster_capacity : Deployment → ℤ → ℤ → M (ℤ × ℤ)
unfolding compute_cluster_capacity max_additional_replicas capped
cap_to_cluster_capacity d current desired = do
  usage ← compute_node_usage
  capacity ← compute_cluster_capacity usage
  let u = add_containers no_usage d.spec.template.containers
  pure (
      capped (max_additional_replicas capacity u.cpu_millis u.memory_bytes u.accelerators) current
        desired)
