-- ===== src/Controller/Tests.antt =====
-- The controllers on a small cluster.
use nimbuscore.Prelude.{
  ◌≤◌, ◌*◌, ◌≤ℤ◌, ◌+◌, String, pos, negsuc, ◌≡◌, refl, true, List, [], ◌∷◌, All, here, none, some,
  length, keep, arith, wrap, lookup_or, ◌+ℤ◌, ◌-ℤ◌,
}
use nimbuscore.Api.{Pod}
use nimbuscore.Cluster.{Cluster, ok, err, panicked, listed, list_prefix}
use nimbuscore.Scheduler.{
  NodeCandidate, schedule, scan, consider, node_fits, score, accelerators_fit, ports_fit,
}
use nimbuscore.Controller.Usage.{pod_resource_request, add_containers, add_container, add_counts}
use nimbuscore.Controller.Schedule.{request_of, is_unassigned, schedule_each}
use nimbuscore.Controller.Schedule.Passes.{AllOn, IsStoredOn, schedule_each-stale}
use nimbuscore.Controller.Deployment.{reconcile_one, scale_down, scale_up, free_indices, owned_pods}
use nimbuscore.Controller.Deployment.Indices.{IsFreeFrom, IsIncreasing, free_indices_complete}
use nimbuscore.Controller.Deployment.Names.{created, stored}
use nimbuscore.Controller.Deployment.ScaleUp.{AllStored, scale_up-keeps_owned, scale_up-creates}
use nimbuscore.Controller.Deployment.Owned.{Yields, stays, without_lost, owned_pods-Yields}
use nimbuscore.Controller.Deployment.Scaling.{negative_replicas_panic, delete_pods, scale_down-drop}
use nimbuscore.Controller.Capacity.{
  ClusterCapacity, fit_count, least_accelerator, max_additional_replicas,
}
use nimbuscore.Controller.Capacity.Fits.{Remains, max_additional_replicas-Fits}
use nimbuscore.Fixtures.{pod_on, web, one_pod, one_pod-IsHealthy}

free_indices_complete_example :
    let js = free_indices (length (pos 0 ∷ pos 2 ∷ []) + 2) (pos 0 ∷ pos 2 ∷ []) 0 2 in
    (length js ≡ 2)
    × All (IsFreeFrom 0 (length (pos 0 ∷ pos 2 ∷ []) + 2) (pos 0 ∷ pos 2 ∷ [])) js
    × IsIncreasing js
free_indices_complete_example = free_indices_complete (pos 0 ∷ pos 2 ∷ []) 2

abbrev owned : List Pod
owned = pod_on "web-0" "n1" ∷ []

scale_up-keeps_owned_example :
    stored (web (pos 2)) "web-0" (scale_up (web (pos 2)) owned 1 one_pod).1
    ≡ stored (web (pos 2)) "web-0" one_pod
scale_up-keeps_owned_example =
    scale_up-keeps_owned (web (pos 2)) owned 1 (pod_on "web-0" "n1") one_pod (ground arith)
      (here refl)

scale_up-creates_example :
    (claimed : String) × ((scale_up (web (pos 2)) owned 1 one_pod).0 ≡ ok tt)
    × (length (created (web (pos 2)) owned 1) ≡ 1)
    × IsIncreasing (created (web (pos 2)) owned 1)
    × AllStored
        (web (pos 2))
        claimed
        (created (web (pos 2)) owned 1)
        (scale_up (web (pos 2)) owned 1 one_pod).1
scale_up-creates_example =
    scale_up-creates (web (pos 2)) owned 1 one_pod (ground arith) one_pod-IsHealthy

owned_pods-Yields_example :
    Yields one_pod.nodes
      (owned_pods (web (pos 2)))
      one_pod
      (keep (stays (web (pos 2)) one_pod.nodes) (listed (list_prefix "pods" "a") one_pod.pods))
      (without_lost
        (web (pos 2))
        one_pod.nodes
        (listed (list_prefix "pods" "a") one_pod.pods)
        one_pod.pods)
owned_pods-Yields_example = owned_pods-Yields (web (pos 2)) one_pod one_pod-IsHealthy

negative_replicas_panic_example :
    reconcile_one (web (negsuc 0)) one_pod ≡ (err panicked, (owned_pods (web (negsuc 0)) one_pod).1)
negative_replicas_panic_example =
    negative_replicas_panic (web (negsuc 0)) one_pod one_pod-IsHealthy (ground arith)

scale_down-drop_example :
    scale_down (pod_on "web-0" "n1" ∷ pod_on "web-1" "n1" ∷ []) (pos 1) one_pod
    ≡ delete_pods (pod_on "web-1" "n1" ∷ []) one_pod
scale_down-drop_example =
    scale_down-drop (pod_on "web-0" "n1" ∷ pod_on "web-1" "n1" ∷ []) 1 one_pod (ground arith)

-- A node that has room for one pod without requests, and a node with none.
abbrev roomy : NodeCandidate
roomy = record {
  name = "n1";
  cpu_capacity = pos 1000;
  mem_capacity = pos 1000;
  cpu_used = pos 0;
  mem_used = pos 0;
  accelerator_capacity = [];
  accelerator_used = [];
  used_ports = [];
}

abbrev waiting : List Pod
waiting = pod_on "web-0" "" ∷ pod_on "web-1" "" ∷ []

finds_roomy : schedule (request_of (pod_on "web-0" "")) (roomy ∷ []) ≡ some "n1"
unfolding schedule scan consider node_fits score accelerators_fit ports_fit wrap lookup_or ◌+ℤ◌ ◌-ℤ◌
    pod_resource_request add_containers add_container add_counts
finds_roomy = refl

finds_none : schedule (request_of (pod_on "web-0" "")) [] ≡ none
unfolding schedule scan
finds_none = refl

same_needs :
    All
      (λ p.
        (is_unassigned p ≡ true)
        × (pod_resource_request p ≡ pod_resource_request (pod_on "web-0" "")))
      waiting
unfolding pod_resource_request
same_needs = ((refl, refl), ((refl, refl), tt))

schedule_each-stale_example :
    (qs : List Pod) × (t : Cluster) × (schedule_each (roomy ∷ []) waiting one_pod
      ≡ (ok (qs, ok tt), t))
    × (length qs ≡ 2)
    × AllOn "n1" qs
    × All (IsStoredOn "n1" t) waiting
schedule_each-stale_example =
    schedule_each-stale (roomy ∷ []) (pod_resource_request (pod_on "web-0" "")) "web-0" "n1" waiting
      one_pod finds_roomy same_needs one_pod-IsHealthy

-- A cluster with room for three replicas of 30 and 10.
abbrev capacity : ClusterCapacity
capacity = record {
  cpu_capacity = pos 100;
  cpu_used = pos 0;
  mem_capacity = pos 100;
  mem_used = pos 10;
  accelerator_capacity = [];
  accelerator_used = [];
}

three_fit : pos 3 ≤ℤ max_additional_replicas capacity (pos 30) (pos 10) []
unfolding max_additional_replicas fit_count least_accelerator wrap ◌-ℤ◌
three_fit = ground arith

cpu_left : Remains (pos 100) (pos 0) 100
unfolding wrap ◌-ℤ◌
cpu_left = refl

mem_left : Remains (pos 100) (pos 10) 90
unfolding wrap ◌-ℤ◌
mem_left = refl

max_additional_replicas-Fits_example : (3 * 30 ≤ 100) × (3 * 10 ≤ 90)
max_additional_replicas-Fits_example =
    max_additional_replicas-Fits capacity 30 10 100 90 [] 3 (ground arith) (ground arith) cpu_left
      mem_left three_fit
