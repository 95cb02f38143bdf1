-- ===== src/Controller/Deployment/Tests.antt =====
-- Runs of the deployment controller.
use nimbuscore.Prelude.{
  String, ℤ, pos, negsuc, wrap, ◌+ℤ◌, ◌-ℤ◌, ◌≡◌, refl, false, List, [], ◌∷◌, map, lookup, lookup_or,
  insert, remove, atoi, itoa, strip, trim_prefix, has_prefix,
}
use nimbuscore.Api.{Deployment}
use nimbuscore.Fixtures.{web, worker}
use nimbuscore.Cluster.{
  Cluster, Result, err, panicked, key, list_prefix, listed, operate, get, put, delete, list,
}
use nimbuscore.Scheduler.{accelerators_fit, consider, node_fits, ports_fit, scan, schedule, score}
use nimbuscore.Controller.Usage.{
  add_container, add_containers, add_counts, add_pod, build_node_candidates, candidate,
  candidates_of, compute_node_usage, pod_resource_request, usage_of,
}
use nimbuscore.Controller.Schedule.{
  decimal, is_unchanged, pending_message, placed, port_list, schedule_each, schedule_pod,
  schedule_unassigned,
}
use nimbuscore.Controller.Deployment.{
  claim_volume_nodes, claim_volumes, count_running, delete_from, pod_at, get_elem?, first_node,
  is_stranded, node_ready, owned_round, owned_loop, owned_pods, scale, scale_up, scale_down, wanted,
  resolve_volume_node, create_pods, free_indices, occupied, new_pod, reconcile_one,
}

abbrev start : ℤ → Cluster
start n = record {
  pods = [];
  nodes = ("/registry/nodes/n1", worker) ∷ [];
  deployments = ("/registry/deployments/a/web", web n) ∷ [];
  volumes = [];
  services = [];
  namespaces = [];
  secrets = [];
  network_policies = [];
  policies = [];
  images = [];
  operations = 0;
  fails = λ n. false;
}

abbrev pod_keys : Cluster → List String
pod_keys s = map (λ e. e.0) s.pods

-- `reconcile_one` with everything that it calls open.
evaluated : Deployment → Cluster → Result (Unit {0}) × Cluster
unfolding has_prefix delete get put list listed key list_prefix operate claim_volume_nodes
    claim_volumes count_running delete_from pod_at get_elem? first_node is_stranded node_ready
    owned_round owned_loop owned_pods scale scale_up scale_down wanted resolve_volume_node
    create_pods free_indices occupied new_pod decimal is_unchanged pending_message placed port_list
    schedule_each schedule_pod schedule_unassigned add_container add_containers add_counts add_pod
    build_node_candidates candidate candidates_of compute_node_usage pod_resource_request usage_of
    wrap ◌+ℤ◌ ◌-ℤ◌ lookup lookup_or insert remove atoi itoa strip trim_prefix accelerators_fit
    consider node_fits ports_fit scan schedule score reconcile_one
evaluated d s = reconcile_one d s

three_replicas :
    pod_keys (evaluated (web (pos 3)) (start (pos 3))).1
    ≡ "/registry/pods/a/web-0" ∷ "/registry/pods/a/web-1" ∷ "/registry/pods/a/web-2" ∷ []
unfolding evaluated
three_replicas = refl

-- A negative number of replicas ends the process.
negative_replicas : (evaluated (web (negsuc 0)) (start (negsuc 0))).0 ≡ err panicked
unfolding evaluated
negative_replicas = refl
